-- ===== src/Storage/Memory/Listing.antt =====
-- What ListObjects lists.
use artifact_system.Base.{
  ℕ, ◌≡◌, refl, sym, ◌⊎◌, inl, inr, true, Bool, ◌&&◌, if_both, [], ◌∷◌, List, Text, text_eq_iff,
  text_lt, text_key, Dict, lookup, contains, arith, Option-cases, Above, Ordered,
  contains-eq-true_of_some,
}
use artifact_system.Storage.Status.{StatusCode, ok, failed, StatusOr-cases}
use artifact_system.Storage.State.{MemoryStorage, starts_with, resolve_state, resolve_ref_state}
use artifact_system.Storage.Memory.{paths_under, list_objects, object_exists}
use artifact_system.Storage.Memory.Commits.{resolve_state-Ordered}
use artifact_system.Storage.Invariant.{WellFormed}
use artifact_system.Storage.ThreeWay.Outcome.{mem_text}

-- Every text is above `p`.
abbrev pub AllAbove : Text → List Text → Type 0
AllAbove p [] = Unit {0}
AllAbove p (q ∷ qs) = (text_lt p q ≡ true) × AllAbove p qs

abbrev pub Increasing : List Text → Type 0
Increasing [] = Unit {0}
Increasing (p ∷ ps) = AllAbove p ps × Increasing ps

mem_text-paths_under :
    (prefix p : Text) (m : Dict Text Text)
    → mem_text p (paths_under prefix m) ≡ starts_with p prefix && contains p m
unfolding paths_under contains
mem_text-paths_under prefix p [] = ground arith
mem_text-paths_under prefix p ((q, v) ∷ m) =
    ground (arith, text_eq_iff q p, mem_text-paths_under prefix p m)

paths_under-AllAbove :
    (prefix p : Text) (m : Dict Text Text) → Above p m → AllAbove p (paths_under prefix m)
unfolding paths_under
paths_under-AllAbove prefix p [] h = tt
paths_under-AllAbove prefix p ((q, v) ∷ m) (h, rest) =
    if_both (AllAbove p) (starts_with q prefix) (q ∷ paths_under prefix m) (paths_under prefix m)
      (h, paths_under-AllAbove prefix p m rest) (paths_under-AllAbove prefix p m rest)

paths_under-Increasing :
    (prefix : Text) (m : Dict Text Text) → Ordered m → Increasing (paths_under prefix m)
unfolding paths_under
paths_under-Increasing prefix [] h = tt
paths_under-Increasing prefix ((q, v) ∷ m) (h, rest) =
    if_both Increasing (starts_with q prefix) (q ∷ paths_under prefix m) (paths_under prefix m)
      (paths_under-AllAbove prefix q m h, paths_under-Increasing prefix m rest)
      (paths_under-Increasing prefix m rest)

ref_state-Ordered :
    (decimal : ℕ → Text) (s : MemoryStorage) (ref : Text) (state : Dict Text Text)
    → WellFormed decimal s
    → resolve_ref_state s ref ≡ ok state
    → Ordered state
unfolding resolve_ref_state
ref_state-Ordered decimal s ref state w e = elim (Option-cases (lookup ref s.branches)) [
  | inr (b, eb) ↦
      let (c, ec) = w.head ref b eb in
      let same : resolve_ref_state s ref ≡ ok (resolve_state s b) =
        rw (eb, contains-eq-true_of_some b.head_commit_id s.commits c ec, resolve_ref_state) refl in
      let eq : resolve_state s b ≡ state = ground (arith, same, e) in
      rw (sym eq) (resolve_state-Ordered decimal s b w (c, ec))
  | inl eb ↦ elim (Option-cases (lookup ref s.commits)) [
    | inr (c, ec) ↦
        let eq : c.objects ≡ state = ground (arith, eb, ec, e) in rw (sym eq) (w.snapshot ref c ec)
    | inl ec ↦ absurd (ground (arith, eb, ec, e))
  ]
]

-- In a well-formed storage, where ListObjects returns a list for a ref and a prefix, the list is
-- strictly increasing, and a path is in it exactly where it starts with the prefix and ObjectExists
-- says of the ref that it is there; and where the listing fails, ObjectExists fails for every path.
pub list_objects-object_exists :
    (decimal : ℕ → Text) (s : MemoryStorage) (ref prefix : Text)
    → WellFormed decimal s
    → ((paths : List Text) × (list_objects ref prefix s ≡ ok paths)
        × Increasing paths
        × ((path : Text)
            → (there : Bool) × (object_exists ref path s ≡ ok there)
              × (mem_text path paths ≡ starts_with path prefix && there)))
      ⊎ ((e : StatusCode) × (list_objects ref prefix s ≡ failed e)
          × ((path : Text) → object_exists ref path s ≡ failed e))
unfolding list_objects object_exists
list_objects-object_exists decimal s ref prefix w =
    elim (StatusOr-cases (resolve_ref_state s ref)) [
      | inl (state, e) ↦ inl (
        paths_under prefix state,
        rw (e, list_objects) refl,
        paths_under-Increasing prefix state (ref_state-Ordered decimal s ref state w e),
        λ path. (
          contains path state,
          rw (e, object_exists) refl,
          mem_text-paths_under prefix path state,
        ),
      )
      | inr (e, failure) ↦
          inr (e, rw (failure, list_objects) refl, λ path. rw (failure, object_exists) refl)
    ]
