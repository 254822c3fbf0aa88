-- ===== src/Storage/ThreeWay/Outcome.antt =====
-- What the three-way merge makes of each path.
use artifact_system.Base.{
  ◌≡◌, refl, ◌∙◌, true, false, ◌&&◌, ◌||◌, not, Bool, Option, none, some, List, [], ◌∷◌, ◌++◌,
  if◌then◌else◌, inl, inr, Text, text_eq, text_eq_iff, text_key, Dict, lookup, contains, insert,
  lookup-insert, arith, Bool-cases, Option-cases, contains-eq-false_of_none,
  contains-eq-true_of_some,
}
use artifact_system.Storage.ThreeWay.{
  insert_paths, same_value, put_value, merge_path, merge_paths, all_paths, three_way, insert_sorted,
  sorted,
}

-- A path diverges where both sides changed it, and not to the same value.
abbrev pub diverges : Option Text → Option Text → Option Text → Bool
diverges base source target =
    not (same_value source base) && (not (same_value target base) && not (same_value source target))

-- The side that changed the path wins; a path that diverges is left out.
abbrev pub outcome : Option Text → Option Text → Option Text → Option Text
outcome base source target =
    if diverges base source target
    then none
    else (if same_value source base then target else source)

abbrev pub mem_text : Text → List Text → Bool
mem_text p [] = false
mem_text p (q ∷ qs) = text_eq q p || mem_text p qs

abbrev or_else : Option Text → Option Text → Option Text
or_else none o = o
or_else (some t) o = some t

or_else-none : (o : Option Text) → or_else o none ≡ o
or_else-none none = refl
or_else-none (some t) = refl

eq_of_same_value : (a b : Option Text) → same_value a b ≡ true → a ≡ b
unfolding same_value
eq_of_same_value none none h = refl
eq_of_same_value none (some b) h = cc
eq_of_same_value (some a) none h = cc
eq_of_same_value (some a) (some b) h = rw ((text_eq_iff a b).0 h) refl

mem_text-append :
    (q : Text) (xs ys : List Text) → mem_text q (xs ++ ys) ≡ mem_text q xs || mem_text q ys
mem_text-append q [] ys = refl
mem_text-append q (x ∷ xs) ys = ground (arith, mem_text-append q xs ys)

lookup-put_value :
    (p q : Text) (v : Option Text) (m : Dict Text Text)
    → lookup q (put_value p v m) ≡ (if text_eq p q then or_else v (lookup q m) else lookup q m)
unfolding put_value
lookup-put_value p q none m = ground arith
lookup-put_value p q (some t) m = rw (lookup-insert p q t m) refl

module _ (b s t : Dict Text Text) where
  abbrev outcome_at : Text → Option Text
  outcome_at q = outcome (lookup q b) (lookup q s) (lookup q t)

  abbrev diverges_at : Text → Bool
  diverges_at q = diverges (lookup q b) (lookup q s) (lookup q t)

  merge_path-merged :
      (p q : Text) (m : Dict Text Text) (c : List Text)
      → lookup q (merge_path b s t p (m, c)).0
        ≡ (if text_eq p q then or_else (outcome_at q) (lookup q m) else lookup q m)
  unfolding merge_path
  merge_path-merged p q m c = ground (
    arith,
    text_eq_iff p q,
    eq_of_same_value (lookup p s) (lookup p b),
    eq_of_same_value (lookup p t) (lookup p b),
    eq_of_same_value (lookup p s) (lookup p t),
    lookup-put_value p q (lookup p s) m,
    lookup-put_value p q (lookup p t) m,
    lookup-put_value p q (lookup p b) m,
  )

  merge_path-conflicts :
      (p q : Text) (m : Dict Text Text) (c : List Text)
      → mem_text q (merge_path b s t p (m, c)).1 ≡ mem_text q c || (text_eq p q && diverges_at q)
  unfolding merge_path
  merge_path-conflicts p q m c = ground (arith, text_eq_iff p q, mem_text-append q c (p ∷ []))

  pub merge_paths-merged :
      (ps : Dict Text (Unit {0})) (q : Text) (state : Dict Text Text × List Text)
      → lookup q (merge_paths b s t ps state).0
        ≡ (if contains q ps then or_else (outcome_at q) (lookup q state.0) else lookup q state.0)
  unfolding merge_paths contains
  merge_paths-merged [] q state = refl
  merge_paths-merged ((p, _) ∷ ps) q state =
      merge_paths-merged ps q (merge_path b s t p state)
      ∙ ground (arith, text_eq_iff p q, merge_path-merged p q state.0 state.1)

  pub merge_paths-conflicts :
      (ps : Dict Text (Unit {0})) (q : Text) (state : Dict Text Text × List Text)
      → mem_text q (merge_paths b s t ps state).1
        ≡ mem_text q state.1 || (contains q ps && diverges_at q)
  unfolding merge_paths contains
  merge_paths-conflicts [] q state = ground arith
  merge_paths-conflicts ((p, _) ∷ ps) q state = ground (
    arith,
    text_eq_iff p q,
    merge_paths-conflicts ps q (merge_path b s t p state),
    merge_path-conflicts p q state.0 state.1,
  )

contains-insert :
    (p q : Text) (m : Dict Text (Unit {0}))
    → contains q (insert p tt m) ≡ text_eq p q || contains q m
contains-insert p q m = elim (Bool-cases (text_eq p q)) [
  | inl same ↦ ground (
    arith,
    same,
    contains-eq-true_of_some q (insert p tt m) tt (ground (arith, same, lookup-insert p q tt m)),
  )
  | inr other ↦ elim (Option-cases (lookup q m)) [
    | inl e ↦ ground (
      arith,
      other,
      contains-eq-false_of_none q m e,
      contains-eq-false_of_none q (insert p tt m)
          (ground (arith, other, e, lookup-insert p q tt m)),
    )
    | inr (u, e) ↦ ground (
      arith,
      other,
      contains-eq-true_of_some q m u e,
      contains-eq-true_of_some q (insert p tt m) u
          (ground (arith, other, e, lookup-insert p q tt m)),
    )
  ]
]

contains-insert_paths :
    (m : Dict Text Text) (paths : Dict Text (Unit {0})) (q : Text)
    → contains q (insert_paths m paths) ≡ contains q m || contains q paths
unfolding insert_paths contains
contains-insert_paths [] paths q = refl
contains-insert_paths ((p, v) ∷ m) paths q =
    ground (arith, contains-insert_paths m (insert p tt paths) q, contains-insert p q paths)

mem_text-insert_sorted :
    (q x : Text) (xs : List Text) → mem_text q (insert_sorted x xs) ≡ text_eq x q || mem_text q xs
unfolding insert_sorted
mem_text-insert_sorted q x [] = refl
mem_text-insert_sorted q x (y ∷ ys) = ground (arith, mem_text-insert_sorted q x ys)

pub mem_text-sorted : (q : Text) (xs : List Text) → mem_text q (sorted xs) ≡ mem_text q xs
unfolding sorted
mem_text-sorted q [] = refl
mem_text-sorted q (x ∷ xs) =
    ground (arith, mem_text-sorted q xs, mem_text-insert_sorted q x (sorted xs))

lookup_of_not-contains :
    {V : Type 0} (q : Text) (m : Dict Text V) → contains q m ≡ false → lookup q m ≡ none
lookup_of_not-contains q m h = elim (Option-cases (lookup q m)) [
  | inl e ↦ e
  | inr (v, e) ↦ absurd (ground (arith, h, contains-eq-true_of_some q m v e))
]

contains-all_paths :
    (b s t : Dict Text Text) (q : Text)
    → contains q (all_paths b s t) ≡ contains q t || (contains q s || (contains q b || false))
unfolding all_paths contains
contains-all_paths b s t q = ground (
  arith,
  contains-insert_paths t (insert_paths s (insert_paths b [])) q,
  contains-insert_paths s (insert_paths b []) q,
  contains-insert_paths b [] q,
)

-- For any three snapshots and any path, the merged snapshot holds at the path what the side that
-- changed it has there, or nothing where both sides changed it to different values; and exactly the
-- paths of the latter kind are among the conflicts.
pub three_way-outcome :
    (base source target : Dict Text Text) (q : Text)
    → (lookup q (three_way base source target).0
        ≡ outcome (lookup q base) (lookup q source) (lookup q target))
      × (mem_text q (three_way base source target).1
          ≡ diverges (lookup q base) (lookup q source) (lookup q target))
unfolding three_way lookup
three_way-outcome b s t q =
    let merged = merge_paths-merged b s t (all_paths b s t) q ([], []) in
    let listed = merge_paths-conflicts b s t (all_paths b s t) q ([], []) in
    elim (Bool-cases (contains q (all_paths b s t))) [
      | inl met ↦ (
        merged ∙ rw met (or_else-none (outcome (lookup q b) (lookup q s) (lookup q t))),
        listed ∙ rw met refl,
      )
      | inr unmet ↦
          let eb = lookup_of_not-contains q b (ground (arith, unmet, contains-all_paths b s t q)) in
          let es = lookup_of_not-contains q s (ground (arith, unmet, contains-all_paths b s t q)) in
          let et = lookup_of_not-contains q t (ground (arith, unmet, contains-all_paths b s t q)) in
          (merged ∙ rw (unmet, eb, es, et) refl, listed ∙ rw (unmet, eb, es) refl)
    ]
