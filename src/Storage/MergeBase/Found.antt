-- ===== src/Storage/MergeBase/Found.antt =====
-- The choice of FindMergeBase among the common ancestors.
use mathlib.Core.List.{Memᴰ}
use artifact_system.Base.{
  ℕ, ◌+◌, ◌-◌, ◌%◌, ◌^◌, max, ◌≡◌, refl, subst, ◌∙◌, ◌⊎◌, inl, inr, some, List, [], ◌∷◌, if_both,
  Text, text_eq, text_eq_iff, text_key, Dict, lookup, arith, Bool-cases, Option-cases, All,
  contains-eq-true_of_some,
}
use artifact_system.Storage.Status.{StatusCode, ok, failed}
use artifact_system.Storage.State.{CommitData, MemoryStorage, is_empty}
use artifact_system.Storage.Invariant.{DecimalLaws, IsCommit, Older, WellFormed}
use artifact_system.Storage.MergeBase.{
  Best, is_better, consider, best_common, choose_base, find_merge_base,
}
use artifact_system.Storage.MergeBase.Depths.{contains-All, Inherited, build_ancestor_depths-Holds}

-- What the choice keeps: the base is empty, or it satisfies both predicates.
abbrev Chosen : (Text → Type 0) → (Text → Type 0) → Best → Type 0
Chosen P Q best = (best.base ≡ []) ⊎ (P best.base × Q best.base)

best_common-Chosen :
    (P Q : Text → Type 0) (da db : Dict Text ℕ) (best : Best)
    → All (λ e. P e.0) da
    → All (λ e. Q e.0) db
    → Chosen P Q best
    → Chosen P Q (best_common da db best)
unfolding best_common consider
best_common-Chosen P Q [] db best ha hb h = h
best_common-Chosen P Q ((i, d) ∷ da) db best (hi, ha) hb h =
    best_common-Chosen P Q da db (consider db i d best) ha hb (elim (Option-cases (lookup i db)) [
      | inl missing ↦ rw (missing, consider) h
      | inr (e, found) ↦
          rw (found, consider)
            (if_both (Chosen P Q) (is_better i (max d e) ((d + e) % 2 ^ 64) best)
              (record { base = i; max_depth = max d e; sum_depth = (d + e) % 2 ^ 64 }) best
              (inr (hi, contains-All Q i e db found hb)) h)
    ])

-- The commits that a commit descends from, itself among them.
pub data Ancestor (s : MemoryStorage) : Text → Text → Type 0 where
  itself : (i : Text) → Ancestor s i i
  parent :
      (i j : Text) (c : CommitData) (p : Text)
      → Ancestor s i j
      → lookup j s.commits ≡ some c
      → Memᴰ p c.parent_ids
      → Ancestor s i p

All-parents :
    (P Q : Text → Type 0) (ps : List Text)
    → ((p : Text) → Memᴰ p ps → Q p → P p)
    → All Q ps
    → All P ps
All-parents P Q [] h a = tt
All-parents P Q (p ∷ ps) h (a, rest) =
    (h p (Memᴰ.head refl) a, All-parents P Q ps (λ q m. h q (Memᴰ.tail m)) rest)

choose_base-Common :
    (P Q : Text → Type 0) (da db : Dict Text ℕ)
    → All (λ e. P e.0) da
    → All (λ e. Q e.0) db
    → ((base : Text) × (choose_base da db ≡ ok base) × P base × Q base)
      ⊎ (choose_base da db ≡ failed StatusCode.failed_precondition)
unfolding choose_base
choose_base-Common P Q da db ha hb =
    let start : Best = record { base = []; max_depth = 2 ^ 64 - 1; sum_depth = 2 ^ 64 - 1 } in
    elim (Bool-cases (is_empty (best_common da db start).base)) [
      | inl e ↦ inr (rw e refl)
      | inr e ↦ elim (best_common-Chosen P Q da db start ha hb (inl refl)) [
        | inl none_chosen ↦ absurd (ground (arith, none_chosen, e))
        | inr (hp, hq) ↦ inl ((best_common da db start).base, rw e refl, hp, hq)
      ]
    ]

module _ (decimal : ℕ → Text) (laws : DecimalLaws decimal) (s : MemoryStorage)
    (wf : WellFormed decimal s) where
  -- A commit that `a` descends from.
  abbrev Below : Text → Text → Type 0
  Below a i = Ancestor s a i × IsCommit s i

  Below-Inherited : (a : Text) → Inherited decimal s (Below a)
  Below-Inherited a i c found (h, _) =
      let (n, below, eq, older, few) = wf.numbered i c found in
      All-parents (Below a) (Older decimal s n) c.parent_ids
        (λ p m o. (parent a i c p h found m, o.3)) older

-- Where decimal numerals have their laws, in a well-formed storage the search for a merge base of
-- two commits does not run out of fuel, and returns either a commit that is an ancestor of both or
-- the code of a failed precondition.
pub find_merge_base-Common :
    (decimal : ℕ → Text) (laws : DecimalLaws decimal) (s : MemoryStorage)
    (wf : WellFormed decimal s) (a b : Text)
    → IsCommit s a
    → IsCommit s b
    → ((base : Text) × (find_merge_base s a b ≡ ok base)
        × Ancestor s a base
        × Ancestor s b base
        × IsCommit s base)
      ⊎ (find_merge_base s a b ≡ failed StatusCode.failed_precondition)
unfolding find_merge_base
find_merge_base-Common decimal laws s wf a b ca cb = elim (Bool-cases (text_eq a b)) [
  | inl same ↦ inl (
    a,
    rw
        (
          contains-eq-true_of_some a s.commits ca.0 ca.1,
          contains-eq-true_of_some b s.commits cb.0 cb.1,
          same,
        )
        refl,
    itself a,
    subst (λ x. Ancestor s x a) ((text_eq_iff a b).0 same) (itself a),
    ca,
  )
  | inr other ↦
      let (da, ea, ha) =
        build_ancestor_depths-Holds decimal s (Below decimal laws s wf a)
          (Below-Inherited decimal laws s wf a) laws wf a ca (itself a, ca) in
      let (db, eb, hb) =
        build_ancestor_depths-Holds decimal s (Below decimal laws s wf b)
          (Below-Inherited decimal laws s wf b) laws wf b cb (itself b, cb) in
      let opened : find_merge_base s a b ≡ choose_base da db =
        rw
          (
            contains-eq-true_of_some a s.commits ca.0 ca.1,
            contains-eq-true_of_some b s.commits cb.0 cb.1,
            other,
            ea,
            eb,
          )
          refl in
      elim (choose_base-Common (Below decimal laws s wf a) (Below decimal laws s wf b) da db ha
        hb) [
          | inl (base, e, (pa, k), (pb, _)) ↦ inl (base, opened ∙ e, pa, pb, k)
          | inr e ↦ inr (opened ∙ e)
        ]
]
