-- ===== src/Transaction/Conflict/Retryable.antt =====
-- When a conflict of transaction/conflict_resolver.cpp is tried again.
use artifact_system.Base.{
  ℕ, ◌<◌, ◌≡◌, refl, sym, subst, inl, inr, Bool, true, false, Option, List, [], ◌∷◌, ◌++◌,
  if◌then◌else◌, if_both, Text, arith, Bool-cases, All, All-append,
}
use artifact_system.Storage.Merge.{Conflict, has_no_entry}
use artifact_system.Transaction.Conflict.{
  PathConflictKind, ConflictType, resolve_from, resolve_conflict_type, classify, kinds_of,
  is_retryable_kind, evaluate_retry_decision,
}

abbrev pub Retryable : PathConflictKind → Type 0
Retryable k = k ≡ PathConflictKind.retryable_non_unique_index

is_retryable_kind-Retryable : (k : PathConflictKind) → is_retryable_kind k ≡ true → Retryable k
unfolding is_retryable_kind
is_retryable_kind-Retryable PathConflictKind.retryable_non_unique_index h = refl
is_retryable_kind-Retryable PathConflictKind.non_retryable_unique_index h = cc
is_retryable_kind-Retryable PathConflictKind.non_retryable_payload h = cc
is_retryable_kind-Retryable PathConflictKind.non_retryable_referential_integrity h = cc
is_retryable_kind-Retryable PathConflictKind.non_retryable_unknown h = cc

-- Once the flag is down it stays down.
kinds_of-down :
    (f : Option (Text → PathConflictKind)) (ps : List Text) (ks : List PathConflictKind)
    → (kinds_of f ps (ks, false)).1 ≡ false
unfolding kinds_of
kinds_of-down f [] ks = refl
kinds_of-down f (p ∷ ps) ks =
    if_both (λ b. (kinds_of f ps (ks ++ (classify f p ∷ []), b)).1 ≡ false)
      (is_retryable_kind (classify f p)) false false
      (kinds_of-down f ps (ks ++ (classify f p ∷ [])))
      (kinds_of-down f ps (ks ++ (classify f p ∷ [])))

kinds_of-All :
    (f : Option (Text → PathConflictKind)) (ps : List Text) (ks : List PathConflictKind)
    → All Retryable ks
    → (kinds_of f ps (ks, true)).1 ≡ true
    → All (λ p. Retryable (classify f p)) ps × All Retryable (kinds_of f ps (ks, true)).0
unfolding kinds_of
kinds_of-All f [] ks h e = (tt, h)
kinds_of-All f (p ∷ ps) ks h e =
    let ks' = ks ++ (classify f p ∷ []) in
    let flagged : Bool → Type 0 = λ b. (kinds_of f ps (ks', if b then true else false)).1 ≡ true in
    elim (Bool-cases (is_retryable_kind (classify f p))) [
      | inl good ↦
          let here = is_retryable_kind-Retryable (classify f p) good in
          let (rest, seen) =
            kinds_of-All f ps ks' (All-append Retryable ks (classify f p ∷ []) h (here, tt))
              (subst flagged good e) in
          (
            (here, rest),
            subst (λ b. All Retryable (kinds_of f ps (ks', if b then true else false)).0) (sym good)
                seen,
          )
      | inr bad ↦ absurd (ground (arith, kinds_of-down f ps ks', subst flagged bad e))
    ]

resolve_from-Retryable :
    (ks : List PathConflictKind)
    → All Retryable ks
    → resolve_from ks true false ≡ ConflictType.index_conflict
unfolding resolve_from
resolve_from-Retryable [] h = refl
resolve_from-Retryable (PathConflictKind.retryable_non_unique_index ∷ ks) (h, rest) =
    resolve_from-Retryable ks rest
resolve_from-Retryable (PathConflictKind.non_retryable_unique_index ∷ ks) (h, rest) =
    resolve_from-Retryable ks rest
resolve_from-Retryable (PathConflictKind.non_retryable_payload ∷ ks) (h, rest) =
    absurd (ground (arith, h))
resolve_from-Retryable (PathConflictKind.non_retryable_referential_integrity ∷ ks) (h, rest) =
    absurd (ground (arith, h))
resolve_from-Retryable (PathConflictKind.non_retryable_unknown ∷ ks) (h, rest) =
    absurd (ground (arith, h))

resolve_conflict_type-Retryable :
    (k : PathConflictKind) (ks : List PathConflictKind)
    → All Retryable (k ∷ ks)
    → resolve_conflict_type (k ∷ ks) ≡ ConflictType.index_conflict
unfolding resolve_conflict_type resolve_from
resolve_conflict_type-Retryable PathConflictKind.retryable_non_unique_index ks (h, rest) =
    resolve_from-Retryable ks rest
resolve_conflict_type-Retryable PathConflictKind.non_retryable_unique_index ks (h, rest) =
    resolve_from-Retryable ks rest
resolve_conflict_type-Retryable PathConflictKind.non_retryable_payload ks (h, rest) =
    absurd (ground (arith, h))
resolve_conflict_type-Retryable PathConflictKind.non_retryable_referential_integrity ks (h, rest) =
    absurd (ground (arith, h))
resolve_conflict_type-Retryable PathConflictKind.non_retryable_unknown ks (h, rest) =
    absurd (ground (arith, h))

kinds_of-cons :
    (f : Option (Text → PathConflictKind)) (ps : List Text) (k : PathConflictKind)
    (ks : List PathConflictKind) (b : Bool)
    → (c : PathConflictKind) × (cs : List PathConflictKind) × ((kinds_of f ps (k ∷ ks, b)).0
        ≡ c ∷ cs)
unfolding kinds_of
kinds_of-cons f [] k ks b = (k, ks, refl)
kinds_of-cons f (p ∷ ps) k ks b =
    kinds_of-cons f ps k (ks ++ (classify f p ∷ []))
      (if is_retryable_kind (classify f p) then b else false)

decided :
    (f : Option (Text → PathConflictKind)) (ps : List Text) (c : Conflict) (made most : ℕ)
    → (evaluate_retry_decision (record c { conflicting_paths = ps }) made most f).retryable ≡ true
    → (made < most)
      × All (λ p. Retryable (classify f p)) ps
      × ((evaluate_retry_decision (record c { conflicting_paths = ps }) made most f).conflict_type
          ≡ ConflictType.index_conflict)
unfolding evaluate_retry_decision has_no_entry
decided f [] c made most h = absurd (ground (arith, h))
decided f (p ∷ ps) c made most h =
    let seen = kinds_of f (p ∷ ps) ([], true) in
    let up : seen.1 ≡ true = ground (arith, h) in
    let (paths, kinds) = kinds_of-All f (p ∷ ps) [] tt up in
    let (k, ks, eq) =
      kinds_of-cons f ps (classify f p) []
        (if is_retryable_kind (classify f p) then true else false) in
    (
      ground (arith, h),
      paths,
      rw eq (resolve_conflict_type-Retryable k ks (subst (All Retryable) eq kinds)),
    )

-- Where a conflict is to be tried again, attempts are left, every conflicting path is of the kind of a
-- non-unique index, and the conflict is reported as one of indexes.
pub evaluate_retry_decision-Retryable :
    (c : Conflict) (made most : ℕ) (f : Option (Text → PathConflictKind))
    → (evaluate_retry_decision c made most f).retryable ≡ true
    → (made < most)
      × All (λ p. Retryable (classify f p)) c.conflicting_paths
      × ((evaluate_retry_decision c made most f).conflict_type ≡ ConflictType.index_conflict)
unfolding evaluate_retry_decision has_no_entry
evaluate_retry_decision-Retryable c made most f h = decided f c.conflicting_paths c made most h
