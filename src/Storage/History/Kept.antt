-- ===== src/Storage/History/Kept.antt =====
-- The invariant and the commits over one call of the storage, a merge left aside.
use artifact_system.Base.{
  ℕ, ◌+◌, ◌^◌, ◌<◌, ◌≤◌, ◌≡◌, some, [], ◌∷◌, List, Text, text_eq, text_key, Dict, lookup, contains,
  arith, Option-cases, Bool-cases, inl, inr, Ordered, All, length, contains-eq-false_of_none,
  contains-eq-true_of_some,
}
use artifact_system.Storage.Status.{StatusOr-cases}
use artifact_system.Storage.State.{
  CommitData, BranchData, MemoryStorage, is_reserved_commit_id_name, canonical_branch,
  resolve_state,
}
use artifact_system.Storage.Memory.{
  commit_id_of, next_commit_id, base_of, create_branch, delete_branch, stage, advance, commit,
}
use artifact_system.Storage.Memory.Writes.{stage-WellFormed}
use artifact_system.Storage.Memory.Commits.{advance-WellFormed, resolve_state-Ordered}
use artifact_system.Storage.Invariant.{DecimalLaws, IsCommit, WellFormed}
use artifact_system.Storage.Invariant.Preserved.{
  insert-WellFormed, erase-WellFormed, with_commit-keeps,
}

-- A later storage: it has the commits of the earlier one, and its number is at most one more.
abbrev pub Kept : (ℕ → Text) → MemoryStorage → MemoryStorage → Type 0
Kept decimal s t =
    WellFormed decimal t
    × (t.next_commit_seq ≤ s.next_commit_seq + 1)
    × ((i : Text) (c : CommitData) → lookup i s.commits ≡ some c → lookup i t.commits ≡ some c)

module _ (decimal : ℕ → Text) where
  module _ (s : MemoryStorage) (w : WellFormed decimal s) where
    pub same_storage : Kept decimal s s
    same_storage = (w, omega arith, λ i c e. e)

    pub create_branch-Kept : (name base : Text) → Kept decimal s (create_branch name base s).1
    unfolding create_branch
    create_branch-Kept name base = elim (Bool-cases (contains name s.branches)) [
      | inl taken ↦ rw (taken, create_branch) same_storage
      | inr free ↦ elim (Bool-cases (is_reserved_commit_id_name name)) [
        | inl reserved ↦ rw (free, reserved, create_branch) same_storage
        | inr unreserved ↦ elim (StatusOr-cases (base_of base s)) [
          | inr (e, refused) ↦ rw (free, unreserved, refused, create_branch) same_storage
          | inl (i, based) ↦ elim (Option-cases (lookup i s.commits)) [
            | inl missing ↦
                rw
                  (
                    free,
                    unreserved,
                    based,
                    contains-eq-false_of_none i s.commits missing,
                    create_branch,
                  )
                  same_storage
            | inr (c, found) ↦
                rw
                  (
                    free,
                    unreserved,
                    based,
                    contains-eq-true_of_some i s.commits c found,
                    create_branch,
                  )
                  (
                    insert-WellFormed decimal s name (record { head_commit_id = i; staging = [] }) w
                        (c, found) tt unreserved,
                    omega arith,
                    λ j d e. e,
                  )
          ]
        ]
      ]
    ]

    pub delete_branch-Kept : (name : Text) → Kept decimal s (delete_branch name s).1
    unfolding delete_branch
    delete_branch-Kept name = elim (Bool-cases (text_eq name canonical_branch)) [
      | inl main ↦ rw (main, delete_branch) same_storage
      | inr other ↦ elim (Bool-cases (contains name s.branches)) [
        | inl present ↦
            rw (other, present, delete_branch)
              (erase-WellFormed decimal s name w other, omega arith, λ i c e. e)
        | inr absent ↦ rw (other, absent, delete_branch) same_storage
      ]
    ]

    pub stage-Kept :
        (branch path : Text) (change : _) → Kept decimal s (stage branch path change s).1
    unfolding stage
    stage-Kept branch path change = (
      stage-WellFormed decimal s branch path change w,
      elim (Option-cases (lookup branch s.branches)) [
        | inl missing ↦ rw (missing, stage) (omega arith)
        | inr (b, found) ↦ rw (found, stage) (omega arith)
      ],
      λ i c e. elim (Option-cases (lookup branch s.branches)) [
        | inl missing ↦ rw (missing, stage) e
        | inr (b, found) ↦ rw (found, stage) e
      ],
    )

  module _ (laws : DecimalLaws decimal) (s : MemoryStorage) (w : WellFormed decimal s)
      (fits : s.next_commit_seq + 1 < 2 ^ 64) where
    pub advance-Kept :
        (branch message : Text) (b before : BranchData) (parents : List Text)
        (objects : Dict Text Text)
        → lookup branch s.branches ≡ some before
        → Ordered b.staging
        → Ordered objects
        → All (IsCommit s) parents
        → length parents ≤ 2
        → Kept decimal s (advance decimal branch b message parents objects s).1
    unfolding advance next_commit_id
    advance-Kept branch message b before parents objects found hb ho hp few = (
      advance-WellFormed decimal laws s w fits branch message b before parents objects found hb ho
          hp few,
      omega arith,
      λ i c e.
          with_commit-keeps decimal laws s
            (record {
              id = commit_id_of decimal s.next_commit_seq;
              message = message;
              parent_ids = parents;
              objects = objects;
            })
            w i c e,
    )

    pub commit-Kept : (branch message : Text) → Kept decimal s (commit decimal branch message s).1
    unfolding commit
    commit-Kept branch message = elim (Option-cases (lookup branch s.branches)) [
      | inl missing ↦ rw (missing, commit) (same_storage s w)
      | inr (b, found) ↦
          rw (found, commit)
            (advance-Kept branch message (record b { staging = [] }) b (b.head_commit_id ∷ [])
              (resolve_state s b) found tt
              (resolve_state-Ordered decimal s b w (w.head branch b found))
              (w.head branch b found, tt) (omega arith))
    ]
