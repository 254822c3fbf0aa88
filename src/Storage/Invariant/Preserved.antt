-- ===== src/Storage/Invariant/Preserved.antt =====
-- The invariant of a storage over a write to a branch, the removal of a branch, and a new commit.
use artifact_system.Base.{
  ℕ, ◌+◌, ◌%◌, ◌^◌, ◌<◌, ◌≤◌, ◌≡◌, sym, false, some, inl, inr, Text, text_eq, text_eq_iff, text_key,
  lookup, insert, erase, lookup-insert, lookup-erase, arith, Bool-cases, Ordered, length, All,
  All-map,
}
use artifact_system.Storage.State.{
  CommitData, BranchData, MemoryStorage, canonical_branch, is_reserved_commit_id_name,
}
use artifact_system.Storage.Memory.{commit_id_of}
use artifact_system.Storage.Invariant.{DecimalLaws, IsCommit, Older, WellFormed, next_is_fresh}

-- A property of the branches after a write is one of the written branch and of the others.
branches-insert {ℓ} :
    (P : Text → BranchData → Type ℓ) (s : MemoryStorage) (name : Text) (b : BranchData)
    → P name b
    → ((n : Text) (d : BranchData) → lookup n s.branches ≡ some d → P n d)
    → (n : Text) (d : BranchData) → lookup n (insert name b s.branches) ≡ some d
    → P n d
branches-insert P s name b hb hs n d e = elim (Bool-cases (text_eq name n)) [
  | inl same ↦
      let here : b ≡ d = ground (arith, same, lookup-insert name n b s.branches) in
      rw (sym here, sym ((text_eq_iff name n).0 same)) hb
  | inr other ↦ hs n d (ground (arith, other, lookup-insert name n b s.branches))
]

module _ (decimal : ℕ → Text) where
  pub insert-WellFormed :
      (s : MemoryStorage) (name : Text) (b : BranchData)
      → WellFormed decimal s
      → IsCommit s b.head_commit_id
      → Ordered b.staging
      → is_reserved_commit_id_name name ≡ false
      → WellFormed decimal (record s { branches = insert name b s.branches })
  insert-WellFormed s name b w head staged unreserved = record {
    head = branches-insert (λ n d. IsCommit s d.head_commit_id) s name b head w.head;
    staged = branches-insert (λ n d. Ordered d.staging) s name b staged w.staged;
    unreserved =
        branches-insert (λ n d. is_reserved_commit_id_name n ≡ false) s name b unreserved
          w.unreserved;
    snapshot = w.snapshot;
    numbered = w.numbered;
    canonical = elim (Bool-cases (text_eq name canonical_branch)) [
      | inl same ↦ (b, ground (arith, same, lookup-insert name canonical_branch b s.branches))
      | inr other ↦ (
        w.canonical.0,
        ground (arith, other, w.canonical.1, lookup-insert name canonical_branch b s.branches),
      )
    ];
  }

  pub erase-WellFormed :
      (s : MemoryStorage) (name : Text)
      → WellFormed decimal s
      → text_eq name canonical_branch ≡ false
      → WellFormed decimal (record s { branches = erase name s.branches })
  erase-WellFormed s name w other =
      let before : (n : Text) (b : BranchData)
          → lookup n (erase name s.branches) ≡ some b
          → lookup n s.branches ≡ some b =
        λ n b e. ground (arith, lookup-erase name n s.branches) in
      record {
        head = λ n b e. w.head n b (before n b e);
        staged = λ n b e. w.staged n b (before n b e);
        unreserved = λ n b e. w.unreserved n b (before n b e);
        snapshot = w.snapshot;
        numbered = w.numbered;
        canonical = (
          w.canonical.0,
          ground (arith, other, w.canonical.1, lookup-erase name canonical_branch s.branches),
        );
      }

  module _ (laws : DecimalLaws decimal) (s : MemoryStorage) (c : CommitData)
      (w : WellFormed decimal s) where
    abbrev new_id : Text
    new_id = commit_id_of decimal s.next_commit_seq

    -- The storage with one more commit.
    abbrev pub with_commit : MemoryStorage
    with_commit = record s {
      commits = insert new_id c s.commits;
      next_commit_seq = (s.next_commit_seq + 1) % 2 ^ 64;
    }

    pub with_commit-keeps :
        (i : Text) (d : CommitData)
        → lookup i s.commits ≡ some d
        → lookup i (insert new_id c s.commits) ≡ some d
    with_commit-keeps i d e = ground (
      arith,
      text_eq_iff new_id i,
      lookup-insert new_id i c s.commits,
      (next_is_fresh decimal laws s w).0,
    )

    Older-with_commit : (n : ℕ) (i : Text) → Older decimal s n i → Older decimal with_commit n i
    Older-with_commit n i (m, below, eq, (d, found)) =
        (m, below, eq, (d, with_commit-keeps i d found))

    pub with_commit-WellFormed :
        s.next_commit_seq + 1 < 2 ^ 64
        → Ordered c.objects
        → All (IsCommit s) c.parent_ids
        → length c.parent_ids ≤ 2
        → WellFormed decimal with_commit
    with_commit-WellFormed fits ordered parents few = record {
      head =
          λ n b e. let (d, found) = w.head n b e in (d, with_commit-keeps b.head_commit_id d found);
      staged = w.staged;
      unreserved = w.unreserved;
      snapshot = λ i d e. elim (Bool-cases (text_eq new_id i)) [
        | inl same ↦
            let here : c ≡ d = ground (arith, same, lookup-insert new_id i c s.commits) in
            rw (sym here) ordered
        | inr other ↦ w.snapshot i d (ground (arith, other, lookup-insert new_id i c s.commits))
      ];
      numbered = λ i d e. elim (Bool-cases (text_eq new_id i)) [
        | inl same ↦
            let here : c ≡ d = ground (arith, same, lookup-insert new_id i c s.commits) in
            rw (sym here) (
              s.next_commit_seq,
              omega arith,
              sym ((text_eq_iff new_id i).0 same),
              All-map
                  (λ p found.
                    let (n, below, eq, _, _) = w.numbered p found.0 found.1 in
                    (n, below, eq, (found.0, with_commit-keeps p found.0 found.1)))
                  c.parent_ids parents,
              few,
            )
        | inr other ↦
            let (n, below, eq, older, few') =
              w.numbered i d (ground (arith, other, lookup-insert new_id i c s.commits)) in
            (n, omega arith, eq, All-map (Older-with_commit n) d.parent_ids older, few')
      ];
      canonical = w.canonical;
    }
