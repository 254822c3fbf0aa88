-- ===== src/Storage/Invariant.antt =====
-- The invariant of a storage: branches point at commits, names of branches are no commit ids, and a
-- commit only points at older ones.
pub mod Preserved
use artifact_system.Base.{
  ℕ, ◌+◌, ◌%◌, ◌^◌, ◌<◌, ◌≤◌, ◌≡◌, refl, sym, ◌∙◌, true, false, none, some, inl, inr, List, [], ◌∷◌,
  ◌++◌, if◌then◌else◌, Text, text_eq, text_eq_iff, text_key, lookup, insert, lookup-insert, arith,
  Option-cases, Ordered, length, append_cancel, All, All-map,
}
use artifact_system.Storage.State.{
  CommitData, BranchData, MemoryStorage, canonical_branch, commit_prefix, all_digits, is_empty,
  starts_with, behind, is_reserved_commit_id_name,
}
use artifact_system.Storage.Memory.{commit_id_of}

-- What the storage relies on of decimal numerals.
pub record DecimalLaws (decimal : ℕ → Text) : Type 0 where
  pub injective : (m n : ℕ) → decimal m ≡ decimal n → m ≡ n
  pub digits : (n : ℕ) → all_digits (decimal n) ≡ true
  pub nonempty : (n : ℕ) → is_empty (decimal n) ≡ false

abbrev pub IsCommit : MemoryStorage → Text → Type 0
IsCommit s i = (c : CommitData) × (lookup i s.commits ≡ some c)

module _ (decimal : ℕ → Text) where
  -- The commit of number `m`, which is below `n`.
  abbrev pub Older : MemoryStorage → ℕ → Text → Type 0
  Older s n i = (m : ℕ) × (m < n) × (i ≡ commit_id_of decimal m) × IsCommit s i

  abbrev pub Numbered : MemoryStorage → Text → CommitData → Type 0
  Numbered s i c =
      (n : ℕ) × (n < s.next_commit_seq)
      × (i ≡ commit_id_of decimal n)
      × All (Older s n) c.parent_ids
      × (length c.parent_ids ≤ 2)

  pub record WellFormed (s : MemoryStorage) : Type 0 where
    pub head :
        (n : Text) (b : BranchData) → lookup n s.branches ≡ some b → IsCommit s b.head_commit_id
    pub staged : (n : Text) (b : BranchData) → lookup n s.branches ≡ some b → Ordered b.staging
    pub unreserved :
        (n : Text) (b : BranchData)
        → lookup n s.branches ≡ some b
        → is_reserved_commit_id_name n ≡ false
    pub snapshot : (i : Text) (c : CommitData) → lookup i s.commits ≡ some c → Ordered c.objects
    pub numbered : (i : Text) (c : CommitData) → lookup i s.commits ≡ some c → Numbered s i c
    pub canonical : (b : BranchData) × (lookup canonical_branch s.branches ≡ some b)

module _ (decimal : ℕ → Text) (laws : DecimalLaws decimal) where
  pub commit_id_of_injective : (m n : ℕ) → commit_id_of decimal m ≡ commit_id_of decimal n → m ≡ n
  unfolding commit_id_of
  commit_id_of_injective m n e =
      laws.injective m n
        (append_cancel commit_prefix commit_prefix (decimal m) (decimal n) refl e).1

  pub reserved-commit_id_of : (n : ℕ) → is_reserved_commit_id_name (commit_id_of decimal n) ≡ true
  unfolding commit_id_of is_reserved_commit_id_name starts_with is_empty behind
  reserved-commit_id_of n = rw (laws.nonempty n, laws.digits n) refl

  -- The next commit id is no commit and no branch yet.
  pub next_is_fresh :
      (s : MemoryStorage)
      → WellFormed decimal s
      → (lookup (commit_id_of decimal s.next_commit_seq) s.commits ≡ none)
        × (lookup (commit_id_of decimal s.next_commit_seq) s.branches ≡ none)
  next_is_fresh s w = (
    elim (Option-cases (lookup (commit_id_of decimal s.next_commit_seq) s.commits)) [
      | inl e ↦ e
      | inr (c, e) ↦
          let (n, below, eq, _, _) = w.numbered (commit_id_of decimal s.next_commit_seq) c e in
          absurd (omega (arith, commit_id_of_injective s.next_commit_seq n eq))
    ],
    elim (Option-cases (lookup (commit_id_of decimal s.next_commit_seq) s.branches)) [
      | inl e ↦ e
      | inr (b, e) ↦ absurd (
          ground (
            arith,
            w.unreserved (commit_id_of decimal s.next_commit_seq) b e,
            reserved-commit_id_of s.next_commit_seq,
          ))
    ],
  )
