-- ===== src/Storage/Memory/Staged.antt =====
-- A change that is staged and committed at once, in the storage of storage/memory_storage.cpp.
use artifact_system.Base.{
  ℕ, ◌+◌, ◌^◌, ◌<◌, ◌≡◌, refl, ◌∙◌, inl, inr, false, ◌&&◌, some, if◌then◌else◌, [], Text, text_eq,
  text_eq_iff, text_key, lookup, insert, lookup-insert, arith, Bool-cases,
}
use artifact_system.Storage.Status.{StatusOr, ok}
use artifact_system.Storage.State.{BranchData, MemoryStorage, StagedChange}
use artifact_system.Storage.Memory.{
  commit_id_of, next_commit_id, stage, get_object, advance, commit,
}
use artifact_system.Storage.Memory.Reads.{read}
use artifact_system.Storage.Memory.Writes.{stage-WellFormed, stage-read}
use artifact_system.Storage.Memory.Commits.{commit-WellFormed, get_object-commit_made}
use artifact_system.Storage.Invariant.{DecimalLaws, WellFormed, next_is_fresh}

abbrev pub IsBranch : MemoryStorage → Text → Type 0
IsBranch s name = (b : BranchData) × (lookup name s.branches ≡ some b)

module _ (decimal : ℕ → Text) (laws : DecimalLaws decimal) (s : MemoryStorage)
    (w : WellFormed decimal s) (branch path message : Text) (change : StagedChange)
    (found : IsBranch s branch) where
  abbrev pub staged : StatusOr (Unit {0}) × MemoryStorage
  staged = stage branch path change s

  abbrev pub staged_commit : StatusOr Text × MemoryStorage
  staged_commit = commit decimal branch message staged.1

  pub staged_ok : (staged.0 ≡ ok tt) × (staged.1.next_commit_seq ≡ s.next_commit_seq)
  unfolding stage
  staged_ok = (rw (found.1, stage) refl, rw (found.1, stage) refl)

  staged-IsBranch : (ref : Text) → IsBranch s ref → IsBranch staged.1 ref
  unfolding stage
  staged-IsBranch ref (b, there) =
      let d : BranchData = record found.0 { staging = insert path change found.0.staging } in
      elim (Bool-cases (text_eq branch ref)) [
        | inl same ↦
            (d, rw (found.1, stage) (ground (arith, same, lookup-insert branch ref d s.branches)))
        | inr other ↦ (
          b,
          rw (found.1, stage) (ground (arith, other, there, lookup-insert branch ref d s.branches)),
        )
      ]

  pub staged_commit-IsBranch : (ref : Text) → IsBranch s ref → IsBranch staged_commit.1 ref
  unfolding commit advance next_commit_id
  staged_commit-IsBranch ref known =
      let (b, there) = staged-IsBranch ref known in
      let (b', there') = staged-IsBranch branch found in
      let d : BranchData = record {
        head_commit_id = commit_id_of decimal staged.1.next_commit_seq;
        staging = [];
      } in
      elim (Bool-cases (text_eq branch ref)) [
        | inl same ↦ (
          d,
          rw (there', commit) (ground (arith, same, lookup-insert branch ref d staged.1.branches)),
        )
        | inr other ↦ (
          b,
          rw (there', commit)
              (ground (arith, other, there, lookup-insert branch ref d staged.1.branches)),
        )
      ]

  module _ (fits : s.next_commit_seq + 1 < 2 ^ 64) where
    still_fits : staged.1.next_commit_seq + 1 < 2 ^ 64
    still_fits = omega (arith, staged_ok.1)

    pub staged_commit-WellFormed : WellFormed decimal staged_commit.1
    staged_commit-WellFormed =
        commit-WellFormed decimal laws staged.1 (stage-WellFormed decimal s branch path change w)
          still_fits branch message

    pub staged_commit_ok :
        (staged_commit.0 ≡ ok (commit_id_of decimal staged.1.next_commit_seq))
        × (staged_commit.1.next_commit_seq ≡ s.next_commit_seq + 1)
    unfolding commit advance next_commit_id
    staged_commit_ok =
        let (b', there') = staged-IsBranch branch found in
        (rw (there', commit) refl, rw (there', commit) (omega (arith, staged_ok.1)))

    pub staged_commit-read :
        (ref q : Text)
        → IsBranch s ref
        → get_object ref q staged_commit.1 ≡ (
            if text_eq branch ref && text_eq path q
            then read change.data_of
            else get_object ref q s)
    staged_commit-read ref q known =
        let wf = stage-WellFormed decimal s branch path change w in
        let (b, there) = staged-IsBranch ref known in
        let (b', there') = staged-IsBranch branch found in
        let id = commit_id_of decimal staged.1.next_commit_seq in
        let other : text_eq id ref ≡ false = elim (Bool-cases (text_eq id ref)) [
          | inr e ↦ e
          | inl e ↦ absurd (
              ground (
                arith,
                there,
                (text_eq_iff id ref).0 e,
                (next_is_fresh decimal laws staged.1 wf).1,
              ))
        ] in
        (get_object-commit_made decimal laws staged.1 wf still_fits branch message b' there').1 ref
          q
        ∙ ground (arith, other, stage-read decimal s branch path ref q change found.0 w found.1)
