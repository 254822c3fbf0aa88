-- ===== src/Transaction/Meta/Written.antt =====
-- The metadata of a transaction, printed and parsed, and written to a branch of the storage in memory
-- and loaded from it.
use artifact_system.Base.{
  ℕ, ◌+◌, ◌^◌, ◌<◌, ◌==◌, ◌≡◌, refl, ap, ◌∙◌, inl, inr, Bool, true, false, Option, none, some, [],
  ◌∷◌, ◌++◌, if◌then◌else◌, Text, codes, text_eq, text_eq_iff, text_key, lookup, insert,
  lookup-insert, arith, Bool-cases,
}
use artifact_system.Storage.Status.{StatusOr, ok}
use artifact_system.Storage.State.{
  MemoryStorage, BranchData, StagedChange, all_digits, is_digit, is_empty,
}
use artifact_system.Storage.Memory.{
  commit_id_of, stage, put_object, get_object, get_branch_head, commit, advance, next_commit_id,
}
use artifact_system.Storage.Memory.Writes.{stage-WellFormed, get_object-put_object}
use artifact_system.Storage.Memory.Commits.{commit-WellFormed, get_object-commit_made}
use artifact_system.Storage.Invariant.{DecimalLaws, WellFormed, next_is_fresh}
use artifact_system.Storage.Interface.{memory_storage}
use artifact_system.Transaction.Action.{TransactionRecord, World}
use artifact_system.Transaction.Meta.{
  Formats, txn_meta_path, value_or_empty, non_empty, print_record, parse_lines, write_txn_meta,
  load_txn_meta, load_transaction_record_from_storage,
}

-- The text has no such character.
abbrev pub lacks : ℕ → Text → Bool
lacks c [] = true
lacks c (d ∷ t) = if d == c then false else lacks c t

-- What the manager relies on: a text without the separator is one part, a part ends at the first
-- separator, and a numeral of a `uint32_t` is read back.
pub record FormatLaws (formats : Formats) : Type 0 where
  pub decimal_laws : DecimalLaws formats.decimal
  pub split_last : (c : ℕ) (t : Text) → lacks c t ≡ true → formats.split_at c t ≡ t ∷ []
  pub split_first :
      (c : ℕ) (t rest : Text)
      → lacks c t ≡ true
      → formats.split_at c (t ++ (c ∷ rest)) ≡ t ∷ formats.split_at c rest
  pub parse_decimal : (n : ℕ) → n < 2 ^ 32 → formats.parse_uint32 (formats.decimal n) ≡ some n

-- An id that can stand on a line: it is not empty and has no line break.
abbrev pub IsLine : Option Text → Type 0
IsLine none = Unit {0}
IsLine (some t) = (lacks 10 t ≡ true) × (is_empty t ≡ false)

abbrev pub childless : TransactionRecord → TransactionRecord
childless r = record r { child_transaction_ids = [] }

lacks_of_digits : (t : Text) → all_digits t ≡ true → lacks 10 t ≡ true
unfolding all_digits is_digit
lacks_of_digits [] h = refl
lacks_of_digits (c ∷ t) h = ground (arith, h, lacks_of_digits t)

lacks-value_or_empty : (o : Option Text) → IsLine o → lacks 10 (value_or_empty o) ≡ true
unfolding value_or_empty
lacks-value_or_empty none h = refl
lacks-value_or_empty (some t) h = h.0

non_empty-value_or_empty : (o : Option Text) → IsLine o → non_empty (value_or_empty o) ≡ o
unfolding value_or_empty non_empty is_empty
non_empty-value_or_empty none h = refl
non_empty-value_or_empty (some []) h = absurd (ground (arith, h.1))
non_empty-value_or_empty (some (c ∷ t)) h = refl

-- A branch is there behind a commit on it.
committed_branch :
    (decimal : ℕ → Text) (s : MemoryStorage) (branch message : Text) (b : BranchData)
    → lookup branch s.branches ≡ some b
    → (d : BranchData) × (lookup branch (commit decimal branch message s).1.branches ≡ some d)
unfolding commit advance next_commit_id
committed_branch decimal s branch message b found =
    let d : BranchData = record {
      head_commit_id = commit_id_of decimal s.next_commit_seq;
      staging = [];
    } in
    (
      d,
      rw (found, commit)
          (ground (arith, text_eq_iff branch branch, lookup-insert branch branch d s.branches)),
    )

module _ (formats : Formats) (laws : FormatLaws formats) (r : TransactionRecord)
    (lines : IsLine r.parent_transaction_id) (lines' : IsLine r.parent_snapshot_id)
    (small : r.depth < 2 ^ 32) where
  parse_lines-print_record :
      parse_lines formats (formats.split_at 10 (print_record formats r)) ≡ ok (childless r)
  unfolding print_record parse_lines
  parse_lines-print_record =
      let a = value_or_empty r.parent_transaction_id in
      let b = value_or_empty r.parent_snapshot_id in
      let c = formats.decimal r.depth in
      let parts : formats.split_at 10 (a ++ (10 ∷ (b ++ (10 ∷ c)))) ≡ a ∷ b ∷ c ∷ [] =
        laws.split_first 10 a (b ++ (10 ∷ c)) (lacks-value_or_empty r.parent_transaction_id lines)
        ∙ ap (◌∷◌ a) (
            laws.split_first 10 b c (lacks-value_or_empty r.parent_snapshot_id lines')
            ∙ ap (◌∷◌ b)
                (laws.split_last 10 c (lacks_of_digits c (laws.decimal_laws.digits r.depth)))) in
      ap (parse_lines formats) parts
      ∙ rw
          (
            laws.parse_decimal r.depth small,
            non_empty-value_or_empty r.parent_transaction_id lines,
            non_empty-value_or_empty r.parent_snapshot_id lines',
            parse_lines,
          )
          refl

  module _ (branch : Text) (w : World MemoryStorage) (b : BranchData)
      (wf : WellFormed formats.decimal w.storage)
      (found : lookup branch w.storage.branches ≡ some b)
      (fits : w.storage.next_commit_seq + 1 < 2 ^ 64) where
    abbrev put_result : StatusOr (Unit {0}) × MemoryStorage
    put_result = put_object branch (txn_meta_path branch) (print_record formats r) w.storage

    put_lem :
        (put_result.0 ≡ ok tt)
        × (put_result.1.next_commit_seq ≡ w.storage.next_commit_seq)
        × ((d : BranchData) × (lookup branch put_result.1.branches ≡ some d))
        × WellFormed formats.decimal put_result.1
    unfolding put_object stage
    put_lem =
        let change : StagedChange = record { data_of = some (print_record formats r) } in
        let d : BranchData = record b {
          staging = insert (txn_meta_path branch) change b.staging;
        } in
        (
          rw (found, put_object, stage) refl,
          rw (found, put_object, stage) refl,
          (
            d,
            rw (found, put_object, stage)
                (ground (
                  arith,
                  text_eq_iff branch branch,
                  lookup-insert branch branch d w.storage.branches,
                )),
          ),
          stage-WellFormed formats.decimal w.storage branch (txn_meta_path branch) change wf,
        )

    abbrev commit_result : StatusOr Text × MemoryStorage
    commit_result = commit formats.decimal branch (codes "txn metadata") put_result.1

    -- The record can be loaded from the branch behind the commit.
    commit_lem :
        (commit_result.0 ≡ ok (commit_id_of formats.decimal put_result.1.next_commit_seq))
        × WellFormed formats.decimal commit_result.1
        × ((d : BranchData) × (lookup branch commit_result.1.branches ≡ some d))
        × (get_object branch (txn_meta_path branch) commit_result.1 ≡ ok (print_record formats r))
    commit_lem =
        let (put_ok, same_seq, (d, there), wf') = put_lem in
        let fits' : put_result.1.next_commit_seq + 1 < 2 ^ 64 = omega (arith, same_seq) in
        let (commit_ok, reads) =
          get_object-commit_made formats.decimal laws.decimal_laws put_result.1 wf' fits' branch
            (codes "txn metadata") d there in
        let id = commit_id_of formats.decimal put_result.1.next_commit_seq in
        let other : text_eq id branch ≡ false = elim (Bool-cases (text_eq id branch)) [
          | inr e ↦ e
          | inl e ↦ absurd (
              ground (
                arith,
                there,
                (text_eq_iff id branch).0 e,
                (next_is_fresh formats.decimal laws.decimal_laws put_result.1 wf').1,
              ))
        ] in
        let put_read =
          get_object-put_object formats.decimal w.storage branch (txn_meta_path branch)
            (print_record formats r) branch (txn_meta_path branch) b wf found in
        (
          commit_ok,
          commit-WellFormed formats.decimal laws.decimal_laws put_result.1 wf' fits' branch
              (codes "txn metadata"),
          committed_branch formats.decimal put_result.1 branch (codes "txn metadata") d there,
          reads branch (txn_meta_path branch)
              ∙ ground (
                arith,
                other,
                put_read,
                text_eq_iff branch branch,
                text_eq_iff (txn_meta_path branch) (txn_meta_path branch),
              ),
        )

    -- The write succeeds, and any instance loads the record from the branch.
    pub write_txn_meta-load :
        let done = write_txn_meta formats (memory_storage formats.decimal) branch r w in
        (done.0 ≡ ok tt)
        × WellFormed formats.decimal done.1.storage
        × (done.1.transactions ≡ w.transactions)
        × (load_transaction_record_from_storage formats
              (memory_storage formats.decimal)
              branch
              done.1.storage
            ≡ ok (childless r))
    unfolding write_txn_meta load_txn_meta load_transaction_record_from_storage get_branch_head
    write_txn_meta-load =
        let put_ok = put_lem.0 in
        let (commit_ok, wf', (d, there), text) = commit_lem in
        rw (put_ok, commit_ok, write_txn_meta)
          (
            refl,
            wf',
            refl,
            rw
                (
                  there, text, parse_lines-print_record, load_transaction_record_from_storage,
                  load_txn_meta, get_branch_head,
                )
                refl,
          )
