-- ===== src/Transaction/Scenario.antt =====
-- Concrete formats and worlds for the examples of the transaction manager.
use artifact_system.Base.{
  ℕ, ◌^◌, ◌<◌, ◌==◌, ◌≡◌, refl, ap, true, none, some, List, [], ◌∷◌, ◌++◌, pred, if◌then◌else◌,
  length, Text, codes, arith,
}
use artifact_system.Storage.Numerals.{tally, length-tally, tally-DecimalLaws}
use artifact_system.Storage.State.{MemoryStorage, canonical_branch}
use artifact_system.Storage.Memory.{initial_storage, put_object, commit}
use artifact_system.Storage.Invariant.{WellFormed}
use artifact_system.Storage.Interface.{StorageInterface, memory_storage}
use artifact_system.Storage.History.Immutable.{initial_storage-WellFormed}
use artifact_system.Transaction.Action.{World}
use artifact_system.Transaction.Meta.{Formats}
use artifact_system.Transaction.Meta.Written.{FormatLaws, lacks}
use artifact_system.Transaction.Manager.{create_transaction}

abbrev pub to_first : ℕ → List Text → List Text
to_first c [] = (c ∷ []) ∷ []
to_first c (part ∷ parts) = (c ∷ part) ∷ parts

abbrev pub split : ℕ → Text → List Text
split c [] = [] ∷ []
split c (d ∷ t) = let rest = split c t in if d == c then [] ∷ rest else to_first d rest

abbrev pub formats : Formats
formats = record { decimal = tally; split_at = split; parse_uint32 = λ t. some (pred (length t)) }

split_last_lem : (c : ℕ) (t : Text) → lacks c t ≡ true → split c t ≡ t ∷ []
split_last_lem c [] h = refl
split_last_lem c (d ∷ t) h = ground (arith, split_last_lem c t)

split_first_lem :
    (c : ℕ) (t rest : Text) → lacks c t ≡ true → split c (t ++ (c ∷ rest)) ≡ t ∷ split c rest
split_first_lem c [] rest h = ground arith
split_first_lem c (d ∷ t) rest h = ground (arith, split_first_lem c t rest)

parse_lem : (n : ℕ) → n < 2 ^ 32 → some (pred (length (tally n))) ≡ some n
parse_lem n h = ap some (omega (arith, length-tally n))

pub formats-FormatLaws : FormatLaws formats
formats-FormatLaws = record {
  decimal_laws = tally-DecimalLaws;
  split_last = split_last_lem;
  split_first = split_first_lem;
  parse_decimal = parse_lem;
}

abbrev pub mem : StorageInterface MemoryStorage
mem = memory_storage tally

-- A manager over a fresh storage.
abbrev pub fresh : World MemoryStorage
fresh = record { storage = initial_storage tally; snapshot_source_cache = []; transactions = [] }

pub fresh-WellFormed : WellFormed tally fresh.storage
fresh-WellFormed = initial_storage-WellFormed tally tally-DecimalLaws

abbrev pub txn : Text
txn = codes "txn-1"

-- A transaction is begun.
abbrev pub begun : World MemoryStorage
begun = (create_transaction formats mem (codes "1") none none fresh).1

abbrev pub payload : Text
payload = codes "payload/1"

-- The transaction and the canonical branch write the same path.
abbrev pub contended : World MemoryStorage
contended = record begun {
  storage =
      (commit tally canonical_branch (codes "m")
        (put_object canonical_branch payload (codes "b")
          (put_object txn payload (codes "a") begun.storage).1).1).1;
}
