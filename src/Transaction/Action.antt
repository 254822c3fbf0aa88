-- ===== src/Transaction/Action.antt =====
-- A method of the transaction layer: it changes the storage and the caches of the manager, and returns
-- a `StatusOr`. What was written before a failure stays written.
use artifact_system.Base.{ℕ, Bool, Option, if◌then◌else◌, Text, Dict}
use artifact_system.Storage.Status.{StatusCode, StatusOr, ok, failed}

-- `TransactionManager::TransactionRecord`. The set of children is a dictionary of units.
pub record TransactionRecord : Type 0 where
  pub parent_transaction_id : Option Text
  pub parent_snapshot_id : Option Text
  pub depth : ℕ
  pub child_transaction_ids : Dict Text (Unit {0})

-- The storage, `snapshot_source_cache_` and `transactions_`.
pub record World (S : Type 0) : Type 0 where
  pub storage : S
  pub snapshot_source_cache : Dict Text (Option Text)
  pub transactions : Dict Text TransactionRecord

abbrev pub Action : Type 0 → Type 0 → Type 0
Action S A = World S → StatusOr A × World S

-- `RewriteNotFound`: another status in place of one that says not found.
abbrev pub rewrite : {A : Type 0} → StatusCode → StatusOr A → StatusOr A
rewrite e (ok a) = ok a
rewrite e (failed StatusCode.not_found) = failed e
rewrite e (failed other) = failed other

module _ {S : Type 0} where
  abbrev pub return : {A : Type 0} → A → Action S A
  return a w = (ok a, w)

  abbrev pub raise : {A : Type 0} → StatusCode → Action S A
  raise e w = (failed e, w)

  abbrev pub and_then :
      {A B : Type 0} → StatusOr A × World S → (A → Action S B) → StatusOr B × World S
  and_then (ok a, w) f = f a w
  and_then (failed e, w) f = (failed e, w)

  infixl 5 ◌>>=◌ ◌>>◌
  abbrev pub ◌>>=◌ : {A B : Type 0} → Action S A → (A → Action S B) → Action S B
  ◌>>=◌ m f w = and_then (m w) f

  abbrev pub ◌>>◌ : {B : Type 0} → Action S (Unit {0}) → Action S B → Action S B
  ◌>>◌ m k w = and_then (m w) (λ _. k)

  -- The result as a value: no failure goes on.
  abbrev pub attempt : {A : Type 0} → Action S A → Action S (StatusOr A)
  attempt m w = (ok (m w).0, (m w).1)

  -- The result is ignored.
  abbrev pub ignore : {A : Type 0} → Action S A → Action S (Unit {0})
  ignore m w = (ok tt, (m w).1)

  abbrev pub raise_if : Bool → StatusCode → Action S (Unit {0})
  raise_if c e w = (if c then failed e else ok tt, w)

  -- A read of the storage, and a call that changes it.
  abbrev pub asks : {A : Type 0} → (S → StatusOr A) → Action S A
  asks f w = (f w.storage, w)

  abbrev pub calls : {A : Type 0} → (S → StatusOr A × S) → Action S A
  calls f w = ((f w.storage).0, record w { storage = (f w.storage).1 })
