-- ===== src/Id/Allocator/Monad.antt =====
-- The state of a `SuperBlockAllocator`, with its store, and the monad of its methods: they change
-- the state and return a `std::expected`. `Ensures` is what holds after a method.
use artifact_system.Base.{ℕ, Bool, List}
use artifact_system.Id.Expected.{Expected, value, unexpected, StoreError}
use artifact_system.Id.SuperBlock.{SuperBlock}

pub data Stop : Type 0 where
  failed : StoreError → Stop
  undrawn : Stop

-- `std::future<std::expected<SuperBlock, StoreError>>`
pub data Pending : Type 0 where
  invalid : Pending
  running : ℕ → Pending
  ready : Expected StoreError SuperBlock → Pending

pub record State (S : Type 0) : Type 0 where
  pub active : SuperBlock
  pub background : SuperBlock
  pub pending_fetch : Pending
  pub fetch_in_progress : Bool
  pub rng : List ℕ
  pub store : S

abbrev pub M : Type 0 → Type 0 → Type 0
M S A = State S → Expected Stop A × State S

module _ {S : Type 0} where
  abbrev pub return : {A : Type 0} → A → M S A
  return a st = (value a, st)

  abbrev pub throw : {A : Type 0} → Stop → M S A
  throw e st = (unexpected e, st)

  abbrev pub and_then :
      {A B : Type 0} → Expected Stop A × State S → (A → M S B) → Expected Stop B × State S
  and_then (value a, st) f = f a st
  and_then (unexpected e, st) f = (unexpected e, st)

  infixl 5 ◌>>=◌ ◌>>◌
  abbrev pub ◌>>=◌ : {A B : Type 0} → M S A → (A → M S B) → M S B
  ◌>>=◌ m f st = and_then (m st) f

  abbrev pub ◌>>◌ : {B : Type 0} → M S (Unit {0}) → M S B → M S B
  ◌>>◌ m k st = and_then (m st) (λ _. k)

  -- `P` holds of the value and the state after a success, `E` of the state after an error.
  abbrev pub Ensures :
      {A : Type 0}
      → (A → State S → Type 0)
      → (State S → Type 0)
      → Expected Stop A × State S
      → Type 0
  Ensures P E (value a, st) = P a st
  Ensures P E (unexpected e, st) = E st

  pub Ensures-bind :
      {A B : Type 0} (Q : A → State S → Type 0) (P : B → State S → Type 0) (E : State S → Type 0)
      (r : Expected Stop A × State S) (f : A → M S B)
      → Ensures Q E r
      → ((a : A) (st : State S) → Q a st → Ensures P E (f a st))
      → Ensures P E (and_then r f)
  Ensures-bind Q P E (value a, st) f h k = k a st h
  Ensures-bind Q P E (unexpected e, st) f h k = h

  pub Ensures-weaken :
      {A : Type 0} (P P' : A → State S → Type 0) (E E' : State S → Type 0)
      (r : Expected Stop A × State S)
      → ((a : A) (st : State S) → P a st → P' a st)
      → ((st : State S) → E st → E' st)
      → Ensures P E r
      → Ensures P' E' r
  Ensures-weaken P P' E E' (value a, st) f g h = f a st h
  Ensures-weaken P P' E E' (unexpected e, st) f g h = g st h

abbrev pub lift {ℓ} : {A : Type ℓ} → Expected StoreError A → Expected Stop A
lift (value a) = value a
lift (unexpected e) = unexpected (failed e)
