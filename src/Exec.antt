-- ===== src/Exec.antt =====
-- Go code that calls the API server: it changes the state of the world, and returns, fails with an
-- `error`, or panics. What was done before a failure stays done.
pub mod Ensures
pub mod Yields
pub mod Inversion
pub mod Keeps
use kind_music_streaming.Prelude.{String, Bool, Option, none, some}

-- `errors.IsNotFound(err)` and `err.Error()`
pub record Error : Type 0 where
  pub is_not_found : Bool
  pub message : String

pub data Outcome {ℓ} (A : Type ℓ) : Type ℓ where
  ok : A → Outcome A
  err : Error → Outcome A
  panic : Outcome A

-- `*p`
unfoldable pub deref {ℓ} : {A : Type ℓ} → Option A → Outcome A
deref none = panic
deref (some a) = ok a

abbrev pub Exec {ℓ} : Type ℓ → Type ℓ → Type ℓ
Exec S A = S → Outcome A × S

module _ {ℓ} {S A : Type ℓ} where
  -- A pure function that may panic.
  unfoldable pub lift : Outcome A → Exec S A
  lift result world = (result, world)

  unfoldable pub pure : A → Exec S A
  pure value world = (ok value, world)

  unfoldable pub raise : Error → Exec S A
  raise error world = (err error, world)

module _ {ℓ} {S A B : Type ℓ} where
  abbrev pub continue : Outcome A → (A → Exec S B) → Exec S B
  continue (ok value) next world = next value world
  continue (err error) next world = (err error, world)
  continue panic next world = (panic, world)

  infixl 10 ◌>>=◌ ◌>>◌
  unfoldable pub ◌>>=◌ : Exec S A → (A → Exec S B) → Exec S B
  unfolding pure raise lift
  ◌>>=◌ code next world = let (result, world') = code world in continue result next world'

  abbrev pub ◌>>◌ : Exec S A → Exec S B → Exec S B
  code >> next = code >>= λ _. next

module _ {ℓ} {S A B : Type ℓ} where
  abbrev pub resume : Outcome A → (Error → Exec S B) → (A → Exec S B) → Exec S B
  resume (ok a) bad good s = good a s
  resume (err e) bad good s = bad e s
  resume panic bad good s = (panic, s)

  -- `a, err := m; if err != nil { bad(err) } else { good(a) }`
  unfoldable pub handle : Exec S A → (Error → Exec S B) → (A → Exec S B) → Exec S B
  unfolding pure raise lift ◌>>=◌
  handle m bad good s = let (r, s') = m s in resume r bad good s'

infixl 10 ◌>>=?◌
-- A chain of pure functions that may panic.
abbrev pub ◌>>=?◌ {ℓ κ} : {A : Type ℓ} {B : Type κ} → Outcome A → (A → Outcome B) → Outcome B
ok a >>=? f = f a
err e >>=? f = err e
panic >>=? f = panic
