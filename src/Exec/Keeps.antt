-- ===== src/Exec/Keeps.antt =====
-- Invariants of effectful code, one rule for each way to build it.
use kind_music_streaming.Prelude.{◌≡◌, refl, Bool, true, false, if◌then◌else◌}
use kind_music_streaming.Exec.{
  Error, Outcome, ok, err, panic, Exec, pure, raise, lift, continue, resume, ◌>>=◌, handle,
}

-- From a state in `P` the code ends in one, whether it returns, fails or panics.
pub record Keeps {ℓ} {S A : Type ℓ} (P : S → Type ℓ) (code : Exec S A) : Type ℓ where
  pub at : (world : S) → P world → P (code world).1

module _ {ℓ} {S A : Type ℓ} {P : S → Type ℓ} where
  pub Keeps-lift : (result : Outcome A) → Keeps P (lift result)
  unfolding lift
  Keeps-lift result = record { at = λ world kept. kept }

  pub Keeps-pure : (value : A) → Keeps P (pure value)
  unfolding pure
  Keeps-pure value = record { at = λ world kept. kept }

  pub Keeps-raise : (error : Error) → Keeps P (raise {A = A} error)
  unfolding raise
  Keeps-raise error = record { at = λ world kept. kept }

  pub Keeps-if :
      (test : Bool) (yes_branch no_branch : Exec S A)
      → (test ≡ true → Keeps P yes_branch)
      → (test ≡ false → Keeps P no_branch)
      → Keeps P (if test then yes_branch else no_branch)
  Keeps-if true yes_branch no_branch given_true given_false = given_true refl
  Keeps-if false yes_branch no_branch given_true given_false = given_false refl

module _ {ℓ} {S A B : Type ℓ} {P : S → Type ℓ} where
  continue-Keeps :
      (r : Outcome A) (f : A → Exec S B) (s : S)
      → ((a : A) → r ≡ ok a → Keeps P (f a))
      → P s
      → P (continue r f s).1
  continue-Keeps (ok a) f s k h = (k a refl).at s h
  continue-Keeps (err e) f s k h = h
  continue-Keeps panic f s k h = h

  resume-Keeps :
      (r : Outcome A) (bad : Error → Exec S B) (good : A → Exec S B) (s : S)
      → ((e : Error) → Keeps P (bad e))
      → ((a : A) → Keeps P (good a))
      → P s
      → P (resume r bad good s).1
  resume-Keeps (ok a) bad good s kb kg h = (kg a).at s h
  resume-Keeps (err e) bad good s kb kg h = (kb e).at s h
  resume-Keeps panic bad good s kb kg h = h

  pub Keeps-bind :
      (first : Exec S A) (next : A → Exec S B)
      → Keeps P first
      → ((value : A) → Keeps P (next value))
      → Keeps P (first >>= next)
  unfolding ◌>>=◌
  Keeps-bind first next first_keeps next_keeps = record {
    at = λ world kept.
        let (result, world') = first world in
        continue-Keeps result next world' (λ value _. next_keeps value) (first_keeps.at world kept);
  }

  -- What follows may use that the pure part did not fail.
  pub Keeps-bind-lift :
      (result : Outcome A) (next : A → Exec S B)
      → ((value : A) → result ≡ ok value → Keeps P (next value))
      → Keeps P (lift result >>= next)
  unfolding ◌>>=◌
  Keeps-bind-lift result next next_keeps = record {
    at = λ world kept. continue-Keeps result next world next_keeps kept;
  }

  pub Keeps-handle :
      (m : Exec S A) (bad : Error → Exec S B) (good : A → Exec S B)
      → Keeps P m
      → ((e : Error) → Keeps P (bad e))
      → ((a : A) → Keeps P (good a))
      → Keeps P (handle m bad good)
  unfolding handle
  Keeps-handle m bad good km kb kg = record {
    at = λ s h. let (r, s') = m s in resume-Keeps r bad good s' kb kg (km.at s h);
  }

pub ruleset keeps_rules = (Keeps-pure, Keeps-raise, Keeps-lift, Keeps-if, Keeps-bind, Keeps-handle)
