-- ===== src/Exec/Ensures.antt =====
-- Effectful code that never panics, and what holds of the values that it returns.
use kind_music_streaming.Prelude.{◌≡◌, refl, Bool, true, false, if◌then◌else◌}
use kind_music_streaming.Exec.{
  Error, Outcome, ok, err, Exec, pure, raise, lift, continue, resume, ◌>>=◌, ◌>>=?◌, handle,
}

-- A value in `Q`, or an error in `E`.
pub data Ends {A : Type 0} (E : Error → Type 0) (Q : A → Type 0) : Outcome A → Type 0 where
  value : {a : A} → Q a → Ends E Q (ok a)
  fails : (e : Error) → E e → Ends E Q (err e)

-- A value in `Q`.
abbrev pub Returns : {A : Type 0} → (A → Type 0) → Outcome A → Type 0
Returns Q r = Ends (λ _. ⊥) Q r

-- From every state of the world the code ends without a panic, with a value in `Q` or an error in `E`.
pub record Ensures {S A : Type 0} (E : Error → Type 0) (Q : A → Type 0) (code : Exec S A)
    : Type 0 where
  pub from : (world : S) → Ends E Q (code world).0

-- The code ends without a panic, with no other errors than those in `E`.
abbrev pub Safe : {S A : Type 0} → (Error → Type 0) → Exec S A → Type 0
Safe E m = Ensures E (λ _. Unit {0}) m

pub Ends-bind :
    {A B : Type 0} {E : Error → Type 0} {Q : A → Type 0} {R : B → Type 0} {r : Outcome A}
    {f : A → Outcome B}
    → Ends E Q r
    → ((a : A) → Q a → Ends E R (f a))
    → Ends E R (r >>=? f)
Ends-bind (value q) after = after _ q
Ends-bind (fails e x) after = fails e x

lift-Ends :
    {A : Type 0} {E : Error → Type 0} {Q : A → Type 0} {r : Outcome A} → Returns Q r → Ends E Q r
lift-Ends (value q) = value q
lift-Ends (fails e x) = absurd x

module _ {S A : Type 0} {E : Error → Type 0} {Q : A → Type 0} where
  pub Ensures-pure : (a : A) → Q a → Ensures {S = S} E Q (pure a)
  unfolding pure
  Ensures-pure a q = record { from = λ world. value q }

  pub Ensures-raise : (e : Error) → E e → Ensures {S = S} E Q (raise e)
  unfolding raise
  Ensures-raise e x = record { from = λ world. fails e x }

  pub Ensures-lift : (r : Outcome A) → Returns Q r → Ensures {S = S} E Q (lift r)
  unfolding lift
  Ensures-lift r returned = record { from = λ world. lift-Ends returned }

  pub Ensures-if :
      (test : Bool) (m n : Exec S A)
      → (test ≡ true → Ensures E Q m)
      → (test ≡ false → Ensures E Q n)
      → Ensures E Q (if test then m else n)
  Ensures-if true m n when_true when_false = when_true refl
  Ensures-if false m n when_true when_false = when_false refl

pub Returns-ok :
    {A : Type 0} {Q : A → Type 0} {r : Outcome A} → Returns Q r → (a : A) × (r ≡ ok a) × Q a
Returns-ok (value q) = (_, refl, q)
Returns-ok (fails e x) = absurd x

pub weaken-Ends :
    {A : Type 0} {E : Error → Type 0} {Q R : A → Type 0} {r : Outcome A}
    → ((a : A) → Q a → R a)
    → Ends E Q r
    → Ends E R r
weaken-Ends weaker (value q) = value (weaker _ q)
weaken-Ends weaker (fails e x) = fails e x

pub Ensures-weaken :
    {S A : Type 0} {E : Error → Type 0} {Q R : A → Type 0} (m : Exec S A)
    → ((a : A) → Q a → R a)
    → Ensures E Q m
    → Ensures E R m
Ensures-weaken m weaker ensured = record { from = λ world. weaken-Ends weaker (ensured.from world) }

module _ {S A B : Type 0} {E : Error → Type 0} {Q : A → Type 0} {R : B → Type 0} where
  continue-Ends :
      {r : Outcome A} (next : A → Exec S B) (world : S)
      → Ends E Q r
      → ((a : A) → Q a → Ensures E R (next a))
      → Ends E R (continue r next world).0
  continue-Ends next world (value q) after = (after _ q).from world
  continue-Ends next world (fails e x) after = fails e x

  pub Ensures-bind :
      (m : Exec S A) (next : A → Exec S B)
      → Ensures E Q m
      → ((a : A) → Q a → Ensures E R (next a))
      → Ensures E R (m >>= next)
  unfolding ◌>>=◌
  Ensures-bind m next ensured after = record {
    from =
        λ world. let (r, world') = m world in continue-Ends next world' (ensured.from world) after;
  }

module _ {S A B : Type 0} {D E : Error → Type 0} {Q : A → Type 0} {R : B → Type 0} where
  resume-Ends :
      {r : Outcome A} (bad : Error → Exec S B) (good : A → Exec S B) (world : S)
      → Ends D Q r
      → ((e : Error) → D e → Ensures E R (bad e))
      → ((a : A) → Q a → Ensures E R (good a))
      → Ends E R (resume r bad good world).0
  resume-Ends bad good world (value q) after_error after = (after _ q).from world
  resume-Ends bad good world (fails e x) after_error after = (after_error e x).from world

  -- The errors that are handled may be others than those that are left.
  pub Ensures-handle :
      (m : Exec S A) (bad : Error → Exec S B) (good : A → Exec S B)
      → Ensures D Q m
      → ((e : Error) → D e → Ensures E R (bad e))
      → ((a : A) → Q a → Ensures E R (good a))
      → Ensures E R (handle m bad good)
  unfolding handle
  Ensures-handle m bad good ensured after_error after = record {
    from = λ world.
        let (r, world') = m world in
        resume-Ends bad good world' (ensured.from world) after_error after;
  }
