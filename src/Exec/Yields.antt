-- ===== src/Exec/Yields.antt =====
-- What holds of the world once effectful code has returned.
use kind_music_streaming.Prelude.{◌≡◌, refl, Bool, true, false, inl, inr, if◌then◌else◌}
use kind_music_streaming.Exec.{Error, Outcome, ok, Exec, raise, lift, ◌>>=◌, handle}
use kind_music_streaming.Exec.Keeps.{Keeps}
use kind_music_streaming.Exec.Inversion.{raise_not_ok, lift_ok, bind_ok, handle_ok}

-- From every state, each run that returns ends in a state in `P`.
pub record Yields {S A : Type 0} (P : S → Type 0) (code : Exec S A) : Type 0 where
  pub at : (world world' : S) (value : A) → code world ≡ (ok value, world') → P world'

module _ {S A : Type 0} {P : S → Type 0} where
  pub Yields-raise : (e : Error) → Yields {A = A} P (raise e)
  Yields-raise e = record { at = λ w w' a run. absurd (raise_not_ok e a w w' run) }

  pub Yields-if :
      (test : Bool) (m n : Exec S A)
      → (test ≡ true → Yields P m)
      → (test ≡ false → Yields P n)
      → Yields P (if test then m else n)
  Yields-if true m n when_true when_false = when_true refl
  Yields-if false m n when_true when_false = when_false refl

module _ {S A B : Type 0} {P : S → Type 0} where
  -- The first part yields it, and the rest keeps it.
  pub Yields-keep :
      (m : Exec S A) (next : A → Exec S B)
      → Yields P m
      → ((a : A) → Keeps P (next a))
      → Yields P (m >>= next)
  Yields-keep m next yields keeps = record {
    at = λ w w' b run.
        let (a, w₁, ran, rest) = bind_ok m next b w w' run in
        rw rest at ((keeps a).at w₁ (yields.at w w₁ a ran));
  }

  -- The rest yields it.
  pub Yields-after :
      (m : Exec S A) (next : A → Exec S B) → ((a : A) → Yields P (next a)) → Yields P (m >>= next)
  Yields-after m next yields = record {
    at = λ w w' b run.
        let (a, w₁, ran, rest) = bind_ok m next b w w' run in (yields a).at w₁ w' b rest;
  }

  -- The rest yields it of each value that the pure part may have.
  pub Yields-lift :
      (r : Outcome A) (next : A → Exec S B)
      → ((a : A) → r ≡ ok a → Yields P (next a))
      → Yields P (lift r >>= next)
  Yields-lift r next yields = record {
    at = λ w w' b run.
        let (a, w₁, ran, rest) = bind_ok (lift r) next b w w' run in
        let (same, _) = lift_ok r a w w₁ ran in (yields a same).at w₁ w' b rest;
  }

  -- Both branches yield it, the one for a value from the states that the first part yields.
  pub Yields-handle :
      (m : Exec S A) (bad : Error → Exec S B) (good : A → Exec S B)
      → Yields P m
      → ((e : Error) → Yields P (bad e))
      → ((a : A) → Keeps P (good a))
      → Yields P (handle m bad good)
  Yields-handle m bad good yields after_error keeps = record {
    at = λ w w' b run. elim (handle_ok m bad good b w w' run) [
      | inl (e, w₁, ran, rest) ↦ (after_error e).at w₁ w' b rest
      | inr (a, w₁, ran, rest) ↦ rw rest at ((keeps a).at w₁ (yields.at w w₁ a ran))
    ];
  }
