-- ===== src/Exec/Inversion.antt =====
-- What a run that succeeded went through.
use kind_music_streaming.Prelude.{◌≡◌, refl, ◌⊎◌, inl, inr, arith}
use kind_music_streaming.Exec.{
  Error, Outcome, ok, err, panic, Exec, pure, raise, lift, continue, resume, ◌>>=◌, handle,
}

module _ {S A : Type 0} where
  pub pure_ok : (a b : A) (w w' : S) → pure a w ≡ (ok b, w') → (a ≡ b) × (w ≡ w')
  unfolding pure
  pure_ok a b w w' e = ground arith

  pub raise_not_ok : (e : Error) (b : A) (w w' : S) → raise e w ≡ (ok b, w') → ⊥
  unfolding raise
  raise_not_ok e b w w' h = ground arith

  pub lift_ok : (r : Outcome A) (b : A) (w w' : S) → lift r w ≡ (ok b, w') → (r ≡ ok b) × (w ≡ w')
  unfolding lift
  lift_ok r b w w' e = ground arith

module _ {S A B : Type 0} where
  continue_ok :
      (o : Outcome A × S) (f : A → Exec S B) (b : B) (w' : S)
      → continue o.0 f o.1 ≡ (ok b, w')
      → (a : A) × (w : S) × (o ≡ (ok a, w)) × (f a w ≡ (ok b, w'))
  continue_ok (ok a, w) f b w' e = (a, w, refl, e)
  continue_ok (err x, w) f b w' e = absurd (ground arith)
  continue_ok (panic, w) f b w' e = absurd (ground arith)

  pub bind_ok :
      (m : Exec S A) (f : A → Exec S B) (b : B) (w w' : S)
      → (m >>= f) w ≡ (ok b, w')
      → (a : A) × (w₁ : S) × (m w ≡ (ok a, w₁)) × (f a w₁ ≡ (ok b, w'))
  unfolding ◌>>=◌
  bind_ok m f b w w' e = continue_ok (m w) f b w' e

  resume_ok :
      (o : Outcome A × S) (bad : Error → Exec S B) (good : A → Exec S B) (b : B) (w' : S)
      → resume o.0 bad good o.1 ≡ (ok b, w')
      → ((e : Error) × (w : S) × (o ≡ (err e, w)) × (bad e w ≡ (ok b, w')))
        ⊎ ((a : A) × (w : S) × (o ≡ (ok a, w)) × (good a w ≡ (ok b, w')))
  resume_ok (ok a, w) bad good b w' e = inr (a, w, refl, e)
  resume_ok (err x, w) bad good b w' e = inl (x, w, refl, e)
  resume_ok (panic, w) bad good b w' e = absurd (ground arith)

  pub handle_ok :
      (m : Exec S A) (bad : Error → Exec S B) (good : A → Exec S B) (b : B) (w w' : S)
      → handle m bad good w ≡ (ok b, w')
      → ((e : Error) × (w₁ : S) × (m w ≡ (err e, w₁)) × (bad e w₁ ≡ (ok b, w')))
        ⊎ ((a : A) × (w₁ : S) × (m w ≡ (ok a, w₁)) × (good a w₁ ≡ (ok b, w')))
  unfolding handle
  handle_ok m bad good b w w' e = resume_ok (m w) bad good b w' e
