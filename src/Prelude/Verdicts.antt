-- ===== src/Prelude/Verdicts.antt =====
-- When a text, one of a few constants, is a given one.
use Prim.Native.String.{String}
use mathlib.Core.Path.{◌≡◌}
use mathlib.Core.Bool.{false}
use mathlib.Core.Logic.{◌↔◌}
use native.Mathlib.Omega.{arith}
use text.Mathlib.Text.{◌==◌ as ◌===◌}
use text.Mathlib.TextEquality.{eq_iff}

pub both {ℓ ℓ'} : {P : Type ℓ} {Q : Type ℓ'} → P → Q → P ↔ Q
both p q = (λ _. q, λ _. p)

pub neither {ℓ} : {Q : Type ℓ} (s t : String) → (s === t) ≡ false → (Q → ⊥) → (s ≡ t) ↔ Q
neither s t e never = (λ same. absurd (ground (arith, eq_iff s t)), λ q. absurd (never q))

pub differ : (s t u v : String) → (s === t) ≡ false → (u === v) ≡ false → (s ≡ t) ↔ (u ≡ v)
differ s t u v e d = neither s t e (λ same. ground (arith, eq_iff u v))
