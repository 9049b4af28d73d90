-- ===== src/Prelude/Text.antt =====
-- Texts: equality, maps with text keys, decimal numbers, and equality of whole structures.
use Prim.Native.Nat.{ℕ, zero, suc, ◌/◌, ◌%◌}
use Prim.Native.Char.{code}
use Prim.Native.String.{String, ◌++◌ as ◌<>◌}
use mathlib.Core.Path.{◌≡◌, refl}
use mathlib.Core.Logic.{◌↔◌, ite, dite}
use mathlib.Core.Bool.{Bool, true, false, Bool-discrete}
use mathlib.Core.Option.{Option, none, some}
use mathlib.Core.List.{List, [], ◌∷◌}
use native.Mathlib.Omega.{arith}
use text.Mathlib.Text.{◌==◌}
use text.Mathlib.TextEquality.{eq_iff}
use kind_music_streaming.Prelude.Tests.{ltb, if◌then◌else◌}

unfoldable pub string_discrete : Discrete String
string_discrete s t =
    dite (Bool-discrete (s == t) true) (λ same. yes ((eq_iff s t).0 same))
      (λ differ. no (λ p. differ ((eq_iff s t).1 p)))

-- `reflect.DeepEqual` at a type whose values are plain data.
unfoldable pub deep_equal {ℓ} : {A : Type ℓ} → Discrete A → A → A → Bool
deep_equal d a b = ite (d a b) true false

pub deep_equal-eq {ℓ} :
    {A : Type ℓ} (d : Discrete A) (a b : A) → (deep_equal d a b ≡ true) ↔ (a ≡ b)
unfolding deep_equal
deep_equal-eq d a b = ground arith

pub deep_equal_refl {ℓ} : {A : Type ℓ} (d : Discrete A) (a : A) → deep_equal d a a ≡ true
deep_equal_refl d a = (deep_equal-eq d a a).1 refl

-- A Go map with text keys, as its entries. Iteration order plays no part in the program.
abbrev pub Map {ℓ} : Type ℓ → Type ℓ
Map V = List (String × V)

module _ {ℓ} {V : Type ℓ} where
  -- `m[key] = value`
  unfoldable pub insert : String → V → Map V → Map V
  insert key value [] = (key, value) ∷ []
  insert key value ((name, old) ∷ entries) =
      if name == key then (key, value) ∷ entries else (name, old) ∷ insert key value entries

  -- `m[key]`, with `none` for a missing key
  unfoldable pub lookup : String → Map V → Option V
  lookup key [] = none
  lookup key ((name, value) ∷ entries) = if name == key then some value else lookup key entries

  pub lookup-insert :
      (key asked : String) (value : V) (entries : Map V)
      → lookup asked (insert key value entries)
        ≡ (if key == asked then some value else lookup asked entries)
  unfolding lookup insert
  lookup-insert key asked value [] = refl
  lookup-insert key asked value ((name, old) ∷ entries) = ground (
    arith,
    lookup-insert key asked value entries,
    eq_iff name asked,
    eq_iff name key,
    eq_iff key asked,
  )

digit : ℕ → String
digit zero = "0"
digit (suc zero) = "1"
digit (suc (suc zero)) = "2"
digit (suc (suc (suc zero))) = "3"
digit (suc (suc (suc (suc zero)))) = "4"
digit (suc (suc (suc (suc (suc zero))))) = "5"
digit (suc (suc (suc (suc (suc (suc zero)))))) = "6"
digit (suc (suc (suc (suc (suc (suc (suc zero))))))) = "7"
digit (suc (suc (suc (suc (suc (suc (suc (suc zero)))))))) = "8"
digit _ = "9"

-- A number below its fuel has fewer digits than the fuel.
digits : ℕ → ℕ → String
digits zero n = ""
digits (suc fuel) n =
    let more = digits fuel (n / 10) <> digit (n % 10) in if ltb n 10 then digit n else more

-- `%d` of a number that is not negative
unfoldable pub decimal : ℕ → String
unfolding digit digits
decimal n = digits (suc n) n

-- `[]byte(s)`, at a text of ASCII characters
abbrev pub codes : String → List ℕ
codes String.[] = []
codes (String.◌∷◌ c s) = code c ∷ codes s

decimal_test : decimal 3306 ≡ "3306"
unfolding decimal
decimal_test = refl
