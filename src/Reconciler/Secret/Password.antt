-- ===== src/Reconciler/Secret/Password.antt =====
-- The generated password: the bytes that were drawn can be read back from it.
use Prim.Native.Nat.{◌/◌, ◌%◌}
use kind_music_streaming.Prelude.{
  ℕ, ◌+◌, ◌-◌, ◌*◌, ◌<◌, ◌≡◌, refl, List, [], ◌∷◌, length, All, arith, ltb, if◌then◌else◌, ap,
}
use kind_music_streaming.Exec.{ok}
use kind_music_streaming.Platform.{Client}
use kind_music_streaming.Reconciler.Secret.{hex_digit, encode_to_string, generate_password}

-- The value of a hexadecimal digit.
unfoldable pub digit_value : ℕ → ℕ
digit_value code = if ltb code b'a' then code - b'0' else code - b'a' + 10

-- Pairs of digits as bytes.
unfoldable pub decode_string : List ℕ → List ℕ
unfolding digit_value
decode_string [] = []
decode_string (_ ∷ []) = []
decode_string (high ∷ low ∷ rest) = (digit_value high * 16 + digit_value low) ∷ decode_string rest

digit_value-hex_digit : (n : ℕ) → n < 16 → digit_value (hex_digit n) ≡ n
unfolding digit_value hex_digit
digit_value-hex_digit n h = ground arith

-- What is decoded from the encoding of bytes is the bytes.
pub decode_string-encode_to_string :
    (bytes : List ℕ) → All (λ b. b < 256) bytes → decode_string (encode_to_string bytes) ≡ bytes
unfolding decode_string encode_to_string
decode_string-encode_to_string [] _ = refl
decode_string-encode_to_string (b ∷ bytes) (small, rest) =
    rw
      (
        digit_value-hex_digit (b / 16) (ground arith),
        digit_value-hex_digit (b % 16) (ground arith),
        decode_string-encode_to_string bytes rest,
      )
      (ap (λ x. x ∷ bytes) (omega arith))

length-encode_to_string : (bytes : List ℕ) → length (encode_to_string bytes) ≡ 2 * length bytes
unfolding encode_to_string
length-encode_to_string [] = refl
length-encode_to_string (b ∷ bytes) = ground (arith, length-encode_to_string bytes)

-- When the random source gives bytes, a password that is generated from them has two characters for
-- each, and the bytes can be read back from it.
pub generate_password-decode :
    (c : Client) (n : ℕ) (buf password : List ℕ) (w w₁ w' : c.World)
    → c.rand_read n w ≡ (ok buf, w₁)
    → All (λ b. b < 256) buf
    → generate_password c n w ≡ (ok password, w')
    → (length password ≡ 2 * length buf) × (decode_string password ≡ buf)
unfolding generate_password
generate_password-decode c n buf password w w₁ w' drawn small run =
    ground (arith, length-encode_to_string buf, decode_string-encode_to_string buf small)
