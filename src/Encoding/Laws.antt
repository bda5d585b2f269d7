-- ===== src/Encoding/Laws.antt =====
-- Hexadecimal text is read back, and holds digits alone.
use contextq_server.Prelude.{ℕ, ◌/◌, ◌%◌, ◌<◌, ◌≡◌, refl, [], ◌∷◌, some, arith, Bytes, All, ◌≢◌}
use contextq_server.Strings.{Lacks}
use contextq_server.Encoding.{hex_digit, hex_encode, hex_value, hex_pair, hex_decode}

abbrev pub IsByte : ℕ → Type 0
IsByte b = b < 256

hex_value-hex_digit : (d : ℕ) → d < 16 → hex_value (hex_digit d) ≡ some d
unfolding hex_value hex_digit
hex_value-hex_digit d h = ground arith

hex_decode_step :
    (b : ℕ) (bs : Bytes)
    → hex_decode (hex_encode (b ∷ bs))
      ≡ hex_pair
          (hex_value (hex_digit (b / 16)))
          (hex_value (hex_digit (b % 16)))
          (hex_decode (hex_encode bs))
unfolding hex_decode hex_encode
hex_decode_step b bs = refl

hex_decode_end : hex_decode (hex_encode []) ≡ some []
unfolding hex_decode hex_encode
hex_decode_end = refl

-- The two digits of a byte give it back.
hex_pair_byte :
    (b : ℕ) (bs : Bytes) → hex_pair (some (b / 16)) (some (b % 16)) (some bs) ≡ some (b ∷ bs)
unfolding hex_pair
hex_pair_byte b bs = ground arith

pub hex_decode-hex_encode : (bs : Bytes) → All IsByte bs → hex_decode (hex_encode bs) ≡ some bs
hex_decode-hex_encode [] h = hex_decode_end
hex_decode-hex_encode (b ∷ bs) (hb, hs) =
    rw
      (
        hex_decode_step,
        hex_value-hex_digit (b / 16) (omega arith),
        hex_value-hex_digit (b % 16) (omega arith),
        hex_decode-hex_encode bs hs,
      )
      (hex_pair_byte b bs)

hex_digit-ne_underscore : (d : ℕ) → d < 16 → hex_digit d ≢ b'_'
unfolding hex_digit
hex_digit-ne_underscore d h = ground arith

pub hex_encode-Lacks_underscore : (bs : Bytes) → All IsByte bs → Lacks b'_' (hex_encode bs)
unfolding hex_encode
hex_encode-Lacks_underscore [] h = tt
hex_encode-Lacks_underscore (b ∷ bs) (hb, hs) = (
  hex_digit-ne_underscore (b / 16) (omega arith),
  (hex_digit-ne_underscore (b % 16) (omega arith), hex_encode-Lacks_underscore bs hs),
)
