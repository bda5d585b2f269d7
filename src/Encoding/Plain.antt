-- ===== src/Encoding/Plain.antt =====
-- Encoded text holds no white space.
use contextq_server.Prelude.{ℕ, ◌/◌, ◌%◌, ◌<◌, ◌+◌, ◌*◌, [], ◌∷◌, arith, Bytes, All}
use contextq_server.Strings.{is_space, NoSpace}
use contextq_server.Encoding.{hex_digit, hex_encode, sextet, base64_encode}
use contextq_server.Encoding.Laws.{IsByte}

hex_digit-NoSpace : (d : ℕ) → d < 16 → NoSpace (hex_digit d)
unfolding hex_digit is_space
hex_digit-NoSpace d h = ground arith

sextet-NoSpace : (v : ℕ) → NoSpace (sextet v)
unfolding sextet is_space
sextet-NoSpace v = ground arith

pub hex_encode-NoSpace : (bs : Bytes) → All IsByte bs → All NoSpace (hex_encode bs)
unfolding hex_encode
hex_encode-NoSpace [] h = tt
hex_encode-NoSpace (b ∷ bs) (hb, hs) = (
  hex_digit-NoSpace (b / 16) (omega arith),
  (hex_digit-NoSpace (b % 16) (omega arith), hex_encode-NoSpace bs hs),
)

pub base64_encode-NoSpace : (bs : Bytes) → All NoSpace (base64_encode bs)
unfolding base64_encode
base64_encode-NoSpace [] = tt
base64_encode-NoSpace (a ∷ []) = (sextet-NoSpace (a / 4), (sextet-NoSpace (a % 4 * 16), tt))
base64_encode-NoSpace (a ∷ b ∷ []) = (
  sextet-NoSpace (a / 4),
  (sextet-NoSpace (a % 4 * 16 + b / 16), (sextet-NoSpace (b % 16 * 4), tt)),
)
base64_encode-NoSpace (a ∷ b ∷ c ∷ bs) = (
  sextet-NoSpace (a / 4),
  (
    sextet-NoSpace (a % 4 * 16 + b / 16),
    (sextet-NoSpace (b % 16 * 4 + c / 64), (sextet-NoSpace (c % 64), base64_encode-NoSpace bs)),
  ),
)
