-- ===== src/Strings/Utf8.antt =====
-- The UTF-8 bytes of a text, and their number, which is what Go's `len` counts.
use contextq_server.Prelude.{
  ℕ, ◌+◌, ◌/◌, ◌%◌, [], ◌∷◌, ◌++◌, ltb, Text, Bytes, if◌then◌else◌, length,
}

unfoldable pub rune_bytes : ℕ → Bytes
rune_bytes c =
    if ltb c 0x80
    then c ∷ []
    else if ltb c 0x800
    then (0xC0 + c / 64) ∷ (0x80 + c % 64) ∷ []
    else if ltb c 0x10000
    then (0xE0 + c / 4096) ∷ (0x80 + c / 64 % 64) ∷ (0x80 + c % 64) ∷ []
    else (0xF0 + c / 262144) ∷ (0x80 + c / 4096 % 64) ∷ (0x80 + c / 64 % 64) ∷ (0x80 + c % 64) ∷ []

-- []byte(s)
unfoldable pub utf8 : Text → Bytes
unfolding rune_bytes
utf8 [] = []
utf8 (c ∷ s) = rune_bytes c ++ utf8 s

-- len(s)
unfoldable pub byte_length : Text → ℕ
unfolding utf8
byte_length s = length (utf8 s)
