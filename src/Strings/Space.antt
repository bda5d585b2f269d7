-- ===== src/Strings/Space.antt =====
-- unicode.IsSpace, strings.TrimSpace and strings.Fields.
use contextq_server.Prelude.{
  ◌≡◌, ℕ, Bool, true, false, ◌&&◌, ◌||◌, List, [], ◌∷◌, ◌++◌, ◌==◌, leb, Text, if◌then◌else◌,
}
use mathlib.Core.List.{reverse}

-- unicode.IsSpace: the White_Space property.
unfoldable pub is_space : ℕ → Bool
is_space c =
    leb 9 c && leb c 13
    || c == 32
    || c == 0x85
    || c == 0xA0
    || c == 0x1680
    || leb 0x2000 c && leb c 0x200a
    || c == 0x2028
    || c == 0x2029
    || c == 0x202f
    || c == 0x205f
    || c == 0x3000

abbrev pub NoSpace : ℕ → Type 0
NoSpace c = is_space c ≡ false

-- strings.TrimLeftFunc(s, unicode.IsSpace)
unfoldable pub trim_left : Text → Text
trim_left [] = []
trim_left (c ∷ s) = if is_space c then trim_left s else c ∷ s

-- strings.TrimSpace
unfoldable pub trim_space : Text → Text
unfolding trim_left
trim_space s = reverse (trim_left (reverse (trim_left s)))

-- The loop of strings.Fields: the field that is being read, and the text that is left.
unfoldable pub fields_from : Text → Text → List Text
fields_from [] [] = []
fields_from (x ∷ xs) [] = (x ∷ xs) ∷ []
fields_from [] (c ∷ s) = elim (is_space c) [
  | true ↦ fields_from [] s
  | false ↦ fields_from (c ∷ []) s
]
fields_from (x ∷ xs) (c ∷ s) = elim (is_space c) [
  | true ↦ (x ∷ xs) ∷ fields_from [] s
  | false ↦ fields_from (x ∷ xs ++ c ∷ []) s
]

-- strings.Fields
unfoldable pub fields : Text → List Text
unfolding fields_from
fields s = fields_from [] s
