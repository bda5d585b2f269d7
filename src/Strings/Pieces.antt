-- ===== src/Strings/Pieces.antt =====
-- strings.ReplaceAll with a pattern of one character, strings.Join, strings.SplitN and
-- strings.HasPrefix.
use contextq_server.Prelude.{
  ℕ, zero, suc, ◌≡◌, ◌≢◌, Bool, true, false, ◌&&◌, List, [], ◌∷◌, ◌++◌, Option, none, some, arith,
  ◌==◌, if◌then◌else◌, Text, All,
}

-- strings.ReplaceAll(s, old, new), where `old` is one character
unfoldable pub replace_all : ℕ → Text → Text → Text
replace_all old new [] = []
replace_all old new (c ∷ s) = (if c == old then new else c ∷ []) ++ replace_all old new s

-- strings.Join
unfoldable pub join : Text → List Text → Text
join sep [] = []
join sep (x ∷ []) = x
join sep (x ∷ y ∷ ys) = x ++ sep ++ join sep (y ∷ ys)

-- strings.HasPrefix
unfoldable pub has_prefix : Text → Text → Bool
has_prefix s [] = true
has_prefix [] (p ∷ ps) = false
has_prefix (c ∷ s) (p ∷ ps) = c == p && has_prefix s ps

-- The text before the first `sep`, and the text behind it if there is one.
unfoldable pub cut : ℕ → Text → Text × Option Text
cut sep [] = ([], none)
cut sep (c ∷ s) = elim (c == sep) [
  | true ↦ ([], some s)
  | false ↦ let (before, after) = cut sep s in (c ∷ before, after)
]

-- strings.SplitN(s, sep, n) for n > 0 and a separator of one character: at most n parts, the last
-- of which is the rest. The argument is n - 1.
unfoldable pub split_more : ℕ → ℕ → Text → List Text
unfolding cut
split_more sep zero s = s ∷ []
split_more sep (suc n) s = elim (cut sep s).1 [
  | none ↦ s ∷ []
  | some rest ↦ (cut sep s).0 ∷ split_more sep n rest
]

abbrev pub Lacks : ℕ → Text → Type 0
Lacks c = All (λ x. x ≢ c)

pub cut-Lacks : (sep : ℕ) (a rest : Text) → Lacks sep a → cut sep (a ++ sep ∷ rest) ≡ (a, some rest)
unfolding cut
cut-Lacks sep [] rest h = ground arith
cut-Lacks sep (c ∷ a) rest (hc, ha) = ground (arith, cut-Lacks sep a rest ha)

-- one part, and what is behind its separator
pub split_more-cut :
    (sep n : ℕ) (a rest : Text)
    → Lacks sep a
    → split_more sep (suc n) (a ++ sep ∷ rest) ≡ a ∷ split_more sep n rest
unfolding split_more
split_more-cut sep n a rest h =
    rw (cut-Lacks sep a rest h, split_more) (rw (cut-Lacks sep a rest h))
