-- ===== src/Namespace/Labels/Accepts.antt =====
-- Which labels validateLabel accepts.
use mathlib.Core.List.{cons-ne-nil}
use contextq_server.Prelude.{
  ℕ, ◌≤◌, ◌<◌, ◌≡◌, ◌≢◌, ◌↔◌, ◌⊎◌, false, [], ◌∷◌, arith, refl, Text, ok, All,
}
use contextq_server.Strings.{byte_length}
use contextq_server.Namespace.Labels.{any_control, validate_label}

abbrev pub IsPlain : ℕ → Type 0
IsPlain c = (0x20 ≤ c) × ((c < 0x7f) ⊎ (0xa0 ≤ c))

any_control_iff : (s : Text) → (any_control s ≡ false) ↔ All IsPlain s
unfolding any_control
any_control_iff [] = ((λ h. tt), λ h. ground arith)
any_control_iff (c ∷ s) =
    ((λ h. ground (arith, (any_control_iff s).0)), λ h. ground (arith, (any_control_iff s).1 h.1))

abbrev pub IsLabel : Text → Type 0
IsLabel s = (s ≢ []) × (byte_length s ≤ 120) × All IsPlain s

-- A label is accepted exactly if it is not empty, has at most 120 bytes in UTF-8, and holds no
-- control character: each is 0x20 or more, and not from 0x7f to 0x9f.
pub validate_label_iff : (s : Text) → (validate_label s ≡ ok tt) ↔ IsLabel s
unfolding validate_label
validate_label_iff [] = ((λ h. cc), λ h. absurd (h.0 refl))
validate_label_iff (c ∷ s) = (
  (λ h. (cons-ne-nil c s, ground arith, (any_control_iff (c ∷ s)).0 (ground arith))),
  λ h. ground (arith, (any_control_iff (c ∷ s)).1 h.2),
)
