-- ===== src/Namespace/Labels.antt =====
-- validateLabel of internal/namespace/store.go.
pub mod Accepts
use contextq_server.Prelude.{
  ℕ, ◌&&◌, ◌||◌, Bool, false, [], ◌∷◌, ltb, leb, Text, Result, ok, err, if◌then◌else◌,
}
use contextq_server.Strings.{byte_length}
use contextq_server.Errors.{Error, invalid_label}

-- unicode.IsControl
is_control : ℕ → Bool
is_control c = ltb c 0x20 || leb 0x7f c && ltb c 0xa0

any_control : Text → Bool
unfolding is_control
any_control [] = false
any_control (c ∷ s) = is_control c || any_control s

unfoldable pub validate_label : Text → Result Error (Unit {0})
unfolding any_control byte_length
validate_label [] = err invalid_label
validate_label (c ∷ s) =
    if ltb 120 (byte_length (c ∷ s)) || any_control (c ∷ s) then err invalid_label else ok tt
