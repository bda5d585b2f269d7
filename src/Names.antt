-- ===== src/Names.antt =====
-- The pattern `^[A-Za-z0-9][A-Za-z0-9._-]{0,62}$`, which internal/namespace, internal/target and
-- internal/setup each compile under a name of their own.
pub mod Trim
pub mod Url
use mathlib.Core.List.{cons-ne-nil}
use contextq_server.Prelude.{
  ℕ, ◌+◌, ◌≤◌, ◌≡◌, refl, ◌≢◌, Bool, true, false, ◌&&◌, ◌||◌, List, [], ◌∷◌, arith, leb, ◌==◌,
  every, length, Text, codes, All, &&_parts,
}
use contextq_server.Strings.{Lacks}

is_alnum : ℕ → Bool
is_alnum c = leb b'A' c && leb c b'Z' || leb b'a' c && leb c b'z' || leb b'0' c && leb c b'9'

is_name_char : ℕ → Bool
unfolding is_alnum
is_name_char c = is_alnum c || c == b'.' || c == b'_' || c == b'-'

unfoldable pub matches_name : Text → Bool
unfolding is_name_char
matches_name [] = false
matches_name (c ∷ s) = is_alnum c && every is_name_char s && leb (length s) 62

name_char-ne_slash : (c : ℕ) → is_name_char c ≡ true → c ≢ b'/'
unfolding is_name_char
name_char-ne_slash c h = ground arith

alnum-name_char : (c : ℕ) → is_alnum c ≡ true → is_name_char c ≡ true
unfolding is_name_char
alnum-name_char c h = ground arith

every-Lacks_slash : (s : Text) → every is_name_char s ≡ true → Lacks b'/' s
every-Lacks_slash [] h = tt
every-Lacks_slash (c ∷ s) h =
    let p = &&_parts (is_name_char c) (every is_name_char s) h in
    (name_char-ne_slash c p.0, every-Lacks_slash s p.1)

alnum-ne_dot : (c : ℕ) → is_alnum c ≡ true → c ≢ b'.'
unfolding is_alnum
alnum-ne_dot c h = ground arith

head_eq : {c d : ℕ} {s t : Text} → c ∷ s ≡ d ∷ t → c ≡ d
head_eq e = cc

-- What the pattern rules out: the empty name, `.`, `..`, and every name with a slash.
pub record IsPlainName (s : Text) : Type 0 where
  pub no_slash : Lacks b'/' s
  pub not_empty : s ≢ []
  pub not_dot : s ≢ codes "."
  pub not_dot_dot : s ≢ codes ".."

pub matches_name-IsPlainName : (s : Text) → matches_name s ≡ true → IsPlainName s
unfolding matches_name
matches_name-IsPlainName [] h = cc
matches_name-IsPlainName (c ∷ s) h =
    let q = &&_parts (is_alnum c && every is_name_char s) (leb (length s) 62) h in
    let p = &&_parts (is_alnum c) (every is_name_char s) q.0 in
    record {
      no_slash = (name_char-ne_slash c (alnum-name_char c p.0), every-Lacks_slash s p.1);
      not_empty = cons-ne-nil c s;
      not_dot = λ e. alnum-ne_dot c p.0 (head_eq e);
      not_dot_dot = λ e. alnum-ne_dot c p.0 (head_eq e);
    }
