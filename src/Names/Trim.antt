-- ===== src/Names/Trim.antt =====
-- A name that the pattern accepts has no white space to trim.
use contextq_server.Prelude.{
  ℕ, ◌≡◌, refl, true, [], ◌∷◌, arith, every, ◌&&◌, leb, length, Text, All, All-append, &&_parts,
}
use mathlib.Core.List.{reverse, reverse-cons, reverse-reverse}
use contextq_server.Strings.{is_space, NoSpace, trim_left, trim_space}
use contextq_server.Names.{is_alnum, is_name_char, matches_name, alnum-name_char}

name_char-NoSpace : (c : ℕ) → is_name_char c ≡ true → NoSpace c
unfolding is_name_char is_alnum is_space
name_char-NoSpace c h = ground arith

every-NoSpace : (s : Text) → every is_name_char s ≡ true → All NoSpace s
every-NoSpace [] h = tt
every-NoSpace (c ∷ s) h =
    let p = &&_parts (is_name_char c) (every is_name_char s) h in
    (name_char-NoSpace c p.0, every-NoSpace s p.1)

pub matches_name-NoSpace : (s : Text) → matches_name s ≡ true → All NoSpace s
unfolding matches_name
matches_name-NoSpace [] h = tt
matches_name-NoSpace (c ∷ s) h =
    let q = &&_parts (is_alnum c && every is_name_char s) (leb (length s) 62) h in
    let p = &&_parts (is_alnum c) (every is_name_char s) q.0 in
    (name_char-NoSpace c (alnum-name_char c p.0), every-NoSpace s p.1)

reverse-NoSpace : (s : Text) → All NoSpace s → All NoSpace (reverse s)
reverse-NoSpace [] h = tt
reverse-NoSpace (c ∷ s) (hc, hs) =
    rw (reverse-cons c s) (All-append NoSpace (reverse s) (c ∷ []) (reverse-NoSpace s hs) (hc, tt))

trim_left-NoSpace : (s : Text) → All NoSpace s → trim_left s ≡ s
unfolding trim_left
trim_left-NoSpace [] h = refl
trim_left-NoSpace (c ∷ s) (hc, hs) = rw hc refl

pub matches_name-trim_space : (s : Text) → matches_name s ≡ true → trim_space s ≡ s
unfolding trim_space
matches_name-trim_space s h =
    let n = matches_name-NoSpace s h in
    rw (trim_left-NoSpace s n, trim_left-NoSpace (reverse s) (reverse-NoSpace s n))
      (reverse-reverse s)
