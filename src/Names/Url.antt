-- ===== src/Names/Url.antt =====
-- A name that the pattern accepts stands for itself in the path of a URL.
use contextq_server.Prelude.{
  ℕ, ◌<◌, ◌≡◌, ◌≢◌, true, [], ◌∷◌, arith, every, ◌&&◌, leb, length, Text, All, &&_parts,
}
use contextq_server.Names.{is_alnum, is_name_char, matches_name, alnum-name_char}

-- a printable ASCII character that neither ends a path nor begins an escape
abbrev pub InPath : ℕ → Type 0
InPath c = (32 < c) × (c < 127) × (c ≢ b'?') × (c ≢ b'#') × (c ≢ b'%')

name_char-InPath : (c : ℕ) → is_name_char c ≡ true → InPath c
unfolding is_name_char is_alnum
name_char-InPath c h = (ground arith, ground arith, ground arith, ground arith, ground arith)

every-InPath : (s : Text) → every is_name_char s ≡ true → All InPath s
every-InPath [] h = tt
every-InPath (c ∷ s) h =
    let p = &&_parts (is_name_char c) (every is_name_char s) h in
    (name_char-InPath c p.0, every-InPath s p.1)

pub matches_name-InPath : (s : Text) → matches_name s ≡ true → All InPath s
unfolding matches_name
matches_name-InPath [] h = tt
matches_name-InPath (c ∷ s) h =
    let q = &&_parts (is_alnum c && every is_name_char s) (leb (length s) 62) h in
    let p = &&_parts (is_alnum c) (every is_name_char s) q.0 in
    (name_char-InPath c (alnum-name_char c p.0), every-InPath s p.1)
