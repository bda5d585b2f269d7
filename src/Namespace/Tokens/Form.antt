-- ===== src/Namespace/Tokens/Form.antt =====
-- The identifier is read back from every token that IssueKey makes.
use mathlib.Core.List.{cons-ne-nil}
use contextq_server.Prelude.{
  ◌≡◌, refl, ◌≢◌, [], ◌∷◌, ◌++◌, some, arith, Text, Bytes, codes, same_iff, All, All-append,
  append_assoc, Option, ◌∙◌, ap,
}
use contextq_server.Strings.{split_more-cut, is_space, NoSpace, split_more, Lacks}
use contextq_server.Encoding.{hex_encode, base64_encode}
use contextq_server.Encoding.Laws.{IsByte, hex_encode-Lacks_underscore}
use contextq_server.Encoding.Plain.{hex_encode-NoSpace, base64_encode-NoSpace}
use contextq_server.Namespace.Tokens.{id_of_parts, key_id, new_id, new_token}

hex_encode-ne-nil : (bs : Bytes) → bs ≢ [] → hex_encode bs ≢ []
unfolding hex_encode
hex_encode-ne-nil [] h = h
hex_encode-ne-nil (b ∷ bs) h = cons-ne-nil _ _

base64_encode-ne-nil : (bs : Bytes) → bs ≢ [] → base64_encode bs ≢ []
unfolding base64_encode
base64_encode-ne-nil [] h = h
base64_encode-ne-nil (a ∷ []) h = cons-ne-nil _ _
base64_encode-ne-nil (a ∷ b ∷ []) h = cons-ne-nil _ _
base64_encode-ne-nil (a ∷ b ∷ c ∷ bs) h = cons-ne-nil _ _

id_of_four :
    (h s : Text)
    → h ≢ []
    → s ≢ []
    → id_of_parts (codes "cqk" ∷ codes "k" ∷ h ∷ s ∷ []) ≡ some (codes "k_" ++ h)
unfolding id_of_parts
id_of_four h s nh ns = ground (arith, nh, ns, same_iff h [], same_iff s [])

split_more_last :
    (h s : Text)
    → codes "cqk" ∷ codes "k" ∷ h ∷ split_more b'_' 0 s ≡ codes "cqk" ∷ codes "k" ∷ h ∷ s ∷ []
unfolding split_more
split_more_last h s = refl

Lacks-cqk : Lacks b'_' (codes "cqk")
Lacks-cqk = omega arith

Lacks-k : Lacks b'_' (codes "k")
Lacks-k = omega arith

split_token :
    (h s : Text)
    → Lacks b'_' h
    → split_more b'_' 3 (codes "cqk_" ++ (codes "k_" ++ h) ++ codes "_" ++ s)
      ≡ codes "cqk" ∷ codes "k" ∷ h ∷ s ∷ []
split_token h s l =
    rw
      (
        split_more-cut b'_' 2 (codes "cqk") (codes "k_" ++ h ++ codes "_" ++ s) (Lacks-cqk),
        split_more-cut b'_' 1 (codes "k") (h ++ codes "_" ++ s) (Lacks-k),
        append_assoc,
        split_more-cut b'_' 0 h s l,
      )
      (split_more_last h s)

key_id_parts :
    (id_bytes secret : Bytes)
    → key_id (new_token (new_id id_bytes) secret)
      ≡ id_of_parts (
          split_more b'_' 3 (
            codes "cqk_"
            ++ (codes "k_" ++ hex_encode id_bytes)
            ++ codes "_"
            ++ base64_encode secret))
unfolding key_id new_token new_id
key_id_parts id_bytes secret = refl

new_id_hex :
    (id_bytes : Bytes)
    → ◌≡◌ {A = Option Text} (some (codes "k_" ++ hex_encode id_bytes)) (some (new_id id_bytes))
unfolding new_id
new_id_hex id_bytes = refl

-- keyID finds in a new token the identifier that it was made with, whatever the secret's text
-- holds.
pub key_id-new_token :
    (id_bytes secret : Bytes)
    → All IsByte id_bytes
    → id_bytes ≢ []
    → secret ≢ []
    → key_id (new_token (new_id id_bytes) secret) ≡ some (new_id id_bytes)
key_id-new_token id_bytes secret hb ni ns =
    key_id_parts id_bytes secret
    ∙ ap id_of_parts (
        split_token (hex_encode id_bytes) (base64_encode secret)
          (hex_encode-Lacks_underscore id_bytes hb))
    ∙ id_of_four _ _ (hex_encode-ne-nil id_bytes ni) (base64_encode-ne-nil secret ns)
    ∙ new_id_hex id_bytes

pub new_token-NoSpace :
    (id_bytes secret : Bytes)
    → All IsByte id_bytes
    → All NoSpace (new_token (new_id id_bytes) secret)
unfolding new_token new_id is_space
new_token-NoSpace id_bytes secret hb =
    let rest : All NoSpace (hex_encode id_bytes ++ codes "_" ++ base64_encode secret) =
      All-append NoSpace (hex_encode id_bytes ++ codes "_") (base64_encode secret)
        (All-append NoSpace (hex_encode id_bytes) (codes "_") (hex_encode-NoSpace id_bytes hb)
          (refl, tt))
        (base64_encode-NoSpace secret) in
    (refl, (refl, (refl, (refl, (refl, (refl, rest))))))

pub new_token-ne-nil : (id secret : Bytes) → new_token id secret ≢ []
unfolding new_token
new_token-ne-nil id secret = cons-ne-nil _ _
