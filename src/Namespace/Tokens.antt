-- ===== src/Namespace/Tokens.antt =====
-- The form of access tokens in internal/namespace/store.go: `cqk_k_<hex>_<base64url>`.
pub mod Form
use contextq_server.Prelude.{
  ◌&&◌, not, List, [], ◌∷◌, ◌++◌, Option, none, some, if◌then◌else◌, Text, Bytes, codes, same,
}
use contextq_server.Strings.{split_more}
use contextq_server.Encoding.{hex_encode, base64_encode}

unfoldable pub id_of_parts : List Text → Option Text
unfolding same
id_of_parts (p0 ∷ p1 ∷ p2 ∷ p3 ∷ []) =
    if same p0 (codes "cqk") && same p1 (codes "k") && not (same p2 []) && not (same p3 [])
    then some (codes "k_" ++ p2)
    else none
id_of_parts _ = none

-- keyID: `strings.SplitN(token, "_", 4)` and the tests on its parts
unfoldable pub key_id : Text → Option Text
unfolding id_of_parts split_more
key_id token = id_of_parts (split_more b'_' 3 token)

-- the identifier and the token that IssueKey makes of its random bytes
unfoldable pub new_id : Bytes → Text
unfolding hex_encode
new_id id_bytes = codes "k_" ++ hex_encode id_bytes

unfoldable pub new_token : Text → Bytes → Text
unfolding base64_encode
new_token id secret = codes "cqk_" ++ id ++ codes "_" ++ base64_encode secret
