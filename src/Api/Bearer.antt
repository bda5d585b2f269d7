-- ===== src/Api/Bearer.antt =====
-- bearerToken of internal/api/server.go.
pub mod Client
use contextq_server.Prelude.{
  ℕ, List, [], ◌∷◌, ◌&&◌, not, Option, none, some, if◌then◌else◌, Text, codes, same,
}
use contextq_server.Strings.{fields}
use contextq_server.Namespace.Keys.{equal_fold}

module _ (fold : ℕ → ℕ) where
  token_of : List Text → Option Text
  unfolding equal_fold same
  token_of (scheme ∷ token ∷ []) =
      if equal_fold fold scheme (codes "Bearer") && not (same token []) then some token else none
  token_of _ = none

  unfoldable pub bearer_token : Text → Option Text
  unfolding token_of fields
  bearer_token header = token_of (fields header)
