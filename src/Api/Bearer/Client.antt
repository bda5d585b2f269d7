-- ===== src/Api/Bearer/Client.antt =====
-- The header that the client of internal/app sends is read back.
use contextq_server.Prelude.{
  ℕ, ◌≡◌, refl, ◌≢◌, map, [], ◌∷◌, ◌++◌, some, arith, Text, codes, same_refl, All, append_assoc,
  append-nil,
}
use contextq_server.Strings.{is_space, NoSpace, fields_from, fields}
use contextq_server.Namespace.Keys.{equal_fold}
use contextq_server.Api.Bearer.{token_of, bearer_token}

-- a field that has begun goes on to the end of the text
fields_from-NoSpace :
    (c : ℕ) (cur s : Text) → All NoSpace s → fields_from (c ∷ cur) s ≡ (c ∷ cur ++ s) ∷ []
unfolding fields_from
fields_from-NoSpace c cur [] h = rw (append-nil cur) refl
fields_from-NoSpace c cur (d ∷ s) (hd, hs) =
    ground (arith, hd, fields_from-NoSpace c (cur ++ d ∷ []) s hs, append_assoc cur (d ∷ []) s)

fields_bearer :
    (c : ℕ) (s : Text)
    → All NoSpace (c ∷ s)
    → fields (codes "Bearer " ++ c ∷ s) ≡ codes "Bearer" ∷ (c ∷ s) ∷ []
unfolding fields fields_from is_space
fields_bearer c s (hc, hs) = rw (hc, fields_from-NoSpace c [] s hs) refl

-- Whatever the case folding: the header "Bearer " and a token that is not empty and has no white
-- space, as the client sends it, gives the server that token.
pub bearer_token-client :
    (fold : ℕ → ℕ) (token : Text)
    → token ≢ []
    → All NoSpace token
    → bearer_token fold (codes "Bearer " ++ token) ≡ some token
unfolding bearer_token
bearer_token-client fold [] n h = absurd (n refl)
bearer_token-client fold (c ∷ s) n h =
    rw (fields_bearer c s h)
      (unfold token_of equal_fold in rw (same_refl (map fold (codes "Bearer"))) refl)
