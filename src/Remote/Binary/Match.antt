-- ===== src/Remote/Binary/Match.antt =====
-- The client's reading of tokens, and its choice of a binary.
use contextq_server.Prelude.{
  ◌≡◌, ◌≢◌, refl, true, false, List, [], ◌∷◌, some, Option, Result, ok, err, Text, Bytes,
  Bool-cases, inl, inr, arith, ◌⊎◌, All, same_iff, same_refl,
}
use contextq_server.Strings.{split_more}
use contextq_server.Namespace.Tokens.{id_of_parts, key_id}
use contextq_server.Remote.Binary.{
  ElfError, linux_binary_arch, has_arch, first_matching_binary, client_id_of_parts, client_key_id,
}

client_id_of_parts-id_of_parts :
    (ps : List Text) {id : Text} → id_of_parts ps ≡ some id → client_id_of_parts ps ≡ id
unfolding id_of_parts client_id_of_parts
client_id_of_parts-id_of_parts [] h = cc
client_id_of_parts-id_of_parts (a ∷ []) h = cc
client_id_of_parts-id_of_parts (a ∷ b ∷ []) h = cc
client_id_of_parts-id_of_parts (a ∷ b ∷ c ∷ []) h = cc
client_id_of_parts-id_of_parts (a ∷ b ∷ c ∷ d ∷ []) h = ground arith
client_id_of_parts-id_of_parts (a ∷ b ∷ c ∷ d ∷ e ∷ ps) h = cc

-- The client and the server read the same identifier from every token that the server can read.
pub client_key_id-key_id : (token id : Text) → key_id token ≡ some id → client_key_id token ≡ id
unfolding client_key_id key_id
client_key_id-key_id token id h = client_id_of_parts-id_of_parts (split_more b'_' 3 token) h

has_arch_inv : (arch : Text) (r : Result ElfError Text) → has_arch arch r ≡ true → r ≡ ok arch
unfolding has_arch
has_arch_inv arch (ok a) h = let e : a ≡ arch = (same_iff a arch).0 h in rw e refl
has_arch_inv arch (err e) h = cc

has_arch_other : (arch : Text) (r : Result ElfError Text) → has_arch arch r ≡ false → r ≢ ok arch
unfolding has_arch
has_arch_other arch (ok a) h k = let e : a ≡ arch = cc k in cc (rw (e, same_refl arch) at h)
has_arch_other arch (err e) h k = cc

module _ (files : Text → Option Bytes) (arch : Text) where
  -- The chosen path names a Linux binary of the architecture, or the path is empty and none of the
  -- candidates is such a binary.
  pub first_matching_binary_lem :
      (candidates : List Text)
      → (linux_binary_arch (files (first_matching_binary files arch candidates)) ≡ ok arch)
        ⊎ ((first_matching_binary files arch candidates ≡ [])
            × All (λ c. linux_binary_arch (files c) ≢ ok arch) candidates)
  unfolding first_matching_binary
  first_matching_binary_lem [] = inr (refl, tt)
  first_matching_binary_lem (c ∷ cs) =
      elim (Bool-cases (has_arch arch (linux_binary_arch (files c)))) [
        | inl e ↦ inl (rw e (has_arch_inv arch _ e))
        | inr e ↦ elim (first_matching_binary_lem cs) [
          | inl q ↦ inl (rw e q)
          | inr q ↦ inr (rw e (q.0), (λ k. has_arch_other arch _ e k, q.1))
        ]
      ]
