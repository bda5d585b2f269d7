-- ===== src/Namespace/Keys/Matching.antt =====
-- Which tokens a list of keys admits, and what issuing and revoking change about that.
use contextq_server.Prelude.{
  ◌≡◌, refl, ◌≢◌, true, false, inl, inr, List, [], ◌∷◌, ◌++◌, Option, some, none, ok, err, arith,
  Text, Bytes, same, same_iff, Bool-cases, same_refl, ◌∙◌, if◌then◌else◌,
}
use contextq_server.Errors.{invalid_key}
use contextq_server.Encoding.{hex_decode}
use contextq_server.Namespace.Data.{Key}
use contextq_server.Namespace.Keys.{authenticate_in, verify, has_id, without_id, revoke_in}

-- The first key with the identifier has this digest, and is `r` but for it.
pub data Admits (id : Text) (digest : Bytes) (r : Key) : List Key → Type 0 where
  here :
      (k : Key) (ks : List Key)
      → k.id ≡ id
      → hex_decode k.digest ≡ some digest
      → r ≡ record k { digest = [] }
      → Admits id digest r (k ∷ ks)
  there :
      {ks : List Key} (k : Key) → k.id ≢ id → Admits id digest r ks → Admits id digest r (k ∷ ks)

verify_inv :
    (digest : Bytes) (k : Key) (o : Option Bytes) {r : Key}
    → verify digest k o ≡ ok r
    → (o ≡ some digest) × (r ≡ record k { digest = [] })
unfolding verify
verify_inv digest k none h = cc
verify_inv digest k (some stored) h = ground (arith, same_iff stored digest)

pub authenticate_in-Admits :
    (id : Text) (digest : Bytes) (ks : List Key) {r : Key}
    → authenticate_in id digest ks ≡ ok r
    → Admits id digest r ks
unfolding authenticate_in
authenticate_in-Admits id digest [] h = absurd (cc)
authenticate_in-Admits id digest (k ∷ ks) h = elim (Bool-cases (same k.id id)) [
  | inl e ↦
      let p = verify_inv digest k (hex_decode k.digest) (rw e at h) in
      here k ks ((same_iff k.id id).0 e) p.0 p.1
  | inr e ↦
      there k (λ q. cc (e, (same_iff k.id id).1 q))
        (authenticate_in-Admits id digest ks (rw e at h))
]

-- Issuing appends a key: a token with its identifier is then checked against its digest.
pub authenticate_in-append :
    (id : Text) (digest : Bytes) (ks : List Key) (k : Key)
    → has_id id ks ≡ false
    → authenticate_in id digest (ks ++ k ∷ []) ≡ authenticate_in id digest (k ∷ [])
unfolding authenticate_in has_id
authenticate_in-append id digest [] k h = refl
authenticate_in-append id digest (j ∷ ks) k h =
    ground (arith, authenticate_in-append id digest ks k)

-- A token with another identifier is treated as before.
pub authenticate_in-append_ne :
    (id : Text) (digest : Bytes) (ks : List Key) (k : Key)
    → same k.id id ≡ false
    → authenticate_in id digest (ks ++ k ∷ []) ≡ authenticate_in id digest ks
unfolding authenticate_in
authenticate_in-append_ne id digest [] k h = rw h
authenticate_in-append_ne id digest (j ∷ ks) k h =
    ground (arith, authenticate_in-append_ne id digest ks k)

-- After a revocation a token is refused if it has the identifier, and else treated as before.
pub authenticate_in-without_id :
    (id j : Text) (digest : Bytes) (ks : List Key)
    → authenticate_in j digest (without_id id ks)
      ≡ (if same id j then err invalid_key else authenticate_in j digest ks)
unfolding authenticate_in without_id
authenticate_in-without_id id j digest [] = ground arith
authenticate_in-without_id id j digest (k ∷ ks) = ground (
  arith,
  authenticate_in-without_id id j digest ks,
  same_iff k.id id,
  same_iff k.id j,
  same_iff id j,
)

-- A key whose stored text is the digest's is accepted, and returned without it.
verify-same :
    (digest : Bytes) (k : Key) → verify digest k (some digest) ≡ ok (record k { digest = [] })
unfolding verify
verify-same digest k = ground (arith, same_iff digest digest)

authenticate_in_one :
    (digest : Bytes) (k : Key)
    → authenticate_in k.id digest (k ∷ [])
      ≡ (if same k.id k.id then verify digest k (hex_decode k.digest) else err invalid_key)
unfolding authenticate_in
authenticate_in_one digest k = refl

pub authenticate_in-new :
    (digest : Bytes) (k : Key)
    → hex_decode k.digest ≡ some digest
    → authenticate_in k.id digest (k ∷ []) ≡ ok (record k { digest = [] })
authenticate_in-new digest k h =
    authenticate_in_one digest k ∙ rw (same_refl k.id, h) (verify-same digest k)

pub Admits-has_id :
    {id : Text} {digest : Bytes} {r : Key} {ks : List Key}
    → Admits id digest r ks
    → has_id id ks ≡ true
unfolding has_id
Admits-has_id {id} (here k ks e _ _) = rw ((same_iff k.id id).1 e)
Admits-has_id {id} (there k _ a) = ground (arith, Admits-has_id a)

pub has_id-without_id : (id : Text) (ks : List Key) → has_id id (without_id id ks) ≡ false
unfolding has_id without_id
has_id-without_id id [] = refl
has_id-without_id id (k ∷ ks) = ground (arith, has_id-without_id id ks)

pub revoke_in_inv :
    (id : Text) (ks : List Key) {rest : List Key}
    → revoke_in id ks ≡ ok rest
    → (has_id id ks ≡ true) × (rest ≡ without_id id ks)
unfolding revoke_in
revoke_in_inv id ks h = ground arith
