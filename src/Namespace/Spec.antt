-- ===== src/Namespace/Spec.antt =====
-- What the keys of one namespace are for its callers: a key for each identifier. Each call makes a
-- move on that, and a call that fails may or may not have made its change.
pub mod View
pub mod Refines
use contextq_server.Prelude.{
  ◌≡◌, ◌≢◌, Bool, List, [], ◌∷◌, Option, none, some, Result, ok, err, if◌then◌else◌, Text, same,
}
use contextq_server.Errors.{Error}
use contextq_server.Encoding.{hex_decode}
use contextq_server.Os.{World}
use contextq_server.Namespace.Data.{Key, IssuedKey}
use contextq_server.Namespace.Tokens.{key_id}
use contextq_server.Namespace.Store.{Platform, issue_key, revoke_key, authenticate}
use contextq_server.Namespace.Store.Issue.{key_for}
use contextq_server.Namespace.Store.Authenticate.{digest_of}

abbrev pub Keyring : Type 0
Keyring = Text → Option Key

abbrev pub or_else : Option Key → Option Key → Option Key
or_else none o = o
or_else (some k) o = some k

-- a key more; an identifier that is there keeps its key
abbrev pub with_key : Key → Keyring → Keyring
with_key k v id = or_else (v id) (if same k.id id then some k else none)

abbrev pub without_key : Text → Keyring → Keyring
without_key id v j = if same id j then none else v j

pub data Call : Type 0 where
  issue : Text → Call
  revoke : Text → Call
  use_token : Text → Call

pub data Reply : Type 0 where
  issued : IssuedKey → Reply
  revoked : Reply
  accepted : Key → Reply

abbrev pub reply : {A : Type 0} → (A → Reply) → Result Error A → Result Error Reply
reply f (ok a) = ok (f a)
reply f (err e) = err e

-- one call of the store
abbrev pub perform : Platform → Text → Text → Call → World → Result Error Reply × World
perform p root name (issue label) w =
    let r = issue_key p root name label w in (reply issued r.0, r.1)
perform p root name (revoke id) w =
    let r = revoke_key p root name id w in (reply (λ _. revoked) r.0, r.1)
perform p root name (use_token token) w =
    let r = authenticate p root name token w in (reply accepted r.0, r.1)

-- calls one after the other
unfoldable pub perform_all :
    Platform → Text → Text → List Call → World → List (Result Error Reply) × World
perform_all p root name [] w = ([], w)
perform_all p root name (c ∷ cs) w =
    let r = perform p root name c w in let s = perform_all p root name cs r.1 in (r.0 ∷ s.0, s.1)

-- What a call with this result may do to the keyring `v`.
pub data Move (p : Platform) (root : Text) (v u : Keyring)
    : Call → Result Error Reply → Type 0 where
  did_issue :
      (label : Text) (i : IssuedKey)
      → key_id i.token ≡ some i.id
      → u ≡ with_key (key_for p root i) v
      → Move p root v u (issue label) (ok (issued i))
  did_revoke :
      (id : Text) (k : Key)
      → v id ≡ some k
      → u ≡ without_key id v
      → Move p root v u (revoke id) (ok revoked)
  did_accept :
      (token id : Text) (stored k : Key)
      → key_id token ≡ some id
      → v id ≡ some stored
      → hex_decode stored.digest ≡ some (digest_of p token)
      → k ≡ record stored { digest = [] }
      → u ≡ v
      → Move p root v u (use_token token) (ok (accepted k))
  nothing : (c : Call) (e : Error) → u ≡ v → Move p root v u c (err e)
  issue_unseen :
      (label : Text) (i : IssuedKey) (e : Error)
      → u ≡ with_key (key_for p root i) v
      → Move p root v u (issue label) (err e)
  revoke_unseen :
      (id : Text) (e : Error) → u ≡ without_key id v → Move p root v u (revoke id) (err e)

pub data Moves (p : Platform) (root : Text)
    : Keyring → Keyring → List Call → List (Result Error Reply) → Type 0 where
  done : {v : Keyring} → Moves p root v v [] []
  step :
      {v u t : Keyring} {c : Call} {r : Result Error Reply} {cs : List Call}
      {rs : List (Result Error Reply)}
      → Move p root v u c r
      → Moves p root u t cs rs
      → Moves p root v t (c ∷ cs) (r ∷ rs)
