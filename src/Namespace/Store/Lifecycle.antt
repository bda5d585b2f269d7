-- ===== src/Namespace/Store/Lifecycle.antt =====
-- Issuing, using and revoking a key, one after the other.
use contextq_server.Prelude.{
  ◌≡◌, refl, sym, ◌∙◌, ap, ◌≢◌, true, false, ok, arith, Text, Bytes, some, [], List, Result, same,
  same_refl, same_ne,
}
use contextq_server.Errors.{Error}
use contextq_server.Strings.{has_prefix}
use contextq_server.Encoding.{hex_decode}
use contextq_server.Encoding.Laws.{hex_decode-hex_encode}
use contextq_server.Os.{Files, World, same_path}
use contextq_server.Os.Ends.{Ends-ok}
use contextq_server.Namespace.Data.{Key, KeyFile, IssuedKey}
use contextq_server.Namespace.Dirs.{namespace_dir}
use contextq_server.Namespace.Tokens.{key_id}
use contextq_server.Namespace.Keys.{keys_of, has_id, without_id, authenticate_in}
use contextq_server.Namespace.Keys.Matching.{
  Admits, Admits-has_id, has_id-without_id, revoke_in_inv, authenticate_in-new,
  authenticate_in-append, authenticate_in-append_ne, authenticate_in-without_id,
}
use contextq_server.Namespace.Store.{
  Platform, add_key, keys_path, metadata_path, issue_key, revoke_key, authenticate,
}
use contextq_server.Namespace.Store.Files.{key_file_at, IsNamespace}
use contextq_server.Namespace.Store.Changes.{Updated, is_data}
use contextq_server.Namespace.Store.Issue.{Issued, key_for, issue_key-Ends}
use contextq_server.Namespace.Store.Revoke.{Revoked, revoke_key-Ends}
use contextq_server.Namespace.Store.Authenticate.{
  digest_of, calm, Accepted, authenticate-Ends, authenticate-calm,
}

pub metadata_path-data : (dir : Text) → is_data (metadata_path dir) ≡ true
unfolding has_prefix same
metadata_path-data dir = refl

pub keys_ne_metadata : (dir : Text) → same_path (keys_path dir) (metadata_path dir) ≡ false
unfolding same_path
keys_ne_metadata dir = ground (arith, same_refl dir)

-- What is admitted is under the token's identifier, so not among the keys without it.
not-Admits-without_id :
    (id j : Text) (digest : Bytes) (k : Key) (ks rest : List Key)
    → rest ≡ without_id id ks
    → j ≡ id
    → ¬ Admits j digest k rest
not-Admits-without_id id j digest k ks rest e q a =
    cc (e, q, Admits-has_id a, has_id-without_id id ks)

read_same :
    {f g : KeyFile} (r s : Result Error KeyFile)
    → r ≡ s
    → r ≡ ok f
    → s ≡ ok g
    → keys_of f ≡ keys_of g
read_same {f} {g} r s e h k = let q : f ≡ g = cc (e, h, k) in ap keys_of q

authenticate_in_kept :
    (id j : Text) (digest : Bytes) (ks : List Key)
    → id ≢ j
    → authenticate_in j digest (without_id id ks) ≡ authenticate_in j digest ks
authenticate_in_kept id j digest ks ne =
    authenticate_in-without_id id j digest ks ∙ rw (same_ne id j ne)

module _ (p : Platform) (root : Text) where
  -- A namespace keeps its directory when its key file changes.
  IsNamespace-Updated :
      (old fs : Files) (name dir : Text) (g : KeyFile)
      → IsNamespace p root old name dir
      → Updated p root old dir g fs
      → IsNamespace p root fs name dir
  IsNamespace-Updated old fs name dir g n u = record {
    file = n.file;
    named = n.named;
    present =
        u.kept (metadata_path dir) (metadata_path-data dir) (keys_ne_metadata dir) ∙ n.present;
  }

  key_for-digest :
      (i : IssuedKey) → hex_decode (key_for p root i).digest ≡ some (digest_of p i.token)
  key_for-digest i = hex_decode-hex_encode (digest_of p i.token) (p.sha256_bytes _)

  -- A token that was just issued is accepted: if IssueKey returned, and no key of the namespace had
  -- the new identifier before, then Authenticate on the files it left, with no failing call, returns
  -- the key without its digest.
  pub authenticate-issue_key :
      (name label : Text) (i : IssuedKey) (w v : World)
      → (issue_key p root name label w).0 ≡ ok i
      → ((dir : Text) (f : KeyFile)
          → namespace_dir root name ≡ ok dir
          → key_file_at p root w.files dir ≡ ok f
          → has_id i.id (keys_of f) ≡ false)
      → v.files ≡ (issue_key p root name label w).1.files
      → (authenticate p root name i.token (calm v)).0
        ≡ ok (record { id = i.id; label = i.label; digest = []; created_at = i.created_at })
  authenticate-issue_key name label i w v h unused e =
      let d : Issued p root w.files name label i (issue_key p root name label w).1.files =
        Ends-ok (issue_key-Ends p root w.files name label) w refl h in
      let n : IsNamespace p root v.files name d.dir =
        rw e (IsNamespace-Updated w.files _ name d.dir _ d.namespace d.after) in
      let stored : key_file_at p root v.files d.dir
          ≡ ok (add_key p root d.before (key_for p root i)) =
        rw e d.after.stored in
      authenticate-calm p root v name i.token n d.formed stored
      ∙ authenticate_in-append i.id (digest_of p i.token) (keys_of d.before) (key_for p root i)
          (unused d.dir d.before d.namespace.named d.read)
      ∙ authenticate_in-new (digest_of p i.token) (key_for p root i) (key_for-digest i)

  -- Issuing a key leaves every other token as it was: with no failing call, Authenticate returns for
  -- a token with another identifier what it returned before.
  pub issue_key_keeps_others :
      (name label token id : Text) (i : IssuedKey) (w v : World)
      → (issue_key p root name label w).0 ≡ ok i
      → key_id token ≡ some id
      → i.id ≢ id
      → v.files ≡ (issue_key p root name label w).1.files
      → (authenticate p root name token (calm v)).0 ≡ (authenticate p root name token (calm w)).0
  issue_key_keeps_others name label token id i w v h t ne e =
      let d : Issued p root w.files name label i (issue_key p root name label w).1.files =
        Ends-ok (issue_key-Ends p root w.files name label) w refl h in
      let n : IsNamespace p root v.files name d.dir =
        rw e (IsNamespace-Updated w.files _ name d.dir _ d.namespace d.after) in
      let stored : key_file_at p root v.files d.dir
          ≡ ok (add_key p root d.before (key_for p root i)) =
        rw e d.after.stored in
      authenticate-calm p root v name token n t stored
      ∙ authenticate_in-append_ne id (digest_of p token) (keys_of d.before) (key_for p root i)
          (same_ne i.id id ne)
      ∙ sym (authenticate-calm p root w name token d.namespace t d.read)

  -- A revoked key is refused: after RevokeKey returned, Authenticate on the files that it left
  -- accepts no token with the identifier, whatever calls fail.
  pub revoke_key_refuses :
      (name token id : Text) (w v : World)
      → (revoke_key p root name id w).0 ≡ ok tt
      → key_id token ≡ some id
      → v.files ≡ (revoke_key p root name id w).1.files
      → (k : Key) → (authenticate p root name token v).0 ≢ ok k
  revoke_key_refuses name token id w v h t e k accepted =
      let d : Revoked p root w.files name id (revoke_key p root name id w).1.files =
        Ends-ok (revoke_key-Ends p root w.files name id) w refl h in
      let a : Accepted p root v.files name token k _ =
        Ends-ok (authenticate-Ends p root v.files name token) v refl accepted in
      let dirs : d.dir ≡ a.dir = cc (d.namespace.named, a.namespace.named) in
      let stored : key_file_at p root v.files d.dir ≡ ok (record d.before { keys = some d.rest }) =
        rw e d.after.stored in
      let same_keys : keys_of a.key_file ≡ d.rest =
        read_same _ _ (ap (key_file_at p root v.files) (sym dirs)) a.read stored in
      not-Admits-without_id id a.id (digest_of p token) k (keys_of d.before) (keys_of a.key_file)
        (same_keys ∙ (revoke_in_inv id (keys_of d.before) d.dropped).1) (cc (a.named, t)) a.admitted

  -- Revoking a key leaves every other token as it was: with no failing call, Authenticate returns for
  -- a token with another identifier what it returned before.
  pub revoke_key_keeps_others :
      (name token id j : Text) (w v : World)
      → (revoke_key p root name id w).0 ≡ ok tt
      → key_id token ≡ some j
      → id ≢ j
      → v.files ≡ (revoke_key p root name id w).1.files
      → (authenticate p root name token (calm v)).0 ≡ (authenticate p root name token (calm w)).0
  revoke_key_keeps_others name token id j w v h t ne e =
      let d : Revoked p root w.files name id (revoke_key p root name id w).1.files =
        Ends-ok (revoke_key-Ends p root w.files name id) w refl h in
      let n : IsNamespace p root v.files name d.dir =
        rw e (IsNamespace-Updated w.files _ name d.dir _ d.namespace d.after) in
      let stored : key_file_at p root v.files d.dir ≡ ok (record d.before { keys = some d.rest }) =
        rw e d.after.stored in
      authenticate-calm p root v name token n t stored
      ∙ ap (authenticate_in j (digest_of p token)) (revoke_in_inv id (keys_of d.before) d.dropped).1
      ∙ authenticate_in_kept id j (digest_of p token) (keys_of d.before) ne
      ∙ sym (authenticate-calm p root w name token d.namespace t d.read)
