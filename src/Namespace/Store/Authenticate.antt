-- ===== src/Namespace/Store/Authenticate.antt =====
-- What Authenticate accepts, whichever system call fails, and its result when none does.
use contextq_server.Prelude.{
  ◌≡◌, refl, ok, err, Text, Bytes, Option, none, some, [], ap, Result, ◌∙◌,
}
use contextq_server.Errors.{Error}
use contextq_server.Strings.{utf8}
use contextq_server.Os.{Files, World, lift, continue, stat}
use contextq_server.Os.Ends.{Ends, Ends-bind, Ends-lift, Ends-attempt, Outcome}
use contextq_server.Namespace.Data.{Key, KeyFile}
use contextq_server.Namespace.Tokens.{key_id}
use contextq_server.Namespace.Atomic.Read.{value_of, read_json_calm}
use contextq_server.Namespace.Keys.{check_version, keys_of, authenticate_in}
use contextq_server.Namespace.Keys.Matching.{Admits, authenticate_in-Admits}
use contextq_server.Namespace.Store.{
  Platform, keys_path, hide, id_or_invalid, existing_dir, read_key_file, authenticate,
}
use contextq_server.Namespace.Store.Files.{
  checked, key_file_at, IsNamespace, existing_dir-Ends, read_key_file-Ends,
}

-- the token's digest
abbrev pub digest_of : Platform → Text → Bytes
digest_of p token = p.sha256 (utf8 token)

id_or_invalid_inv : (o : Option Text) {id : Text} → id_or_invalid o ≡ ok id → o ≡ some id
unfolding id_or_invalid
id_or_invalid_inv none h = cc
id_or_invalid_inv (some id) h = cc

module _ (p : Platform) (root : Text) (old : Files) (name token : Text) where
  -- The namespace exists, and the first of its keys with the token's identifier has the token's
  -- digest; the key is returned without it, and no file has changed.
  pub record Accepted (k : Key) (fs : Files) : Type 0 where
    pub dir : Text
    pub namespace : IsNamespace p root old name dir
    pub id : Text
    pub named : key_id token ≡ some id
    pub key_file : KeyFile
    pub read : key_file_at p root old dir ≡ ok key_file
    pub admitted : Admits id (digest_of p token) k (keys_of key_file)
    pub same_files : fs ≡ old

  hide-Ends :
      (r : Result Error Text)
      → Ends
          (Outcome (λ fs. fs ≡ old) (λ dir fs. IsNamespace p root fs name dir × (fs ≡ old)) r)
          (λ fs. fs ≡ old)
          (λ dir fs. IsNamespace p root old name dir × (fs ≡ old))
          (lift (hide r))
  unfolding hide
  hide-Ends (ok dir) =
      Ends-lift (ok dir) (λ fs h. h.1)
        (λ a fs e h. let q : a ≡ dir = cc e in rw q (rw h.1 at h.0, h.1))
  hide-Ends (err e) = Ends-lift _ (λ fs h. h) (λ a fs e h. cc)

  -- Whichever calls fail, Authenticate changes no file; and a key that it returns is the first of
  -- the namespace's keys with the token's identifier, has the token's digest, and is returned without
  -- it.
  pub authenticate-Ends :
      Ends (λ fs. fs ≡ old) (λ fs. fs ≡ old) Accepted (authenticate p root name token)
  unfolding authenticate
  authenticate-Ends =
      Ends-bind (Ends-attempt (existing_dir-Ends p root {P = λ fs. fs ≡ old} name (λ fs h. h))) λ r.
        Ends-bind (hide-Ends r) λ dir.
          Ends-bind
            {Q = λ id fs. (key_id token ≡ some id) × IsNamespace p root old name dir × (fs ≡ old)}
            (Ends-lift (id_or_invalid (key_id token)) (λ fs h. h.1)
              (λ id fs e h. (id_or_invalid_inv _ e, h.0, h.1)))
            λ id.
              Ends-bind
                (read_key_file-Ends p root
                  {P = λ fs.
                    (key_id token ≡ some id) × IsNamespace p root old name dir × (fs ≡ old)}
                  dir (λ fs h. h.2))
                λ f.
                  Ends-lift (authenticate_in id (digest_of p token) (keys_of f)) (λ fs h. h.1.2)
                    λ k fs e h. record {
                      dir = dir;
                      namespace = h.1.1;
                      id = id;
                      named = h.1.0;
                      key_file = f;
                      read = rw h.1.2 at h.0;
                      admitted = authenticate_in-Admits id (digest_of p token) (keys_of f) e;
                      same_files = h.1.2;
                    }

-- A world in which no system call will fail.
abbrev pub calm : World → World
calm w = record w { faults = [] }

check_calm :
    (r : Result Error KeyFile) (w : World) {f : KeyFile}
    → checked r ≡ ok f
    → continue r (λ g. lift (check_version g)) w ≡ (ok f, w)
check_calm (ok g) w h = ap (λ (q : Result Error KeyFile). (q, w)) h
check_calm (err e) w h = cc

module _ (p : Platform) (root : Text) (w : World) where
  existing_dir-calm :
      (name : Text) {dir : Text}
      → IsNamespace p root w.files name dir
      → existing_dir p root name (calm w) ≡ (ok dir, calm w)
  unfolding existing_dir stat
  existing_dir-calm name n = rw n.named (rw n.present refl)

  read_key_file-calm :
      (dir : Text) {f : KeyFile}
      → key_file_at p root w.files dir ≡ ok f
      → read_key_file p root dir (calm w) ≡ (ok f, calm w)
  unfolding read_key_file
  read_key_file-calm dir h =
      ap (λ (q : Result Error KeyFile × World). continue q.0 (λ g. lift (check_version g)) q.1)
        (read_json_calm p.key_files (keys_path dir) w)
      ∙ check_calm (value_of p.key_files (w.files (keys_path dir))) (calm w) h

  pub authenticate-calm :
      (name token : Text) {dir id : Text} {f : KeyFile}
      → IsNamespace p root w.files name dir
      → key_id token ≡ some id
      → key_file_at p root w.files dir ≡ ok f
      → (authenticate p root name token (calm w)).0
        ≡ authenticate_in id (digest_of p token) (keys_of f)
  unfolding authenticate
  authenticate-calm name token n t k =
      rw (existing_dir-calm name n) (unfold hide id_or_invalid in rw (t, read_key_file-calm _ k))
