-- ===== src/Namespace/Store/Files.antt =====
-- The directory and the key list that the files of a store hold for a namespace.
use contextq_server.Prelude.{◌≡◌, some, Result, ok, err, Text}
use contextq_server.Errors.{Error, not_exist, namespace_missing}
use contextq_server.Os.{File, Files, lift}
use contextq_server.Os.Ends.{
  Ends, Ends-bind, Ends-lift, Ends-pure, Ends-raise, Ends-attempt, Ends-stat, Outcome,
}
use contextq_server.Namespace.Data.{KeyFile}
use contextq_server.Namespace.Dirs.{namespace_dir}
use contextq_server.Namespace.Atomic.Read.{value_of, read_json-Ends}
use contextq_server.Namespace.Keys.{check_version}
use contextq_server.Namespace.Store.{
  Platform, keys_path, metadata_path, existing_dir, read_key_file, missing_as,
}

-- a checked key file, after the error of reading it
abbrev pub checked : Result Error KeyFile → Result Error KeyFile
checked (ok f) = check_version f
checked (err e) = err e

missing_as-Ends :
    {P E : Files → Type 0} {R : (Unit {0}) → Files → Type 0} (x : Error)
    (r : Result Error (Unit {0}))
    → ((fs : Files) → P fs → E fs)
    → Ends (Outcome P R r) E R (lift (missing_as x r))
unfolding missing_as
missing_as-Ends x (ok u) he = Ends-pure u (λ fs h. h)
missing_as-Ends x (err not_exist) he = Ends-raise x he
missing_as-Ends x (err e) he = Ends-raise e he

module _ (p : Platform) (root : Text) where
  -- What readKeyFile returns, if no call fails.
  abbrev pub key_file_at : Files → Text → Result Error KeyFile
  key_file_at fs dir = checked (value_of p.key_files (fs (keys_path dir)))

  -- The namespace has the directory and its metadata file.
  pub record IsNamespace (fs : Files) (name dir : Text) : Type 0 where
    pub file : File
    pub named : namespace_dir root name ≡ ok dir
    pub present : fs (metadata_path dir) ≡ some file

  pub existing_dir-Ends :
      {P E : Files → Type 0} (name : Text)
      → ((fs : Files) → P fs → E fs)
      → Ends P E (λ dir fs. IsNamespace fs name dir × P fs) (existing_dir p root name)
  unfolding existing_dir
  existing_dir-Ends {P} {E} name he =
      Ends-bind {Q = λ dir fs. (namespace_dir root name ≡ ok dir) × P fs}
        (Ends-lift (namespace_dir root name) he (λ dir fs q h. (q, h)))
        λ dir.
          let Q : Files → Type 0 = λ fs. (namespace_dir root name ≡ ok dir) × P fs in
          let R : (Unit {0}) → Files → Type 0 =
            λ _ fs. (f : File) × (fs (metadata_path dir) ≡ some f) × Q fs in
          Ends-bind {Q = Outcome Q R}
            (Ends-attempt (Ends-stat {P = Q} (metadata_path dir) (λ fs h. h)))
            λ r.
              Ends-bind (missing_as-Ends {P = Q} {R = R} namespace_missing r (λ fs h. he fs h.1))
                λ _.
                  Ends-pure dir
                    (λ fs h. (record { file = h.0; named = h.2.0; present = h.1 }, h.2.1))

  pub read_key_file-Ends :
      {P E : Files → Type 0} (dir : Text)
      → ((fs : Files) → P fs → E fs)
      → Ends P E (λ f fs. (key_file_at fs dir ≡ ok f) × P fs) (read_key_file p root dir)
  unfolding read_key_file
  read_key_file-Ends {P} dir he =
      Ends-bind (read_json-Ends p.key_files {P = P} (keys_path dir) he)
        λ f. Ends-lift (check_version f) (λ fs h. he fs h.0) λ g fs e h. (rw (h.1) e, h.0)
