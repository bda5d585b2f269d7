-- ===== src/Namespace/Atomic/Read.antt =====
-- Reading a JSON file: what is read depends on the file alone, and nothing is written.
use contextq_server.Prelude.{
  ◌≡◌, refl, Option, none, some, Result, ok, err, Bytes, [], inl, inr, Option-cases,
}
use contextq_server.Errors.{Error, not_exist}
use contextq_server.Os.{FilePath, File, Files, World, read_file}
use contextq_server.Os.Ends.{Ends, Ends-bind, Ends-pure, Ends-lift, Ends-syscall, Ends-at}
use contextq_server.Namespace.Data.{Codec}
use contextq_server.Namespace.Atomic.{decode_all, read_json}

module _ {A : Type 0} (c : Codec A) where
  -- What readJSON returns for a file, if no call fails.
  abbrev pub value_of : Option File → Result Error A
  value_of none = err not_exist
  value_of (some f) = decode_all (c.decode f.content)

  read_file-Ends :
      {P E : Files → Type 0} (path : FilePath)
      → ((fs : Files) → P fs → E fs)
      → Ends P E (λ b fs. (f : File) × (fs path ≡ some f) × (f.content ≡ b) × P fs) (read_file path)
  unfolding read_file
  read_file-Ends {P} path he = Ends-bind (Ends-syscall he) λ _.
      Ends-bind {Q = λ f fs. P fs × (fs path ≡ some f)} (Ends-at path he)
        λ f. Ends-pure f.content (λ fs h. (f, h.1, refl, h.0))

  -- A read that returns has returned the value of the file.
  pub read_json-Ends :
      {P E : Files → Type 0} (path : FilePath)
      → ((fs : Files) → P fs → E fs)
      → Ends P E (λ v fs. P fs × (value_of (fs path) ≡ ok v)) (read_json c path)
  unfolding read_json
  read_json-Ends {P} path he = Ends-bind (read_file-Ends {P = P} path he) λ b.
      Ends-lift (decode_all (c.decode b)) (λ fs h. he fs h.3) λ v fs e h. (h.3, rw (h.1, h.2) e)

  -- What an encoder wrote is read back.
  pub value_of-encode :
      (v : A) (b : Bytes) (mode : _)
      → c.encode v ≡ some b
      → value_of (some (record { mode = mode; content = b })) ≡ ok v
  unfolding decode_all
  value_of-encode v b mode e = rw (c.decode-encode v b e)

  -- Where no call fails, the file decides the result.
  pub read_json_calm :
      (path : FilePath) (w : World)
      → read_json c path (record w { faults = [] })
        ≡ (value_of (w.files path), record w { faults = [] })
  unfolding read_json read_file
  read_json_calm path w = elim (Option-cases (w.files path)) [ inl e ↦ rw e | inr (f, e) ↦ rw e ]
