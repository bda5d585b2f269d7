-- ===== src/Namespace/Init/Keeps.antt =====
-- Init never loses a key.
use contextq_server.Prelude.{
  ◌≡◌, refl, ◌∙◌, false, Bool-cases, Option-cases, inl, inr, Result, ok, err, none, some, arith,
  Text, same, same_iff, same_refl,
}
use contextq_server.Errors.{Error, not_exist, metadata_mismatch}
use contextq_server.Strings.{has_prefix}
use contextq_server.Os.{
  FilePath, File, Files, Io, syscall, stat, attempt, next_fails, same_path, now, put, with_lock,
  ◌>>◌,
}
use contextq_server.Os.Ends.{
  Ends, Ends-bind, Ends-pure, Ends-raise, Ends-attempt, Ends-syscall, Ends-weaken, Ends-given,
  Outcome,
}
use contextq_server.Os.Lock.{locked, with_lock-Ends}
use contextq_server.Os.Temp.{is_temp}
use contextq_server.Namespace.Data.{Namespace}
use contextq_server.Namespace.Dirs.{namespace_dir}
use contextq_server.Namespace.Atomic.{read_json, write_json_atomic}
use contextq_server.Namespace.Atomic.Read.{value_of, read_json-Ends}
use contextq_server.Namespace.Atomic.Write.{Whole, Saved, write-Ends}
use contextq_server.Namespace.Store.{
  Platform, keys_path, metadata_path, namespace_lock, write_key_file,
}
use contextq_server.Namespace.Init.{settle, ensure_keys, init_locked, init, empty_key_file}

-- A key file that was there is still there, with what it held.
pub record KeepsKeys (old : Files) (dir : Text) (fs : Files) : Type 0 where
  pub kept : (f : File) → old (keys_path dir) ≡ some f → fs (keys_path dir) ≡ some f

-- what os.Stat says of a missing file
unfoldable pub Seen : FilePath → Result Error (Unit {0}) → Files → Type 0
Seen path (ok u) fs = Unit {0}
Seen path (err not_exist) fs = fs path ≡ none
Seen path (err e) fs = Unit {0}

Ends-stat-Seen :
    {P E : Files → Type 0} (path : FilePath)
    → Ends P E (λ r fs. Seen path r fs × P fs) (attempt (stat path))
unfolding stat syscall Seen
Ends-stat-Seen path = record {
  run = λ w p. elim (Bool-cases (next_fails w.faults)) [
    | inl e ↦ rw e (tt, p)
    | inr e ↦ elim (Option-cases (w.files path)) [
      | inl q ↦ rw e (rw q (q, p))
      | inr q ↦ rw e (rw (q.1) (tt, p))
    ]
  ];
}

-- A rule for every start is a rule for the files at the start.
Ends-from :
    {A : Type 0} {P E : Files → Type 0} {R : A → Files → Type 0} {m : Io A}
    → ((gs : Files) → P gs → Ends (λ fs. fs ≡ gs) E R m)
    → Ends P E R m
Ends-from h = record { run = λ w p. (h w.files p).run w refl }

paths_not_temp :
    (dir : Text) → (is_temp (keys_path dir) ≡ false) × (is_temp (metadata_path dir) ≡ false)
unfolding has_prefix
paths_not_temp dir = (refl, refl)

metadata_ne_keys : (dir : Text) → same_path (metadata_path dir) (keys_path dir) ≡ false
unfolding same_path same
metadata_ne_keys dir = ground (arith, same_refl dir)

lock_ne_keys : (dir : Text) → same_path (namespace_lock dir) (keys_path dir) ≡ false
unfolding same_path same
lock_ne_keys dir = ground (arith, same_refl dir)

module _ (p : Platform) (root : Text) (old : Files) (dir : Text) where
  KeepsKeys-same :
      (gs fs : Files)
      → KeepsKeys old dir gs
      → fs (keys_path dir) ≡ gs (keys_path dir)
      → KeepsKeys old dir fs
  KeepsKeys-same gs fs k e = record { kept = λ f h. e ∙ k.kept f h }

  KeepsKeys-Saved :
      (gs : Files) (ns : Namespace)
      → KeepsKeys old dir gs
      → (fs : Files) → Saved p.namespaces gs (metadata_path dir) ns 0o640 fs
      → KeepsKeys old dir fs
  KeepsKeys-Saved gs ns k fs h =
      KeepsKeys-same gs fs k
        (h.2.kept (keys_path dir) (paths_not_temp dir).0 (metadata_ne_keys dir))

  KeepsKeys-Whole :
      (gs : Files) (ns : Namespace)
      → KeepsKeys old dir gs
      → (fs : Files) → Whole p.namespaces gs (metadata_path dir) ns 0o640 fs
      → KeepsKeys old dir fs
  KeepsKeys-Whole gs ns k fs (inl h) =
      KeepsKeys-same gs fs k (h (keys_path dir) (paths_not_temp dir).0)
  KeepsKeys-Whole gs ns k fs (inr h) = KeepsKeys-Saved gs ns k fs h

  write_metadata-Ends :
      (ns : Namespace)
      → Ends
          (KeepsKeys old dir)
          (KeepsKeys old dir)
          (λ _. KeepsKeys old dir)
          (write_json_atomic p.namespaces (metadata_path dir) ns 0o640)
  write_metadata-Ends ns = Ends-from λ gs k.
      Ends-weaken (write-Ends p.namespaces gs (metadata_path dir) ns 0o640 (paths_not_temp dir).1)
        (λ fs h. h) (KeepsKeys-Whole gs ns k) (λ _. KeepsKeys-Saved gs ns k)

  settle-Ends :
      (name : Text) (r : Result Error Namespace)
      → Ends
          (KeepsKeys old dir)
          (KeepsKeys old dir)
          (λ ns fs. KeepsKeys old dir fs × (ns.name ≡ name))
          (settle p root dir name r)
  unfolding settle
  settle-Ends name (ok existing) = elim (Bool-cases (same existing.name name)) [
    | inl e ↦ rw e (Ends-pure existing (λ fs h. (h, (same_iff existing.name name).0 e)))
    | inr e ↦ rw e (Ends-raise metadata_mismatch (λ fs h. h))
  ]
  settle-Ends name (err not_exist) =
      Ends-bind {Q = λ _. KeepsKeys old dir} {m = now} (record { run = λ w k. k })
        λ t.
          let ns : Namespace = record { name = name; created_at = t } in
          Ends-bind (write_metadata-Ends ns) λ _. Ends-pure ns (λ fs h. (h, refl))
  settle-Ends name (err e) = Ends-raise e (λ fs h. h)

  keys_absent :
      (gs fs : Files) → KeepsKeys old dir gs → gs (keys_path dir) ≡ none → KeepsKeys old dir fs
  keys_absent gs fs k n = record { kept = λ f h. let q = k.kept f h in cc }

  ensure_keys-Ends :
      (r : Result Error (Unit {0}))
      → Ends
          (λ fs. Seen (keys_path dir) r fs × KeepsKeys old dir fs)
          (KeepsKeys old dir)
          (λ _. KeepsKeys old dir)
          (ensure_keys p root dir r)
  unfolding ensure_keys write_key_file Seen
  ensure_keys-Ends (ok u) = Ends-pure tt (λ fs h. h.1)
  ensure_keys-Ends (err not_exist) = Ends-from λ gs h.
      Ends-weaken
        (write-Ends p.key_files gs (keys_path dir) empty_key_file 0o600 (paths_not_temp dir).0)
        (λ fs q. q) (λ fs _. keys_absent gs fs h.1 h.0) (λ _ fs _. keys_absent gs fs h.1 h.0)
  ensure_keys-Ends (err e) = Ends-raise e (λ fs h. h.1)

  read_kept :
      (r : Result Error Namespace) (fs : Files)
      → Outcome
          (KeepsKeys old dir)
          (λ v gs. KeepsKeys old dir gs × (value_of p.namespaces (gs (metadata_path dir)) ≡ ok v))
          r
          fs
      → KeepsKeys old dir fs
  read_kept (ok v) fs h = h.0
  read_kept (err e) fs h = h

  read_metadata-Ends :
      Ends
        (KeepsKeys old dir)
        (KeepsKeys old dir)
        (λ _. KeepsKeys old dir)
        (attempt (read_json p.namespaces (metadata_path dir)))
  read_metadata-Ends =
      Ends-weaken
        (Ends-attempt
          (read_json-Ends p.namespaces {P = KeepsKeys old dir} (metadata_path dir) (λ fs h. h)))
        (λ fs h. h) (λ fs h. h) read_kept

  init_locked-Ends :
      (name : Text)
      → Ends
          (KeepsKeys old dir)
          (KeepsKeys old dir)
          (λ ns fs. KeepsKeys old dir fs × (ns.name ≡ name))
          (init_locked p root dir name)
  unfolding init_locked
  init_locked-Ends name = Ends-bind {Q = λ _. KeepsKeys old dir} (read_metadata-Ends) λ r.
      Ends-bind (settle-Ends name r) λ ns.
        Ends-given {G = ns.name ≡ name} (λ fs h. h.1)
          λ named.
            Ends-bind
              (Ends-stat-Seen {P = λ fs. KeepsKeys old dir fs × (ns.name ≡ name)}
                {E = KeepsKeys old dir} (keys_path dir))
              λ s.
                Ends-bind
                  (Ends-weaken (ensure_keys-Ends s) (λ fs h. (h.0, h.1.0)) (λ fs h. h)
                    (λ _ fs h. h))
                  λ _. Ends-pure ns (λ fs h. (h, named))

  KeepsKeys-old : KeepsKeys old dir old
  KeepsKeys-old = record { kept = λ f h. h }

  KeepsKeys-locked : KeepsKeys old dir (locked (namespace_lock dir) old)
  unfolding put
  KeepsKeys-locked = record { kept = λ f h. rw (lock_ne_keys dir) h }

  init_in-Ends :
      (name d : Text)
      → d ≡ dir
      → Ends
          (λ fs. fs ≡ old)
          (KeepsKeys old dir)
          (λ ns fs. KeepsKeys old dir fs × (ns.name ≡ name))
          (syscall >> (syscall >> with_lock (namespace_lock d) (init_locked p root d name)))
  init_in-Ends name d e = rw e (
      Ends-bind {Q = λ _ fs. fs ≡ old} (Ends-syscall (λ fs h. rw h KeepsKeys-old)) λ _.
        Ends-bind {Q = λ _ fs. fs ≡ old} (Ends-syscall (λ fs h. rw h KeepsKeys-old)) λ _.
          with_lock-Ends (namespace_lock dir) old (init_locked p root dir name) KeepsKeys-old
            KeepsKeys-locked
            (Ends-weaken (init_locked-Ends name) (λ fs h. rw h KeepsKeys-locked) (λ fs h. h)
              (λ ns fs h. h)))

  -- Init never loses a key: whichever system calls fail, the key file of a namespace with a directory
  -- holds afterwards what it held, if it was there; and where Init returns a namespace, it has the
  -- name that was asked for.
  pub init-KeepsKeys :
      (name : Text)
      → namespace_dir root name ≡ ok dir
      → Ends
          (λ fs. fs ≡ old)
          (KeepsKeys old dir)
          (λ ns fs. KeepsKeys old dir fs × (ns.name ≡ name))
          (init p root name)
  unfolding init
  init-KeepsKeys name named = rw named (
      Ends-bind {Q = λ d fs. (d ≡ dir) × (fs ≡ old)} (Ends-pure dir (λ fs h. (refl, h))) λ d.
        Ends-given {G = d ≡ dir} (λ fs h. h.0)
          λ e. Ends-weaken (init_in-Ends name d e) (λ fs h. h.1) (λ fs h. h) (λ ns fs h. h))
