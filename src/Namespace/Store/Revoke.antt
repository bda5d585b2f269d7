-- ===== src/Namespace/Store/Revoke.antt =====
-- What RevokeKey does, whichever system call fails.
use contextq_server.Prelude.{◌≡◌, refl, ◌⊎◌, inl, inr, ok, Text, some, List}
use contextq_server.Os.{Files}
use contextq_server.Os.Lock.{locked, with_lock-Ends}
use contextq_server.Os.Ends.{Ends, Ends-bind, Ends-lift, Ends-weaken, Ends-given}
use contextq_server.Namespace.Data.{Key, KeyFile}
use contextq_server.Namespace.Keys.{keys_of, revoke_in}
use contextq_server.Namespace.Store.{Platform, keys_lock, revoke_locked, revoke_key}
use contextq_server.Namespace.Store.Files.{
  key_file_at, IsNamespace, existing_dir-Ends, read_key_file-Ends,
}
use contextq_server.Namespace.Store.Changes.{
  Intact, Updated, locked-data, write_key_file-Ends, check_version-set, key_file_at-locked,
}

module _ (p : Platform) (root : Text) (old : Files) (name id : Text) where
  -- The key file held a key with the identifier, and now holds the other keys in their order.
  pub record Revoked (fs : Files) : Type 0 where
    pub dir : Text
    pub namespace : IsNamespace p root old name dir
    pub before : KeyFile
    pub read : key_file_at p root old dir ≡ ok before
    pub rest : List Key
    pub dropped : revoke_in id (keys_of before) ≡ ok rest
    pub after : Updated p root old dir (record before { keys = some rest }) fs

  abbrev pub RevokeEnds : Files → Type 0
  RevokeEnds fs = Intact old fs ⊎ Revoked fs

  Revoked-of :
      (dir : Text) (f : KeyFile) (rest : List Key) (fs : Files)
      → IsNamespace p root old name dir
      → key_file_at p root old dir ≡ ok f
      → revoke_in id (keys_of f) ≡ ok rest
      → Updated p root old dir (record f { keys = some rest }) fs
      → Revoked fs
  Revoked-of dir f rest fs n r d h = record {
    dir = dir;
    namespace = n;
    before = f;
    read = r;
    rest = rest;
    dropped = d;
    after = h;
  }

  Revoked-Updated :
      (dir : Text) (f : KeyFile) (rest : List Key) (fs : Files)
      → IsNamespace p root old name dir
      → key_file_at p root old dir ≡ ok f
      → revoke_in id (keys_of f) ≡ ok rest
      → Intact old fs ⊎ Updated p root old dir (record f { keys = some rest }) fs
      → RevokeEnds fs
  Revoked-Updated dir f rest fs n r d (inl h) = inl h
  Revoked-Updated dir f rest fs n r d (inr h) = inr (Revoked-of dir f rest fs n r d h)

  Intact-locked : (dir : Text) (fs : Files) → fs ≡ locked (keys_lock dir) old → Intact old fs
  Intact-locked dir fs e q d = rw e (locked-data old dir q d)

  revoke_locked-Ends :
      (dir : Text)
      → IsNamespace p root old name dir
      → Ends
          (λ fs. fs ≡ locked (keys_lock dir) old)
          RevokeEnds
          (λ _. Revoked)
          (revoke_locked p root dir id)
  unfolding revoke_locked
  revoke_locked-Ends dir n =
      let P : Files → Type 0 = λ fs. fs ≡ locked (keys_lock dir) old in
      Ends-bind (read_key_file-Ends p root {P = P} dir (λ fs h. inl (Intact-locked dir fs h))) λ f.
        Ends-bind
          {Q = λ rest fs.
            (key_file_at p root old dir ≡ ok f) × (revoke_in id (keys_of f) ≡ ok rest) × P fs}
          (Ends-lift (revoke_in id (keys_of f)) (λ fs h. inl (Intact-locked dir fs h.1))
            (λ rest fs e h. (key_file_at-locked p root old dir fs h.1 h.0, e, h.1)))
          λ rest.
            Ends-given
              {G = (key_file_at p root old dir ≡ ok f) × (revoke_in id (keys_of f) ≡ ok rest)}
              (λ fs h. (h.0, h.1))
              λ facts.
                Ends-weaken
                  (write_key_file-Ends p root old dir (record f { keys = some rest })
                    (check_version-set p root old dir f rest facts.0))
                  (λ fs h. h.2) (λ fs h. Revoked-Updated dir f rest fs n facts.0 facts.1 h)
                  (λ _ fs h. Revoked-of dir f rest fs n facts.0 facts.1 h)

  -- Whichever calls fail, RevokeKey leaves the data as it was, or the key file without exactly the
  -- keys of the identifier, of which there was one; where it returns no error, the keys are gone. Lock
  -- files and temporary files are not looked at.
  pub revoke_key-Ends : Ends (λ fs. fs ≡ old) RevokeEnds (λ _. Revoked) (revoke_key p root name id)
  unfolding revoke_key
  revoke_key-Ends =
      Ends-bind (existing_dir-Ends p root {P = λ fs. fs ≡ old} name (λ fs h. inl (λ q _. rw h)))
        λ dir.
          Ends-given {G = IsNamespace p root old name dir} (λ fs h. rw h.1 at h.0)
            λ n.
              Ends-weaken
                (with_lock-Ends (keys_lock dir) old (revoke_locked p root dir id)
                  (inl (λ q _. refl)) (inl (λ q d. locked-data old dir q d))
                  (revoke_locked-Ends dir n))
                (λ fs h. h.1) (λ fs h. h) (λ _ fs h. h)
