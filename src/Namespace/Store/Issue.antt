-- ===== src/Namespace/Store/Issue.antt =====
-- What IssueKey does, whichever system call fails.
use mathlib.Core.List.{cons-ne-nil}
use contextq_server.Prelude.{
  ℕ, suc, ◌≡◌, refl, ◌≢◌, false, ◌⊎◌, inl, inr, ok, arith, Text, Bytes, some, [], ◌∷◌, length, All,
  Bool-cases,
}
use contextq_server.Errors.{duplicate_label}
use contextq_server.Strings.{NoSpace, trim_space}
use contextq_server.Encoding.Laws.{IsByte}
use contextq_server.Os.{Files, now}
use contextq_server.Os.Lock.{locked, with_lock-Ends}
use contextq_server.Os.Random.{random_bytes-Ends}
use contextq_server.Os.Ends.{
  Ends, Ends-bind, Ends-lift, Ends-pure, Ends-raise, Ends-still, Ends-weaken, Ends-given,
}
use contextq_server.Namespace.Data.{Key, KeyFile, IssuedKey}
use contextq_server.Namespace.Labels.{validate_label}
use contextq_server.Namespace.Tokens.{key_id, new_id, new_token}
use contextq_server.Namespace.Tokens.Form.{key_id-new_token, new_token-NoSpace, new_token-ne-nil}
use contextq_server.Namespace.Keys.{keys_of, label_taken}
use contextq_server.Namespace.Store.{
  Platform, keys_lock, stored_key, add_key, issue_fresh, issue_locked, issue_key,
}
use contextq_server.Namespace.Store.Files.{
  key_file_at, IsNamespace, existing_dir-Ends, read_key_file-Ends,
}
use contextq_server.Namespace.Store.Changes.{
  Intact, Updated, locked-data, write_key_file-Ends, check_version-set, key_file_at-locked,
}

-- The key that is stored for an issued one.
abbrev pub key_for : Platform → Text → IssuedKey → Key
key_for p root i = stored_key p root i.id i.label i.token i.created_at

length-ne-nil : {n : ℕ} (bs : Bytes) → length bs ≡ suc n → bs ≢ []
length-ne-nil [] h = absurd (omega arith)
length-ne-nil (b ∷ bs) h = cons-ne-nil b bs

module _ (p : Platform) (root : Text) (old : Files) (name label : Text) where
  -- The label is valid and was free, and the key file holds one key more, behind the others; its
  -- token carries its identifier, and is not empty and holds no white space.
  pub record Issued (i : IssuedKey) (fs : Files) : Type 0 where
    pub dir : Text
    pub namespace : IsNamespace p root old name dir
    pub before : KeyFile
    pub read : key_file_at p root old dir ≡ ok before
    pub valid : validate_label (trim_space label) ≡ ok tt
    pub labelled : i.label ≡ trim_space label
    pub free : label_taken p.fold i.label (keys_of before) ≡ false
    pub not_empty : i.token ≢ []
    pub no_space : All NoSpace i.token
    pub formed : key_id i.token ≡ some i.id
    pub after : Updated p root old dir (add_key p root before (key_for p root i)) fs

  abbrev pub IssueEnds : Files → Type 0
  IssueEnds fs = Intact old fs ⊎ ((i : IssuedKey) × Issued i fs)

  Intact-locked : (dir : Text) (fs : Files) → fs ≡ locked (keys_lock dir) old → Intact old fs
  Intact-locked dir fs e q d = rw e (locked-data old dir q d)

  either :
      (fs : Files) (U : Files → Type 0) (i : IssuedKey)
      → Intact old fs ⊎ U fs
      → ((gs : Files) → U gs → Issued i gs)
      → IssueEnds fs
  either fs U i (inl h) k = inl h
  either fs U i (inr h) k = inr (i, k fs h)

  module _ (valid : validate_label (trim_space label) ≡ ok tt) (dir : Text)
      (n : IsNamespace p root old name dir) where
    -- what is known when the key is made
    Issued-of :
        (f : KeyFile) (id_bytes secret : Bytes) (t : ℕ) (fs : Files)
        → key_file_at p root old dir ≡ ok f
        → label_taken p.fold (trim_space label) (keys_of f) ≡ false
        → All IsByte id_bytes
        → length id_bytes ≡ 6
        → length secret ≡ 32
        → Updated p root old dir
            (add_key p root f (
              stored_key p root
                (new_id id_bytes)
                (trim_space label)
                (new_token (new_id id_bytes) secret)
                t))
            fs
        → Issued
            (record {
              id = new_id id_bytes;
              label = trim_space label;
              token = new_token (new_id id_bytes) secret;
              created_at = t;
            })
            fs
    Issued-of f id_bytes secret t fs r free hb li ls h = record {
      dir = dir;
      namespace = n;
      before = f;
      read = r;
      valid = valid;
      labelled = refl;
      free = free;
      not_empty = new_token-ne-nil (new_id id_bytes) secret;
      no_space = new_token-NoSpace id_bytes secret hb;
      formed =
          key_id-new_token id_bytes secret hb (length-ne-nil id_bytes li) (length-ne-nil secret ls);
      after = h;
    }

    issue_fresh-Ends :
        (f : KeyFile)
        → key_file_at p root old dir ≡ ok f
        → label_taken p.fold (trim_space label) (keys_of f) ≡ false
        → Ends
            (λ fs. fs ≡ locked (keys_lock dir) old)
            IssueEnds
            Issued
            (issue_fresh p root dir (trim_space label) f)
    unfolding issue_fresh
    issue_fresh-Ends f r free =
        let P : Files → Type 0 = λ fs. fs ≡ locked (keys_lock dir) old in
        Ends-bind (random_bytes-Ends {P = P} 6 (λ fs h. inl (Intact-locked dir fs h))) λ id_bytes.
          let P1 : Files → Type 0 = λ fs. All IsByte id_bytes × (length id_bytes ≡ 6) × P fs in
          Ends-bind (random_bytes-Ends {P = P1} 32 (λ fs h. inl (Intact-locked dir fs h.2)))
            λ secret.
              let P2 : Files → Type 0 = λ fs. All IsByte secret × (length secret ≡ 32) × P1 fs in
              Ends-bind {Q = λ _. P2}
                (Ends-still now (λ w. refl) (λ fs h. inl (Intact-locked dir fs h.2.2)))
                λ t.
                  Ends-given
                    {G = All IsByte id_bytes × (length id_bytes ≡ 6) × (length secret ≡ 32)}
                    (λ fs h. (h.2.0, h.2.1, h.1))
                    λ g.
                      let k : Key =
                        stored_key p root (new_id id_bytes) (trim_space label)
                          (new_token (new_id id_bytes) secret) t in
                      let done : (fs : Files)
                          → Updated p root old dir (add_key p root f k) fs
                          → Issued _ fs =
                        λ fs. Issued-of f id_bytes secret t fs r free g.0 g.1 g.2 in
                      Ends-bind {Q = λ _ fs. Updated p root old dir (add_key p root f k) fs}
                        (Ends-weaken
                          (write_key_file-Ends p root old dir (add_key p root f k)
                            (check_version-set p root old dir f _ r))
                          (λ fs h. h.2.2) (λ fs h. either fs _ _ h done) (λ _ fs h. h))
                        λ _. Ends-pure _ done

    issue_locked-Ends :
        Ends
          (λ fs. fs ≡ locked (keys_lock dir) old)
          IssueEnds
          Issued
          (issue_locked p root dir (trim_space label))
    unfolding issue_locked
    issue_locked-Ends =
        let P : Files → Type 0 = λ fs. fs ≡ locked (keys_lock dir) old in
        Ends-bind (read_key_file-Ends p root {P = P} dir (λ fs h. inl (Intact-locked dir fs h)))
          λ f.
            Ends-given {G = key_file_at p root old dir ≡ ok f}
              (λ fs h. key_file_at-locked p root old dir fs h.1 h.0)
              λ r. elim (Bool-cases (label_taken p.fold (trim_space label) (keys_of f))) [
                | inl taken ↦
                    rw taken (Ends-raise duplicate_label (λ fs h. inl (Intact-locked dir fs h.1)))
                | inr free ↦ rw free (
                    Ends-weaken (issue_fresh-Ends f r free) (λ fs h. h.1) (λ fs h. h) (λ i fs h. h))
              ]

  -- Whichever calls fail, IssueKey leaves the data as it was, or the key file with exactly one key
  -- more, behind the others; where it returns a key, it is that key, its label was valid and free, and
  -- its token carries its identifier. Lock files and temporary files are not looked at.
  pub issue_key-Ends : Ends (λ fs. fs ≡ old) IssueEnds Issued (issue_key p root name label)
  unfolding issue_key
  issue_key-Ends =
      Ends-bind {Q = λ _ fs. (validate_label (trim_space label) ≡ ok tt) × (fs ≡ old)}
        (Ends-lift (validate_label (trim_space label)) (λ fs h. inl (λ q _. rw h))
          (λ u fs e h. (e, h)))
        λ _.
          Ends-given {G = validate_label (trim_space label) ≡ ok tt} (λ fs h. h.0)
            λ valid.
              Ends-bind
                (existing_dir-Ends p root
                  {P = λ fs. (validate_label (trim_space label) ≡ ok tt) × (fs ≡ old)} name
                  (λ fs h. inl (λ q _. rw h.1)))
                λ dir.
                  Ends-given {G = IsNamespace p root old name dir} (λ fs h. rw h.1.1 at h.0)
                    λ n.
                      Ends-weaken
                        (with_lock-Ends (keys_lock dir) old
                          (issue_locked p root dir (trim_space label)) (inl (λ q _. refl))
                          (inl (λ q d. locked-data old dir q d)) (issue_locked-Ends valid dir n))
                        (λ fs h. h.1.1) (λ fs h. h) (λ _ fs h. h)
