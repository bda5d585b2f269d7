-- ===== src/Namespace/Spec/Refines.antt =====
-- The store refines the keyring: whatever fails, its calls make the keyring's moves.
use contextq_server.Prelude.{
  ◌≡◌, refl, sym, ◌∙◌, ap, inl, inr, List, [], ◌∷◌, some, Result, ok, err, Text,
}
use contextq_server.Errors.{Error}
use contextq_server.Os.{Files, World}
use contextq_server.Os.Ends.{Post}
use contextq_server.Namespace.Data.{Key, KeyFile, IssuedKey}
use contextq_server.Namespace.Dirs.{namespace_dir}
use contextq_server.Namespace.Keys.{keys_of}
use contextq_server.Namespace.Keys.Matching.{revoke_in_inv}
use contextq_server.Namespace.Store.{Platform, keys_path, metadata_path, add_key}
use contextq_server.Namespace.Store.Files.{key_file_at, IsNamespace}
use contextq_server.Namespace.Store.Changes.{Intact, Updated, keys_path-data}
use contextq_server.Namespace.Store.Issue.{Issued, IssueEnds, issue_key-Ends, key_for}
use contextq_server.Namespace.Store.Revoke.{Revoked, RevokeEnds, revoke_key-Ends}
use contextq_server.Namespace.Store.Authenticate.{Accepted, authenticate-Ends}
use contextq_server.Namespace.Store.Lifecycle.{metadata_path-data, keys_ne_metadata}
use contextq_server.Namespace.Spec.{
  Keyring, with_key, without_key, Call, issue, revoke, use_token, Reply, issued, revoked, accepted,
  reply, perform, perform_all, Move, did_issue, did_revoke, did_accept, nothing, issue_unseen,
  revoke_unseen, Moves, done, step,
}
use contextq_server.Namespace.Spec.View.{
  view, view-append, view-without_id, view-has_id, view-Admits,
}

module _ (p : Platform) (root name : Text) where
  -- The namespace has a key file that can be read, and it stands for this keyring.
  pub record Holds (fs : Files) (v : Keyring) : Type 0 where
    pub dir : Text
    pub namespace : IsNamespace p root fs name dir
    pub key_file : KeyFile
    pub read : key_file_at p root fs dir ≡ ok key_file
    pub stands_for : v ≡ view (keys_of key_file)

  Holds-Intact : (old fs : Files) {v : Keyring} → Intact old fs → Holds old v → Holds fs v
  Holds-Intact old fs i h = record {
    dir = h.dir;
    namespace = record {
      file = h.namespace.file;
      named = h.namespace.named;
      present = i (metadata_path h.dir) (metadata_path-data h.dir) ∙ h.namespace.present;
    };
    key_file = h.key_file;
    read = rw (i (keys_path h.dir) (keys_path-data h.dir)) h.read;
    stands_for = h.stands_for;
  }

  Holds-Updated :
      (old fs : Files) (g : KeyFile) (dir : Text)
      → IsNamespace p root old name dir
      → Updated p root old dir g fs
      → Holds fs (view (keys_of g))
  Holds-Updated old fs g dir n u = record {
    dir = dir;
    namespace = record {
      file = n.file;
      named = n.named;
      present =
          u.kept (metadata_path dir) (metadata_path-data dir) (keys_ne_metadata dir) ∙ n.present;
    };
    key_file = g;
    read = u.stored;
    stands_for = refl;
  }

  -- what a namespace's key file is called and holds is one thing
  same_keys :
      (fs : Files) {v : Keyring} (h : Holds fs v) (dir : Text) (f : KeyFile)
      → namespace_dir root name ≡ ok dir
      → key_file_at p root fs dir ≡ ok f
      → view (keys_of f) ≡ v
  same_keys fs h dir f n r =
      let dirs : h.dir ≡ dir = cc (h.namespace.named, n) in
      let r' : key_file_at p root fs h.dir ≡ ok f = rw dirs r in
      let file : h.key_file ≡ f = cc (h.read, r') in
      ap (λ (g : KeyFile). view (keys_of g)) (sym file) ∙ sym h.stands_for

  -- the files and the keyring behind a call
  pub record Moved (v : Keyring) (c : Call) (r : Result Error Reply) (fs : Files) : Type 0 where
    pub after : Keyring
    pub holds : Holds fs after
    pub move : Move p root v after c r

  module _ (old : Files) (v : Keyring) (h : Holds old v) where
    Issued-with_key :
        (label : Text) (i : IssuedKey) (fs : Files)
        → Issued p root old name label i fs
        → (u : Keyring) × Holds fs u × (u ≡ with_key (key_for p root i) v)
    Issued-with_key label i fs d = (
      view (keys_of (add_key p root d.before (key_for p root i))),
      Holds-Updated old fs _ d.dir d.namespace d.after,
      view-append (keys_of d.before) (key_for p root i)
          ∙ ap (with_key (key_for p root i))
              (same_keys old h d.dir d.before d.namespace.named d.read),
    )

    Revoked-without_key :
        (id : Text) (fs : Files)
        → Revoked p root old name id fs
        → (u : Keyring) × Holds fs u × (u ≡ without_key id v) × ((k : Key) × (v id ≡ some k))
    Revoked-without_key id fs d =
        let q = revoke_in_inv id (keys_of d.before) d.dropped in
        let same_view = same_keys old h d.dir d.before d.namespace.named d.read in
        let there = view-has_id id (keys_of d.before) (q.0) in
        (
          view d.rest,
          Holds-Updated old fs _ d.dir d.namespace d.after,
          ap view (q.1) ∙ view-without_id id (keys_of d.before) ∙ ap (without_key id) same_view,
          (there.0, ap (λ (k : Keyring). k id) (sym same_view) ∙ there.1),
        )

    issue-Moved :
        (label : Text) (r : Result Error IssuedKey) (w : World)
        → Post (IssueEnds p root old name label) (Issued p root old name label) r w
        → Moved v (issue label) (reply issued r) w.files
    issue-Moved label (ok i) w d =
        let q = Issued-with_key label i w.files d in
        record { after = q.0; holds = q.1; move = did_issue label i d.formed (q.2) }
    issue-Moved label (err e) w (inl i) = record {
      after = v;
      holds = Holds-Intact old w.files i h;
      move = nothing (issue label) e refl;
    }
    issue-Moved label (err e) w (inr (i, d)) =
        let q = Issued-with_key label i w.files d in
        record { after = q.0; holds = q.1; move = issue_unseen label i e (q.2) }

    revoke-Moved :
        (id : Text) (r : Result Error (Unit {0})) (w : World)
        → Post (RevokeEnds p root old name id) (λ _. Revoked p root old name id) r w
        → Moved v (revoke id) (reply (λ _. revoked) r) w.files
    revoke-Moved id (ok u) w d =
        let q = Revoked-without_key id w.files d in
        record { after = q.0; holds = q.1; move = did_revoke id (q.3.0) (q.3.1) (q.2) }
    revoke-Moved id (err e) w (inl i) = record {
      after = v;
      holds = Holds-Intact old w.files i h;
      move = nothing (revoke id) e refl;
    }
    revoke-Moved id (err e) w (inr d) =
        let q = Revoked-without_key id w.files d in
        record { after = q.0; holds = q.1; move = revoke_unseen id e (q.2) }

    accept-Moved :
        (token : Text) (r : Result Error Key) (w : World)
        → Post (λ fs. fs ≡ old) (Accepted p root old name token) r w
        → Moved v (use_token token) (reply accepted r) w.files
    accept-Moved token (ok k) w a =
        let q = view-Admits a.admitted in
        let same_view = same_keys old h a.dir a.key_file a.namespace.named a.read in
        record {
          after = v;
          holds = rw a.same_files h;
          move =
              did_accept token a.id (q.0) k a.named
                (ap (λ (u : Keyring). u a.id) (sym same_view) ∙ q.1) (q.2) (q.3) refl;
        }
    accept-Moved token (err e) w same_files = record {
      after = v;
      holds = rw same_files h;
      move = nothing (use_token token) e refl;
    }

  perform-Moved :
      (c : Call) (w : World) {v : Keyring}
      → Holds w.files v
      → Moved v c (perform p root name c w).0 (perform p root name c w).1.files
  perform-Moved (issue label) w {v} h =
      issue-Moved w.files v h label _ _ ((issue_key-Ends p root w.files name label).run w refl)
  perform-Moved (revoke id) w {v} h =
      revoke-Moved w.files v h id _ _ ((revoke_key-Ends p root w.files name id).run w refl)
  perform-Moved (use_token token) w {v} h =
      accept-Moved w.files v h token _ _ ((authenticate-Ends p root w.files name token).run w refl)

  -- Any calls of IssueKey, RevokeKey and Authenticate on a namespace with a readable key file, one
  -- after the other and whichever system calls fail, do to its keys what the keyring's moves allow for
  -- their results, and leave a readable key file.
  pub perform_all-Moves :
      (cs : List Call) (w : World) (v : Keyring)
      → Holds w.files v
      → (u : Keyring) × Holds (perform_all p root name cs w).1.files u
        × Moves p root v u cs (perform_all p root name cs w).0
  unfolding perform_all
  perform_all-Moves [] w v h = (v, h, done)
  perform_all-Moves (c ∷ cs) w v h =
      let m = perform-Moved c w h in
      let q = perform_all-Moves cs (perform p root name c w).1 m.after m.holds in
      (q.0, q.1, step m.move (q.2))
