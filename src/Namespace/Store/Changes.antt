-- ===== src/Namespace/Store/Changes.antt =====
-- What a store operation that rewrites the key file leaves in the files.
use contextq_server.Prelude.{
  ◌≡◌, refl, true, false, Bool, ◌&&◌, not, ◌⊎◌, inl, inr, Result, ok, err, List, arith, Text, codes,
  same, some, ap, sym, ◌∙◌, Bool-cases, same_iff,
}
use contextq_server.Errors.{Error}
use contextq_server.Strings.{has_prefix}
use contextq_server.Os.{FilePath, File, Files, same_path, put}
use contextq_server.Os.Effects.{same_path_iff}
use contextq_server.Os.Temp.{is_temp}
use contextq_server.Os.Lock.{locked}
use contextq_server.Os.Ends.{Ends, Ends-weaken}
use contextq_server.Namespace.Data.{Key, KeyFile}
use contextq_server.Namespace.Keys.{check_version}
use contextq_server.Namespace.Atomic.Write.{Saved, Whole, write-Ends}
use contextq_server.Namespace.Atomic.Read.{value_of-encode}
use contextq_server.Namespace.Store.{Platform, keys_path, keys_lock, write_key_file}
use contextq_server.Namespace.Store.Files.{key_file_at, checked}

-- Neither a lock file nor a temporary one.
abbrev pub is_data : FilePath → Bool
is_data q = not (is_temp q) && not (same q.base (codes ".keys.lock"))

-- No data has changed.
abbrev pub Intact : Files → Files → Type 0
Intact old fs = (q : FilePath) → is_data q ≡ true → fs q ≡ old q

not_and : (a b : Bool) → (not a && not b) ≡ true → (a ≡ false) × (b ≡ false)
not_and a b h = ground arith

pub data_not_temp : (q : FilePath) → is_data q ≡ true → is_temp q ≡ false
data_not_temp q h = (not_and (is_temp q) (same q.base (codes ".keys.lock")) h).0

lock_apart : (dir : Text) (q : FilePath) → is_data q ≡ true → same_path (keys_lock dir) q ≡ false
lock_apart dir q h = elim (Bool-cases (same_path (keys_lock dir) q)) [
  | inl e ↦
      let path : keys_lock dir ≡ q = (same_path_iff (keys_lock dir) q).0 e in
      let base : q.base ≡ codes ".keys.lock" = ap (λ (r : FilePath). r.base) (sym path) in
      let no : same q.base (codes ".keys.lock") ≡ false = (not_and (is_temp q) _ h).1 in
      cc (no, (same_iff q.base (codes ".keys.lock")).1 base)
  | inr e ↦ e
]

pub locked-data :
    (old : Files) (dir : Text) (q : FilePath)
    → is_data q ≡ true
    → locked (keys_lock dir) old q ≡ old q
unfolding put
locked-data old dir q h = rw (lock_apart dir q h)

pub keys_path-data : (dir : Text) → is_data (keys_path dir) ≡ true
unfolding has_prefix same
keys_path-data dir = refl

keys_path-not_temp : (dir : Text) → is_temp (keys_path dir) ≡ false
unfolding has_prefix
keys_path-not_temp dir = refl

checked-set :
    (r : Result Error KeyFile) (f : KeyFile) (ks : List Key)
    → checked r ≡ ok f
    → check_version (record f { keys = some ks }) ≡ ok (record f { keys = some ks })
unfolding check_version
checked-set (ok g) f ks h = ground arith
checked-set (err e) f ks h = cc

module _ (p : Platform) (root : Text) where
  -- A key file that was read passes the test of its version with other keys, too.
  pub check_version-set :
      (old : Files) (dir : Text) (f : KeyFile) (ks : List Key)
      → key_file_at p root old dir ≡ ok f
      → check_version (record f { keys = some ks }) ≡ ok (record f { keys = some ks })
  check_version-set old dir f ks h = checked-set _ f ks h

  pub key_file_at-locked :
      (old : Files) (dir : Text) (fs : Files) {f : KeyFile}
      → fs ≡ locked (keys_lock dir) old
      → key_file_at p root fs dir ≡ ok f
      → key_file_at p root old dir ≡ ok f
  key_file_at-locked old dir fs e h =
      let same_file : fs (keys_path dir) ≡ old (keys_path dir) =
        ap (λ (g : Files). g (keys_path dir)) e
        ∙ locked-data old dir (keys_path dir) (keys_path-data dir) in
      rw same_file at h

  -- The key file of `dir` is `g`, readable by its owner alone, and no other data has changed.
  pub record Updated (old : Files) (dir : Text) (g : KeyFile) (fs : Files) : Type 0 where
    pub stored : key_file_at p root fs dir ≡ ok g
    pub file : File
    pub present : fs (keys_path dir) ≡ some file
    pub owner_only : file.mode ≡ 0o600
    pub kept :
        (q : FilePath) → is_data q ≡ true → same_path (keys_path dir) q ≡ false → fs q ≡ old q

  Updated-Saved :
      (old : Files) (dir : Text) (g : KeyFile) (fs : Files)
      → check_version g ≡ ok g
      → Saved p.key_files (locked (keys_lock dir) old) (keys_path dir) g 0o600 fs
      → Updated old dir g fs
  Updated-Saved old dir g fs n (b, e, h) = record {
    stored = rw (h.there, value_of-encode p.key_files g b 0o600 e) n;
    file = record { mode = 0o600; content = b };
    present = h.there;
    owner_only = refl;
    kept = λ q d a. h.kept q (data_not_temp q d) a ∙ locked-data old dir q d;
  }

  Whole-Updated :
      (old : Files) (dir : Text) (g : KeyFile) (fs : Files)
      → check_version g ≡ ok g
      → Whole p.key_files (locked (keys_lock dir) old) (keys_path dir) g 0o600 fs
      → Intact old fs ⊎ Updated old dir g fs
  Whole-Updated old dir g fs n (inl h) =
      inl (λ q d. h q (data_not_temp q d) ∙ locked-data old dir q d)
  Whole-Updated old dir g fs n (inr h) = inr (Updated-Saved old dir g fs n h)

  pub write_key_file-Ends :
      (old : Files) (dir : Text) (g : KeyFile)
      → check_version g ≡ ok g
      → Ends
          (λ fs. fs ≡ locked (keys_lock dir) old)
          (λ fs. Intact old fs ⊎ Updated old dir g fs)
          (λ _. Updated old dir g)
          (write_key_file p root dir g)
  unfolding write_key_file
  write_key_file-Ends old dir g n =
      Ends-weaken
        (write-Ends p.key_files (locked (keys_lock dir) old) (keys_path dir) g 0o600
          (keys_path-not_temp dir))
        (λ fs h. h) (λ fs. Whole-Updated old dir g fs n) (λ _ fs. Updated-Saved old dir g fs n)
