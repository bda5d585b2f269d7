-- ===== src/Namespace/Atomic/Write.antt =====
-- What an atomic write leaves, whichever of its system calls fails.
use contextq_server.Prelude.{
  ℕ, ◌≡◌, refl, ◌⊎◌, inl, inr, Bool-cases, true, false, Option, none, some, [], arith, Bytes,
}
use contextq_server.Os.{FilePath, File, Files, Io, same_path, put, rename, chmod, remove, finally}
use contextq_server.Os.Effects.{same_path_iff}
use contextq_server.Os.Ends.{
  Ends, Ends-bind, Ends-raise, Ends-syscall, Ends-edit, Ends-finally, Ends-weaken, Ends-keeps,
}
use contextq_server.Os.Temp.{
  is_temp, blank, temp_prefix, Marks-temp_prefix, Fresh, same_path_refl, temp_apart,
  create_temp-Ends,
}
use contextq_server.Namespace.Data.{Codec}
use contextq_server.Namespace.Atomic.{encode_to, fill, write_json_atomic}

module _ (text : Option Bytes) (old : Files) (path : FilePath) (mode : ℕ) (tmp : FilePath) where
  -- Every file but `path` and `tmp` is as it was.
  abbrev pub Frame : Files → Type 0
  Frame fs = (q : FilePath) → same_path tmp q ≡ false → same_path path q ≡ false → fs q ≡ old q

  abbrev pub Untouched : Files → Type 0
  Untouched fs = (fs path ≡ old path) × Frame fs

  abbrev pub Installed : Files → Type 0
  Installed fs =
      (b : Bytes) × (text ≡ some b)
      × (fs path ≡ some (record { mode = mode; content = b }))
      × Frame fs

  abbrev pub Either : Files → Type 0
  Either fs = Untouched fs ⊎ Installed fs

  abbrev pub Staged : File → Files → Type 0
  Staged f fs = (fs tmp ≡ some f) × Untouched fs

  abbrev pub Written : Files → Type 0
  Written fs = (b : Bytes) × (text ≡ some b) × Staged (record { mode = mode; content = b }) fs

  module _ (self : same_path tmp tmp ≡ true) (apart : same_path tmp path ≡ false)
      (path_self : same_path path path ≡ true) where
    pub chmod-Ends :
        Ends
          (Staged (record { mode = 0o600; content = [] }))
          Either
          (λ _. Staged (record { mode = mode; content = [] }))
          (chmod tmp mode)
    unfolding chmod
    chmod-Ends =
        Ends-edit tmp _ (λ fs h. inl h.1)
          (λ f fs h e. (ground arith, (ground arith, λ q hq hp. ground (arith, h.1.1 q hq hp))))

    pub encode_to-Ends :
        (o : Option Bytes)
        → text ≡ o
        → Ends
            (Staged (record { mode = mode; content = [] }))
            Either
            (λ _. Written)
            (encode_to tmp o)
    unfolding encode_to
    encode_to-Ends none e = Ends-raise _ (λ fs h. inl h.1)
    encode_to-Ends (some b) e =
        Ends-edit tmp _ (λ fs h. inl h.1)
          (λ f fs h g.
            (b, e, (ground arith, (ground arith, λ q hq hp. ground (arith, h.1.1 q hq hp)))))

    pub rename-Ends : Ends Written Either (λ _. Installed) (rename tmp path)
    unfolding rename
    rename-Ends =
        Ends-edit tmp _ (λ fs h. inl h.2.1)
          (λ f fs h e.
            (h.0, h.1, ground (arith, h.2.0), λ q hq hp. ground (arith, h.2.1.1 q hq hp)))

-- The files of the program are as in `old`; temporary files are not looked at.
abbrev pub Same : Files → Files → Type 0
Same old fs = (q : FilePath) → is_temp q ≡ false → fs q ≡ old q

-- `path` holds the new file, and the other files are as in `old`.
pub record Replaced (old : Files) (path : FilePath) (f : File) (fs : Files) : Type 0 where
  pub there : fs path ≡ some f
  pub kept : (q : FilePath) → is_temp q ≡ false → same_path path q ≡ false → fs q ≡ old q

module _ (text : Option Bytes) (old : Files) (path : FilePath) (mode : ℕ) where
  -- `path` holds the whole text.
  abbrev pub SavedText : Files → Type 0
  SavedText fs =
      (b : Bytes) × (text ≡ some b) × Replaced old path (record { mode = mode; content = b }) fs

  abbrev pub WholeText : Files → Type 0
  WholeText fs = Same old fs ⊎ SavedText fs

  module _ (not_temp : is_temp path ≡ false) (tmp : FilePath) (tmp_named : is_temp tmp ≡ true) where
    Same-put : (fs : Files) → Same old fs → Same old (put tmp none fs)
    unfolding put
    Same-put fs h q n = rw (temp_apart tmp q tmp_named n) (h q n)

    Replaced-put :
        (f : File) (fs : Files) → Replaced old path f fs → Replaced old path f (put tmp none fs)
    unfolding put
    Replaced-put f fs h = record {
      there = rw (temp_apart tmp path tmp_named not_temp) h.there;
      kept = λ q n a. rw (temp_apart tmp q tmp_named n) (h.kept q n a);
    }

    Saved-put : (fs : Files) → SavedText fs → SavedText (put tmp none fs)
    Saved-put fs h = (h.0, h.1, Replaced-put _ fs h.2)

    Whole-put : (fs : Files) → WholeText fs → WholeText (put tmp none fs)
    Whole-put fs (inl h) = inl (Same-put fs h)
    Whole-put fs (inr h) = inr (Saved-put fs h)

    pub Staged-Fresh :
        (fs : Files)
        → Fresh old tmp fs
        → Staged text old path mode tmp (record { mode = 0o600; content = [] }) fs
    Staged-Fresh fs h =
        (h.created, (h.kept path (temp_apart tmp path tmp_named not_temp), λ q a _. h.kept q a))

    Same-Untouched : (fs : Files) → Untouched text old path mode tmp fs → Same old fs
    Same-Untouched fs h q n = elim (Bool-cases (same_path path q)) [
      | inl e ↦ let p : path ≡ q = (same_path_iff path q).0 e in rw (← p) h.0
      | inr e ↦ h.1 q (temp_apart tmp q tmp_named n) e
    ]

    Saved-Installed : (fs : Files) → Installed text old path mode tmp fs → SavedText fs
    Saved-Installed fs h =
        (h.0, h.1, record { there = h.2; kept = λ q n a. h.3 q (temp_apart tmp q tmp_named n) a })

    Whole-Either : (fs : Files) → Either text old path mode tmp fs → WholeText fs
    Whole-Either fs (inl h) = inl (Same-Untouched fs h)
    Whole-Either fs (inr h) = inr (Saved-Installed fs h)

    pub remove-Ends :
        (P : Files → Type 0)
        → ((fs : Files) → P fs → P (put tmp none fs))
        → Ends P P (λ _. P) (remove tmp)
    unfolding remove
    remove-Ends P keep = Ends-edit tmp _ (λ fs h. h) (λ f fs h _. keep fs h)

    -- what a body that fills the temporary file and renames it leaves, the temporary file removed
    pub finish-Ends :
        {m : Io (Unit {0})}
        → (same_path tmp tmp ≡ true
            → same_path tmp path ≡ false
            → same_path path path ≡ true
            → Ends
                (Staged text old path mode tmp blank)
                (Either text old path mode tmp)
                (λ _. Installed text old path mode tmp)
                m)
        → Ends (Fresh old tmp) WholeText (λ _. SavedText) (finally m (remove tmp))
    finish-Ends body =
        Ends-finally (remove tmp)
          (Ends-weaken
            (body (same_path_refl tmp) (temp_apart tmp path tmp_named not_temp)
              (same_path_refl path))
            Staged-Fresh Whole-Either (λ _. Saved-Installed))
          (Ends-keeps (remove-Ends WholeText Whole-put))
          (λ _. Ends-keeps (remove-Ends SavedText Saved-put))

module _ {A : Type 0} (c : Codec A) (old : Files) (path : FilePath) (v : A) (mode : ℕ) where
  -- `path` holds the whole JSON text of `v`.
  abbrev pub Saved : Files → Type 0
  Saved = SavedText (c.encode v) old path mode

  abbrev pub Whole : Files → Type 0
  Whole = WholeText (c.encode v) old path mode

  pub fill-Ends :
      (tmp : FilePath)
      → same_path tmp tmp ≡ true
      → same_path tmp path ≡ false
      → same_path path path ≡ true
      → Ends
          (Staged (c.encode v) old path mode tmp blank)
          (Either (c.encode v) old path mode tmp)
          (λ _. Installed (c.encode v) old path mode tmp)
          (fill c tmp path v mode)
  unfolding fill
  fill-Ends tmp self apart path_self =
      let text = c.encode v in
      Ends-bind (chmod-Ends text old path mode tmp self apart path_self) λ _.
        Ends-bind (encode_to-Ends text old path mode tmp self apart path_self text refl) λ _.
          Ends-bind (Ends-syscall (λ fs h. inl h.2.1)) λ _.
            Ends-bind (Ends-syscall (λ fs h. inl h.2.1)) λ _.
              Ends-bind (rename-Ends text old path mode tmp self apart path_self)
                λ _. Ends-bind (Ends-syscall (λ fs h. inr h)) λ _. Ends-syscall (λ fs h. inr h)

  -- Whichever system call fails, the file at `path`, which is not named as a temporary file, is
  -- afterwards what it was or the whole JSON text of the value; where the write returns, it is the
  -- new text. No other file has changed but those that are named as temporary files, of which one may
  -- be left behind.
  pub write-Ends :
      is_temp path ≡ false
      → Ends (λ fs. fs ≡ old) Whole (λ _. Saved) (write_json_atomic c path v mode)
  unfolding write_json_atomic
  write-Ends n = Ends-bind {Q = λ _ fs. fs ≡ old} (Ends-syscall (λ fs h. inl (λ q _. rw h))) λ _.
      Ends-bind
        (create_temp-Ends Whole old path.dir temp_prefix Marks-temp_prefix (inl (λ q _. refl)))
        λ tmp. record {
          run =
              λ w h. (finish-Ends (c.encode v) old path mode n tmp h.named (fill-Ends tmp)).run w h;
        }
