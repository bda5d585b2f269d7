-- ===== src/Namespace/Atomic/Left.antt =====
-- What else than its file an atomic write touches: at most one new temporary file.
use contextq_server.Prelude.{ℕ, ◌≡◌, refl, ◌⊎◌, inl, inr, true, false, Option, none, Bytes}
use contextq_server.Os.{FilePath, Files, Io, same_path, put, remove, finally}
use contextq_server.Os.Ends.{
  Ends, Ends-bind, Ends-syscall, Ends-finally, Ends-weaken, Ends-keeps, Ends-pair,
}
use contextq_server.Os.Temp.{
  is_temp, blank, temp_prefix, Marks-temp_prefix, Fresh, same_path_refl, temp_apart,
  create_temp-Ends,
}
use contextq_server.Namespace.Data.{Codec}
use contextq_server.Namespace.Atomic.{write_json_atomic}
use contextq_server.Namespace.Atomic.Write.{
  Frame, Staged, Either, Installed, Whole, Saved, Staged-Fresh, remove-Ends, fill-Ends, write-Ends,
}

-- Every file is as it was, but `path` and perhaps one temporary file that was not there.
abbrev pub OneLeft : Files → FilePath → Files → Type 0
OneLeft old path fs =
    ((q : FilePath) → same_path path q ≡ false → fs q ≡ old q)
    ⊎ ((tmp : FilePath) × (is_temp tmp ≡ true)
        × (old tmp ≡ none)
        × ((q : FilePath) → same_path tmp q ≡ false → same_path path q ≡ false → fs q ≡ old q))

module _ (text : Option Bytes) (old : Files) (path : FilePath) (mode : ℕ) (tmp : FilePath) where
  abbrev Framed : Files → Type 0
  Framed = Frame text old path mode tmp

  Framed-Either : (fs : Files) → Either text old path mode tmp fs → Framed fs
  Framed-Either fs (inl h) = h.1
  Framed-Either fs (inr h) = h.3

  Framed-put : (fs : Files) → Framed fs → Framed (put tmp none fs)
  unfolding put
  Framed-put fs h q a b = rw a (h q a b)

  -- a body that fills the temporary file and renames it, the temporary file removed
  pub finish-Framed :
      {m : Io (Unit {0})}
      → is_temp path ≡ false
      → is_temp tmp ≡ true
      → (same_path tmp tmp ≡ true
          → same_path tmp path ≡ false
          → same_path path path ≡ true
          → Ends
              (Staged text old path mode tmp blank)
              (Either text old path mode tmp)
              (λ _. Installed text old path mode tmp)
              m)
      → Ends (Fresh old tmp) Framed (λ _. Framed) (finally m (remove tmp))
  finish-Framed n named body =
      Ends-finally (remove tmp)
        (Ends-weaken (body (same_path_refl tmp) (temp_apart tmp path named n) (same_path_refl path))
          (Staged-Fresh text old path mode n tmp named) Framed-Either (λ _ fs h. h.3))
        (Ends-keeps (remove-Ends text old path mode n tmp named Framed Framed-put))
        (λ _. Ends-keeps (remove-Ends text old path mode n tmp named Framed Framed-put))

module _ {A : Type 0} (c : Codec A) (old : Files) (path : FilePath) (v : A) (mode : ℕ) where
  write-OneLeft :
      is_temp path ≡ false
      → Ends
          (λ fs. fs ≡ old)
          (OneLeft old path)
          (λ _. OneLeft old path)
          (write_json_atomic c path v mode)
  unfolding write_json_atomic
  write-OneLeft n = Ends-bind {Q = λ _ fs. fs ≡ old} (Ends-syscall (λ fs h. inl (λ q _. rw h))) λ _.
      Ends-bind
        (create_temp-Ends (OneLeft old path) old path.dir temp_prefix Marks-temp_prefix
          (inl (λ q _. refl)))
        λ tmp. record {
          run = λ w h.
              (Ends-weaken
                  (finish-Framed (c.encode v) old path mode tmp n h.named
                    (fill-Ends c old path v mode tmp))
                  (λ fs k. k) (λ fs k. inr (tmp, h.named, h.unused, k))
                  (λ _ fs k. inr (tmp, h.named, h.unused, k))).run
                w h;
        }

  -- Whichever system call fails, the file at `path`, which is not named as a temporary file, is
  -- afterwards what it was or the whole JSON text of the value; where the write returns, it is the
  -- new text. Every other file is as it was, but for one temporary file at most, which was not there
  -- before and may be left behind.
  pub write-Leaves :
      is_temp path ≡ false
      → Ends
          (λ fs. fs ≡ old)
          (λ fs. Whole c old path v mode fs × OneLeft old path fs)
          (λ _ fs. Saved c old path v mode fs × OneLeft old path fs)
          (write_json_atomic c path v mode)
  write-Leaves n = Ends-pair (write-Ends c old path v mode n) (write-OneLeft n)
