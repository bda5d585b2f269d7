-- ===== src/Os.antt =====
-- The operating system, as the program uses it: a file system whose calls may fail, a random
-- source, and a clock. A run of system calls is an action on the world.
pub mod Effects
pub mod Ends
pub mod Temp
pub mod Lock
pub mod Random
use contextq_server.Prelude.{
  ℕ, ◌%◌, map, Bool, true, false, ◌&&◌, List, [], ◌∷◌, ◌++◌, Option, none, some, arith, leb, take,
  drop, length, Result, ok, err, if◌then◌else◌, Text, Bytes, codes, same, same_iff,
}
use contextq_server.Errors.{Error, not_exist, io_failure, no_entropy}

-- A path, as its directory and its last element.
pub record FilePath : Type 0 where
  pub dir : Text
  pub base : Text

unfoldable pub same_path : FilePath → FilePath → Bool
unfolding same
same_path p q = same p.dir q.dir && same p.base q.base

pub record File : Type 0 where
  pub mode : ℕ
  pub content : Bytes

abbrev pub Files : Type 0
Files = FilePath → Option File

-- `faults` says of each system call to come whether it fails; past its end calls succeed.
-- `suffixes` are the names that os.CreateTemp will draw.
pub record World : Type 0 where
  pub files : Files
  pub faults : List Bool
  pub entropy : List ℕ
  pub suffixes : List Text
  pub time : ℕ

abbrev pub Io : Type 0 → Type 0
Io A = World → Result Error A × World

abbrev pub pure : {A : Type 0} → A → Io A
pure a w = (ok a, w)

abbrev pub raise : {A : Type 0} → Error → Io A
raise e w = (err e, w)

abbrev pub continue : {A B : Type 0} → Result Error A → (A → Io B) → Io B
continue (ok a) f w = f a w
continue (err e) f w = (err e, w)

infixl 5 ◌>>=◌ ◌>>◌
abbrev pub ◌>>=◌ : {A B : Type 0} → Io A → (A → Io B) → Io B
◌>>=◌ m f w = continue (m w).0 f (m w).1

abbrev pub ◌>>◌ : {A B : Type 0} → Io A → Io B → Io B
m >> n = m >>= λ _. n

-- `defer`: `after` runs whatever `m` returns, and its own result is dropped.
abbrev pub finally : {A B : Type 0} → Io A → Io B → Io A
finally m after w = ((m w).0, (after (m w).1).1)

abbrev pub lift : {A : Type 0} → Result Error A → Io A
lift r w = (r, w)

abbrev pub next_fails : List Bool → Bool
next_fails [] = false
next_fails (f ∷ fs) = f

abbrev pub later : List Bool → List Bool
later [] = []
later (f ∷ fs) = fs

-- A system call that only succeeds or fails.
unfoldable pub syscall : Io (Unit {0})
syscall w =
    (if next_fails w.faults then err io_failure else ok tt, record w { faults = later w.faults })

abbrev pub update : (Files → Files) → Io (Unit {0})
update f w = (ok tt, record w { files = f w.files })

unfoldable pub put : FilePath → Option File → Files → Files
put p v files q = if same_path p q then v else files q

abbrev pub found : Option File → Result Error File
found none = err not_exist
found (some f) = ok f

abbrev pub at : FilePath → Io File
at p w = (found (w.files p), w)

-- File.Chmod
unfoldable pub chmod : FilePath → ℕ → Io (Unit {0})
unfolding syscall put
chmod p mode = do syscall; f ← at p; update (put p (some (record f { mode = mode })))

-- Writing the whole content of an empty file.
unfoldable pub write : FilePath → Bytes → Io (Unit {0})
unfolding syscall put
write p b = do syscall; f ← at p; update (put p (some (record f { content = b })))

-- os.Remove
unfoldable pub remove : FilePath → Io (Unit {0})
unfolding syscall put
remove p = do syscall; f ← at p; update (put p none)

-- os.Rename: the old name is gone, and the new name holds the file.
unfoldable pub rename : FilePath → FilePath → Io (Unit {0})
unfolding syscall put
rename from to = do syscall; f ← at from; update (λ files. put from none (put to (some f) files))

-- os.Stat
unfoldable pub stat : FilePath → Io (Unit {0})
unfolding syscall
stat p = do syscall; f ← at p; pure tt

-- os.Open and reading to the end
unfoldable pub read_file : FilePath → Io Bytes
unfolding syscall
read_file p = do syscall; f ← at p; pure f.content

-- os.CreateTemp(dir, prefix+"*"): draws names until one is free.
draw : Text → Text → List Text → World → Result Error FilePath × World
draw dir prefix [] w = (err io_failure, record w { suffixes = [] })
draw dir prefix (s ∷ rest) w =
    let p : FilePath = record { dir = dir; base = prefix ++ s } in
    let again = draw dir prefix rest w in
    elim (w.files p) [
      | none ↦ (
        ok p,
        record w {
          suffixes = rest;
          files = put p (some (record { mode = 0o600; content = [] })) w.files;
        },
      )
      | some f ↦ again
    ]

unfoldable pub create_temp : Text → Text → Io FilePath
unfolding syscall draw put
create_temp dir prefix = do syscall; λ w. draw dir prefix w.suffixes w

-- io.ReadFull(rand.Reader, b) with len(b) = n. The source's numbers are read as bytes.
unfoldable pub random_bytes : ℕ → Io Bytes
random_bytes n w =
    if leb n (length w.entropy)
    then (ok (map (λ b. b % 256) (take n w.entropy)), record w { entropy = drop n w.entropy })
    else (err no_entropy, w)

-- The error is looked at by the caller.
abbrev pub attempt : {A : Type 0} → Io A → Io (Result Error A)
attempt m w = (ok (m w).0, (m w).1)

abbrev pub created : Option File → File
created none = record { mode = 0o600; content = [] }
created (some f) = f

-- withLock: opens the lock file, which is made if it is missing, takes the lock, runs `fn`, and then
-- unlocks and closes. Waiting for another holder is not a step of this process.
unfoldable pub with_lock : {A : Type 0} → FilePath → Io A → Io A
unfolding syscall put
with_lock path fn = do
  syscall
  update (λ files. put path (some (created (files path))) files)
  finally (do syscall; finally fn syscall) syscall

abbrev pub now : Io ℕ
now w = (ok w.time, w)
