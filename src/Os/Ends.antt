-- ===== src/Os/Ends.antt =====
-- Rules for what an action leaves in the files, from files that meet `P`: `E` holds where it fails,
-- and `R` of the value where it returns one.
use mathlib.Core.Path.{subst}
use contextq_server.Prelude.{
  ◌≡◌, refl, sym, Bool, true, false, Option, none, some, Result, ok, err, if◌then◌else◌,
}
use contextq_server.Errors.{Error, io_failure}
use contextq_server.Os.{
  FilePath, File, Files, World, Io, pure, raise, lift, ◌>>=◌, ◌>>◌, continue, finally, syscall,
  update, found, at, next_fails, attempt, stat,
}

abbrev pub Post :
    {A : Type 0} → (Files → Type 0) → (A → Files → Type 0) → Result Error A → World → Type 0
Post E R (ok a) w = R a w.files
Post E R (err e) w = E w.files

pub record Ends {A : Type 0} (P E : Files → Type 0) (R : A → Files → Type 0) (m : Io A)
    : Type 0 where
  pub run : (w : World) → P w.files → Post E R (m w).0 (m w).1

Post-lift :
    {A : Type 0} (E : Files → Type 0) (R : A → Files → Type 0) (r : Result Error A) (w : World)
    → ((e : Error) → r ≡ err e → E w.files)
    → ((a : A) → r ≡ ok a → R a w.files)
    → Post E R r w
Post-lift E R (ok a) w he hr = hr a refl
Post-lift E R (err e) w he hr = he e refl

Post-finally :
    {A B : Type 0} (E : Files → Type 0) (R : A → Files → Type 0) (r : Result Error A) (after : Io B)
    (w : World)
    → Post E R r w
    → (E w.files → E (after w).1.files)
    → ((a : A) → R a w.files → R a (after w).1.files)
    → Post E R r (after w).1
Post-finally E R (ok a) after w h ke kr = kr a h
Post-finally E R (err e) after w h ke kr = ke h

Post-syscall :
    (E P : Files → Type 0) (b : Bool) (w : World)
    → P w.files
    → E w.files
    → Post {A = Unit {0}} E (λ _. P) (if b then err io_failure else ok tt) w
Post-syscall E P true w p e = e
Post-syscall E P false w p e = p

module _ {A : Type 0} {P E : Files → Type 0} {R : A → Files → Type 0} where
  pub Ends-pure : (a : A) → ((fs : Files) → P fs → R a fs) → Ends P E R (pure a)
  Ends-pure a h = record { run = λ w p. h w.files p }

  pub Ends-raise : (e : Error) → ((fs : Files) → P fs → E fs) → Ends P E R (raise e)
  Ends-raise e h = record { run = λ w p. h w.files p }

  pub Ends-lift :
      (r : Result Error A)
      → ((fs : Files) → P fs → E fs)
      → ((a : A) (fs : Files) → r ≡ ok a → P fs → R a fs)
      → Ends P E R (lift r)
  Ends-lift r he hr = record {
    run = λ w p. Post-lift E R r w (λ _ _. he w.files p) (λ a q. hr a w.files q p);
  }

Post-continue :
    {A B : Type 0} (E : Files → Type 0) (Q : A → Files → Type 0) (R : B → Files → Type 0)
    (r : Result Error A) (f : A → Io B) (w : World)
    → Post E Q r w
    → ((a : A) → Ends (Q a) E R (f a))
    → Post E R (continue r f w).0 (continue r f w).1
Post-continue E Q R (ok a) f w h k = (k a).run w h
Post-continue E Q R (err e) f w h k = h

module _ {A B : Type 0} {P E : Files → Type 0} {Q : A → Files → Type 0}
    {R : B → Files → Type 0} where
  pub Ends-bind :
      {m : Io A} {f : A → Io B}
      → Ends P E Q m
      → ((a : A) → Ends (Q a) E R (f a))
      → Ends P E R (m >>= f)
  Ends-bind {m} {f} h k = record {
    run = λ w p. Post-continue E Q R (m w).0 f (m w).1 (h.run w p) k;
  }

module _ {A B : Type 0} {P E : Files → Type 0} {R : A → Files → Type 0} where
  -- What a deferred call must keep.
  pub Ends-finally :
      {m : Io A} (after : Io B)
      → Ends P E R m
      → ((w : World) → E w.files → E (after w).1.files)
      → ((a : A) (w : World) → R a w.files → R a (after w).1.files)
      → Ends P E R (finally m after)
  Ends-finally {m} after h ke kr = record {
    run =
        λ w p. Post-finally E R (m w).0 after (m w).1 (h.run w p) (ke (m w).1) (λ a. kr a (m w).1);
  }

module _ {P E : Files → Type 0} where
  pub Ends-syscall : ((fs : Files) → P fs → E fs) → Ends P E (λ _. P) syscall
  unfolding syscall
  Ends-syscall h = record { run = λ w p. Post-syscall E P (next_fails w.faults) _ p (h w.files p) }

Post-at :
    (P E : Files → Type 0) (p : FilePath) (o : Option File) (w : World)
    → w.files p ≡ o
    → P w.files
    → E w.files
    → Post E (λ f fs. P fs × (fs p ≡ some f)) (found o) w
Post-at P E p none w q h e = e
Post-at P E p (some f) w q h e = (h, q)

module _ {P E : Files → Type 0} where
  pub Ends-at :
      (p : FilePath)
      → ((fs : Files) → P fs → E fs)
      → Ends P E (λ f fs. P fs × (fs p ≡ some f)) (at p)
  Ends-at p h = record { run = λ w q. Post-at P E p (w.files p) w refl q (h w.files q) }

module _ {P E Q : Files → Type 0} where
  pub Ends-update :
      (f : Files → Files) → ((fs : Files) → P fs → Q (f fs)) → Ends P E (λ _. Q) (update f)
  Ends-update f h = record { run = λ w p. h w.files p }

module _ {P E Q : Files → Type 0} where
  -- A call that reads a file and then writes it: what it does to the file decides what it leaves.
  pub Ends-edit :
      (p : FilePath) (g : File → Files → Files)
      → ((fs : Files) → P fs → E fs)
      → ((f : File) (fs : Files) → P fs → fs p ≡ some f → Q (g f fs))
      → Ends P E (λ _. Q) (do syscall; f ← at p; update (g f))
  Ends-edit p g he hq = Ends-bind (Ends-syscall he) (λ _.
      Ends-bind {Q = λ f fs. P fs × (fs p ≡ some f)} (Ends-at p he)
        (λ f. Ends-update {P = λ fs. P fs × (fs p ≡ some f)} (g f) (λ fs h. hq f fs h.0 h.1)))

Post-weaken :
    {A : Type 0} {E E' : Files → Type 0} {R R' : A → Files → Type 0}
    (he : (fs : Files) → E fs → E' fs) (hr : (a : A) (fs : Files) → R a fs → R' a fs)
    (r : Result Error A) (w : World)
    → Post E R r w
    → Post E' R' r w
Post-weaken he hr (ok a) w h = hr a w.files h
Post-weaken he hr (err e) w h = he w.files h

module _ {A : Type 0} {P P' E E' : Files → Type 0} {R R' : A → Files → Type 0} where
  pub Ends-weaken :
      {m : Io A}
      → Ends P E R m
      → ((fs : Files) → P' fs → P fs)
      → ((fs : Files) → E fs → E' fs)
      → ((a : A) (fs : Files) → R a fs → R' a fs)
      → Ends P' E' R' m
  Ends-weaken {m} h hp he hr = record {
    run = λ w p. Post-weaken he hr (m w).0 (m w).1 (h.run w (hp w.files p));
  }

Post-keeps :
    {A : Type 0} (P : Files → Type 0) (r : Result Error A) (w : World)
    → Post P (λ _. P) r w
    → P w.files
Post-keeps P (ok a) w h = h
Post-keeps P (err e) w h = h

-- What holds of the files after an action, whether it fails or not.
pub Ends-keeps :
    {A : Type 0} {P Q : Files → Type 0} {m : Io A}
    → Ends P Q (λ _. Q) m
    → (w : World) → P w.files
    → Q (m w).1.files
Ends-keeps {Q} {m} h w p = Post-keeps Q (m w).0 (m w).1 (h.run w p)

Post-both :
    {A : Type 0} (E P : Files → Type 0) (r : Result Error A) (w : World)
    → E w.files
    → P w.files
    → Post E (λ _. P) r w
Post-both E P (ok a) w e h = h
Post-both E P (err x) w e h = e

-- An action that writes no file.
pub Ends-still :
    {A : Type 0} {P E : Files → Type 0} (m : Io A)
    → ((w : World) → (m w).1.files ≡ w.files)
    → ((fs : Files) → P fs → E fs)
    → Ends P E (λ _. P) m
Ends-still {P} {E} m still he = record {
  run = λ w h.
      let here : P (m w).1.files = subst P (sym (still w)) h in
      Post-both E P (m w).0 (m w).1 (he _ here) here;
}

abbrev pub Outcome :
    {A : Type 0} → (Files → Type 0) → (A → Files → Type 0) → Result Error A → Files → Type 0
Outcome E R (ok a) fs = R a fs
Outcome E R (err e) fs = E fs

Outcome-Post :
    {A : Type 0} (E : Files → Type 0) (R : A → Files → Type 0) (r : Result Error A) (w : World)
    → Post E R r w
    → Outcome E R r w.files
Outcome-Post E R (ok a) w h = h
Outcome-Post E R (err e) w h = h

pub Ends-attempt :
    {A : Type 0} {P E F : Files → Type 0} {R : A → Files → Type 0} {m : Io A}
    → Ends P F R m
    → Ends P E (Outcome F R) (attempt m)
Ends-attempt {F} {R} {m} h = record { run = λ w p. Outcome-Post F R (m w).0 (m w).1 (h.run w p) }

pub Ends-stat :
    {P E : Files → Type 0} (path : FilePath)
    → ((fs : Files) → P fs → E fs)
    → Ends P E (λ _ fs. (f : File) × (fs path ≡ some f) × P fs) (stat path)
unfolding stat
Ends-stat {P} path he = Ends-bind (Ends-syscall he) λ _.
    Ends-bind {Q = λ f fs. P fs × (fs path ≡ some f)} (Ends-at path he)
      λ f. Ends-pure tt (λ fs h. (f, h.1, h.0))

-- A fact that the files at the start imply may be used for the rest.
pub Ends-given :
    {A G : Type 0} {P E : Files → Type 0} {R : A → Files → Type 0} {m : Io A}
    → ((fs : Files) → P fs → G)
    → (G → Ends P E R m)
    → Ends P E R m
Ends-given fact h = record { run = λ w p. (h (fact w.files p)).run w p }

Post-ok :
    {A : Type 0} (E : Files → Type 0) (R : A → Files → Type 0) (r : Result Error A) (w : World)
    {a : A}
    → r ≡ ok a
    → Post E R r w
    → R a w.files
Post-ok E R (ok b) w {a} e h = let q : b ≡ a = cc e in rw q at h
Post-ok E R (err x) w e h = cc e

-- What an action that returned `a` has left.
pub Ends-ok :
    {A : Type 0} {P E : Files → Type 0} {R : A → Files → Type 0} {m : Io A}
    → Ends P E R m
    → (w : World) {a : A} → P w.files
    → (m w).0 ≡ ok a
    → R a (m w).1.files
Ends-ok {E} {R} {m} h w p e = Post-ok E R (m w).0 (m w).1 e (h.run w p)

Post-pair :
    {A : Type 0} (E F : Files → Type 0) (Q R : A → Files → Type 0) (r : Result Error A) (w : World)
    → Post E Q r w
    → Post F R r w
    → Post (λ fs. E fs × F fs) (λ a fs. Q a fs × R a fs) r w
Post-pair E F Q R (ok a) w h k = (h, k)
Post-pair E F Q R (err e) w h k = (h, k)

-- two facts of one action
pub Ends-pair :
    {A : Type 0} {P E F : Files → Type 0} {Q R : A → Files → Type 0} {m : Io A}
    → Ends P E Q m
    → Ends P F R m
    → Ends P (λ fs. E fs × F fs) (λ a fs. Q a fs × R a fs) m
Ends-pair {E} {F} {Q} {R} {m} h k = record {
  run = λ w p. Post-pair E F Q R (m w).0 (m w).1 (h.run w p) (k.run w p);
}
