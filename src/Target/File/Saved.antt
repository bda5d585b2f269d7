-- ===== src/Target/File/Saved.antt =====
-- Saving the targets changes the file as a whole or not at all, and what is saved is loaded.
use mathlib.Core.Path.{subst}
use contextq_server.Prelude.{
  pos, is_nat, ◌≡◌, refl, sym, ◌∙◌, ap, ◌⊎◌, inl, inr, Bool-cases, true, false, not, ◌&&◌, Option,
  some, [], ◌∷◌, Result, ok, err, Text, Bytes, codes,
}
use contextq_server.Paths.{is_abs, path_dir}
use contextq_server.Os.{
  FilePath, File, Files, World, ◌>>=◌, same_path, create_temp, read_file, remove, finally,
}
use contextq_server.Os.Ends.{
  Ends, Ends-bind, Ends-lift, Ends-weaken, Ends-syscall, Ends-given, Ends-ok,
}
use contextq_server.Os.Temp.{is_temp, blank, config_prefix, Marks-config_prefix, create_temp-Ends}
use contextq_server.Namespace.Atomic.{decode_all}
use contextq_server.Namespace.Atomic.Write.{
  Staged, Either, Installed, chmod-Ends, encode_to-Ends, rename-Ends, Same, SavedText, finish-Ends,
}
use contextq_server.Namespace.Store.Authenticate.{calm}
use contextq_server.Target.Data.{Url, Config, TargetError}
use contextq_server.Target.Config.{validate_config}
use contextq_server.Target.Config.Valid.{validate_config_inv}
use contextq_server.Target.Config.Same.{SameConfig, validate_config-SameConfig}
use contextq_server.Target.File.{
  Env, NoControlPath, ConfigCodec, resolved_path, abs_path, chosen_path, file_of, checked_config,
  accept, loaded, load, save_to, save,
}

checked_config_inv :
    (r : Result TargetError Config) {c : Config} → checked_config r ≡ ok c → r ≡ ok c
unfolding checked_config
checked_config_inv (ok c) h = cc
checked_config_inv (err e) h = cc

abs_path_inv :
    (env : Env) (path : Text) {absolute : Text}
    → abs_path env path ≡ ok absolute
    → resolved_path env path ≡ absolute
unfolding abs_path
abs_path_inv env path h = elim (Bool-cases (not (is_abs path) && not env.getwd_works)) [
  | inl e ↦ cc (rw e at h)
  | inr e ↦ cc (rw e at h)
]

module _ (parse : Text → Option Url) (codec : ConfigCodec) (env : Env) where
  module _ (old : Files) (config : Config) (path : Text) where
    -- The file that the path names holds the whole text of the validated configuration, and all else
    -- is as it was.
    pub record SavedConfig (fs : Files) : Type 0 where
      pub valid : Config
      pub validated : validate_config parse config ≡ ok valid
      pub chosen : Text
      pub chosen_is : chosen_path env path ≡ ok chosen
      pub absolute : Text
      pub absolute_is : abs_path env chosen ≡ ok absolute
      pub text : SavedText (codec.encode valid) old (file_of absolute) 0o600 fs

    abbrev pub SaveEnds : Files → Type 0
    SaveEnds fs = Same old fs ⊎ SavedConfig fs

    pub save_to-Ends :
        (c : Config) (file tmp : FilePath)
        → same_path tmp tmp ≡ true
        → same_path tmp file ≡ false
        → same_path file file ≡ true
        → Ends
            (Staged (codec.encode c) old file 0o600 tmp blank)
            (Either (codec.encode c) old file 0o600 tmp)
            (λ _. Installed (codec.encode c) old file 0o600 tmp)
            (save_to parse codec env tmp file c)
    unfolding save_to
    save_to-Ends c file tmp self apart file_self =
        let text = codec.encode c in
        Ends-bind (chmod-Ends text old file 0o600 tmp self apart file_self) λ _.
          Ends-bind (encode_to-Ends text old file 0o600 tmp self apart file_self text refl) λ _.
            Ends-bind (Ends-syscall (λ fs h. inl h.2.1)) λ _.
              Ends-bind (Ends-syscall (λ fs h. inl h.2.1))
                λ _. rename-Ends text old file 0o600 tmp self apart file_self

    -- the facts that are known when the file is written
    saved_config :
        (c : Config) (p absolute : Text) (fs : Files)
        → checked_config (validate_config parse config) ≡ ok c
        → chosen_path env path ≡ ok p
        → abs_path env p ≡ ok absolute
        → SavedText (codec.encode c) old (file_of absolute) 0o600 fs
        → SavedConfig fs
    saved_config c p absolute fs v e a t = record {
      valid = c;
      validated = checked_config_inv (validate_config parse config) v;
      chosen = p;
      chosen_is = e;
      absolute = absolute;
      absolute_is = a;
      text = t;
    }

    abbrev Valid : Config → Type 0
    Valid c = checked_config (validate_config parse config) ≡ ok c

    abbrev Chosen : Text → Type 0
    Chosen p = chosen_path env path ≡ ok p

    abbrev Absolute : Text → Text → Type 0
    Absolute p a = abs_path env p ≡ ok a

    Same-eq : {fs : Files} → fs ≡ old → Same old fs
    Same-eq h q _ = rw h refl

    either :
        (c : Config) (p a : Text) (fs : Files)
        → Valid c
        → Chosen p
        → Absolute p a
        → Same old fs ⊎ SavedText (codec.encode c) old (file_of a) 0o600 fs
        → SaveEnds fs
    either c p a fs v e m (inl k) = inl k
    either c p a fs v e m (inr k) = inr (saved_config c p a fs v e m k)

    -- from os.CreateTemp on
    write_temp :
        (c : Config) (p a : Text)
        → Valid c
        → Chosen p
        → Absolute p a
        → is_temp (file_of a) ≡ false
        → Ends
            (λ fs. fs ≡ old)
            SaveEnds
            (λ _. SavedConfig)
            (create_temp (path_dir a) (codes ".contextq-server-") >>= λ tmp.
              finally (save_to parse codec env tmp (file_of a) c) (remove tmp))
    write_temp c p a v e m n =
        Ends-bind
          (create_temp-Ends SaveEnds old (path_dir a) config_prefix Marks-config_prefix
            (inl (λ q _. refl)))
          λ tmp. record {
            run = λ w h.
                (Ends-weaken
                    (finish-Ends (codec.encode c) old (file_of a) 0o600 n tmp h.named
                      (save_to-Ends c (file_of a) tmp))
                    (λ fs k. k) (λ fs k. either c p a fs v e m k)
                    (λ _ fs k. saved_config c p a fs v e m k)).run
                  w h;
          }

    -- Whichever system call fails, Save leaves every file whose name is not that of a temporary file
    -- as it was, or only the file that the path names changed, to the whole JSON text of the validated
    -- configuration; where it returns, it is the new text. A temporary file may be left behind, and
    -- the path does not name one.
    pub save-Ends :
        ((p absolute : Text)
          → chosen_path env path ≡ ok p
          → abs_path env p ≡ ok absolute
          → is_temp (file_of absolute) ≡ false)
        → Ends (λ fs. fs ≡ old) SaveEnds (λ _. SavedConfig) (save parse codec env config path)
    unfolding save
    save-Ends not_temp =
        Ends-bind {Q = λ c fs. Valid c × (fs ≡ old)}
          (Ends-lift (checked_config (validate_config parse config)) (λ fs h. inl (Same-eq h))
            (λ c fs e h. (e, h)))
          λ c.
            Ends-bind {Q = λ p fs. Chosen p × Valid c × (fs ≡ old)}
              (Ends-lift (chosen_path env path) (λ fs h. inl (Same-eq h.1))
                (λ p fs e h. (e, h.0, h.1)))
              λ p.
                Ends-bind {Q = λ a fs. Absolute p a × Chosen p × Valid c × (fs ≡ old)}
                  (Ends-lift (abs_path env p) (λ fs h. inl (Same-eq h.2))
                    (λ a fs e h. (e, h.0, h.1, h.2)))
                  λ a. Ends-bind (Ends-syscall (λ fs h. inl (Same-eq h.3))) λ _.
                    Ends-given {G = Absolute p a × Chosen p × Valid c} (λ fs h. (h.0, h.1, h.2))
                      λ g.
                        Ends-weaken (write_temp c p a g.2 g.1 g.0 (not_temp p a g.1 g.0))
                          (λ fs h. h.3) (λ fs h. h) (λ _ fs h. h)

module _ (parse : Text → Option Url) (codec : ConfigCodec) (env : Env) where
  accept-ok :
      (c : Config)
      → c.version ≡ pos 1
      → validate_config parse c ≡ ok c
      → accept parse codec env (ok c) ≡ ok c
  unfolding accept checked_config
  accept-ok c one v = let t : is_nat c.version 1 ≡ true = rw one refl in rw t (ap checked_config v)

  loaded-ok :
      (c : Config) (b : Bytes)
      → codec.decode b ≡ some (c, 10 ∷ [])
      → c.version ≡ pos 1
      → validate_config parse c ≡ ok c
      → loaded parse codec env (ok b) ≡ ok c
  unfolding loaded decode_all
  loaded-ok c b d one v = rw d (accept-ok c one v)

  load-calm :
      (path p : Text) (f : File) (v : World)
      → chosen_path env path ≡ ok p
      → v.files (file_of (resolved_path env p)) ≡ some f
      → (load parse codec env path (calm v)).0 ≡ loaded parse codec env (ok f.content)
  unfolding load read_file
  load-calm path p f v e t = rw e (rw t refl)

  -- What Save has written, Load returns: if Save returned, and the files are as it left them and no
  -- system call fails, then Load gives the configuration that Save validated, with its version, its
  -- default and, under each name, its target; the order of the targets is not kept. No target has a
  -- control path, which is not in the file, and the path does not name a temporary file.
  pub load-save :
      (config : Config) (path : Text) (w v : World) (saved : Config)
      → ((p absolute : Text)
          → chosen_path env path ≡ ok p
          → abs_path env p ≡ ok absolute
          → is_temp (file_of absolute) ≡ false)
      → NoControlPath config
      → validate_config parse config ≡ ok saved
      → (save parse codec env config path w).0 ≡ ok tt
      → v.files ≡ (save parse codec env config path w).1.files
      → (found : Config) × ((load parse codec env path (calm v)).0 ≡ ok found)
        × SameConfig saved found
  load-save config path w v saved not_temp plain valid h e =
      let d : SavedConfig parse codec env w.files config path
          (save parse codec env config path w).1.files =
        Ends-ok (save-Ends parse codec env w.files config path not_temp) w refl h in
      let q = validate_config_inv parse config valid in
      let same_config : d.valid ≡ saved = cc (d.validated, valid) in
      let there : v.files (file_of (resolved_path env d.chosen))
          ≡ some (record { mode = 0o600; content = d.text.0 }) =
        rw (e, abs_path_inv env d.chosen d.absolute_is) d.text.2.there in
      let plain_saved : NoControlPath saved = subst NoControlPath (sym q.0) plain in
      let one : saved.version ≡ pos 1 = ap (λ (c : Config). c.version) q.0 in
      let f = codec.decode-encode saved d.text.0 plain_saved (rw same_config at d.text.1) in
      (
        f.0,
        load-calm path d.chosen _ v d.chosen_is there
            ∙ loaded-ok f.0 d.text.0 f.1 (f.2.version ∙ one)
                (validate_config-SameConfig parse saved f.0 f.2 one q.1),
        f.2,
      )
