-- ===== src/Target/File/Left.antt =====
-- What else than the file of the targets Save touches: at most one new temporary file.
use contextq_server.Prelude.{◌≡◌, refl, ◌⊎◌, inl, inr, false, Option, ok, Text, codes}
use contextq_server.Paths.{path_dir}
use contextq_server.Os.{Files, create_temp, remove, finally, ◌>>=◌}
use contextq_server.Os.Ends.{
  Ends, Ends-bind, Ends-lift, Ends-weaken, Ends-syscall, Ends-given, Ends-pair,
}
use contextq_server.Os.Temp.{is_temp, config_prefix, Marks-config_prefix, create_temp-Ends}
use contextq_server.Namespace.Atomic.Left.{OneLeft, finish-Framed}
use contextq_server.Target.Data.{Url, Config}
use contextq_server.Target.Config.{validate_config}
use contextq_server.Target.File.{
  Env, ConfigCodec, abs_path, chosen_path, file_of, checked_config, save_to, save,
}
use contextq_server.Target.File.Saved.{SaveEnds, SavedConfig, save_to-Ends, save-Ends}

module _ (parse : Text → Option Url) (codec : ConfigCodec) (env : Env) (old : Files)
    (config : Config) (path : Text) where
  -- Every file is as it was, but the one that the path names and perhaps one temporary file that was
  -- not there.
  abbrev pub LeavesOne : Files → Type 0
  LeavesOne fs =
      (fs ≡ old)
      ⊎ ((p : Text) × (absolute : Text) × (chosen_path env path ≡ ok p)
          × (abs_path env p ≡ ok absolute)
          × OneLeft old (file_of absolute) fs)

  temp-OneLeft :
      (c : Config) (a : Text)
      → is_temp (file_of a) ≡ false
      → Ends
          (λ fs. fs ≡ old)
          (OneLeft old (file_of a))
          (λ _. OneLeft old (file_of a))
          (create_temp (path_dir a) (codes ".contextq-server-") >>= λ tmp.
            finally (save_to parse codec env tmp (file_of a) c) (remove tmp))
  temp-OneLeft c a n =
      Ends-bind
        (create_temp-Ends (OneLeft old (file_of a)) old (path_dir a) config_prefix
          Marks-config_prefix (inl (λ q _. refl)))
        λ tmp. record {
          run = λ w h.
              (Ends-weaken
                  (finish-Framed (codec.encode c) old (file_of a) 0o600 tmp n h.named
                    (save_to-Ends parse codec env old config path c (file_of a) tmp))
                  (λ fs k. k) (λ fs k. inr (tmp, h.named, h.unused, k))
                  (λ _ fs k. inr (tmp, h.named, h.unused, k))).run
                w h;
        }

  save-LeavesOne :
      ((p absolute : Text)
        → chosen_path env path ≡ ok p
        → abs_path env p ≡ ok absolute
        → is_temp (file_of absolute) ≡ false)
      → Ends (λ fs. fs ≡ old) LeavesOne (λ _. LeavesOne) (save parse codec env config path)
  unfolding save
  save-LeavesOne not_temp =
      Ends-bind {Q = λ c fs. fs ≡ old}
        (Ends-lift (checked_config (validate_config parse config)) (λ fs h. inl h) (λ c fs e h. h))
        λ c.
          Ends-bind {Q = λ p fs. (chosen_path env path ≡ ok p) × (fs ≡ old)}
            (Ends-lift (chosen_path env path) (λ fs h. inl h) (λ p fs e h. (e, h)))
            λ p.
              Ends-bind
                {Q = λ a fs. (abs_path env p ≡ ok a) × (chosen_path env path ≡ ok p) × (fs ≡ old)}
                (Ends-lift (abs_path env p) (λ fs h. inl h.1) (λ a fs e h. (e, h.0, h.1)))
                λ a. Ends-bind (Ends-syscall (λ fs h. inl h.2)) λ _.
                  Ends-given {G = (abs_path env p ≡ ok a) × (chosen_path env path ≡ ok p)}
                    (λ fs h. (h.0, h.1))
                    λ g.
                      Ends-weaken (temp-OneLeft c a (not_temp p a g.1 g.0)) (λ fs h. h.2)
                        (λ fs h. inr (p, a, g.1, g.0, h)) (λ _ fs h. inr (p, a, g.1, g.0, h))

  -- Whichever system call fails, Save leaves the file that the path names as it was, or with the
  -- whole JSON text of the validated configuration; where it returns, it is the new text. Every other
  -- file is as it was, but for one temporary file at most, which was not there before and may be left
  -- behind. The path does not name a temporary file.
  pub save-Leaves :
      ((p absolute : Text)
        → chosen_path env path ≡ ok p
        → abs_path env p ≡ ok absolute
        → is_temp (file_of absolute) ≡ false)
      → Ends
          (λ fs. fs ≡ old)
          (λ fs. SaveEnds parse codec env old config path fs × LeavesOne fs)
          (λ _ fs. SavedConfig parse codec env old config path fs × LeavesOne fs)
          (save parse codec env config path)
  save-Leaves not_temp =
      Ends-pair (save-Ends parse codec env old config path not_temp) (save-LeavesOne not_temp)
