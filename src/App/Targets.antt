-- ===== src/App/Targets.antt =====
-- The commands `target add`, `target list`, `target use` and `target remove` of
-- internal/app/remote.go: runTarget, behind its flags.
use contextq_server.Prelude.{
  Bool, false, not, List, Option, none, some, if◌then◌else◌, Text, same, [], map,
}
use contextq_server.Target.Data.{Target, Config}
use contextq_server.Target.Config.{lookup, names, set, use_target, remove_target}
use contextq_server.Target.File.{load_targets, checked_config, save}
use contextq_server.App.{Surroundings, App, os_error, pure, lift, ◌>>=◌, with_error, io}

-- The new target has the key of the existing one, if no key is given.
unfoldable pub keeping_key : Target → Option Target → Target
unfolding same
keeping_key t none = t
keeping_key t (some existing) = if same t.key [] then record t { key = existing.key } else t

-- what is shown of a target, which is not its key
pub record SafeTarget : Type 0 where
  pub name : Text
  pub url : Text
  pub namespace : Text
  pub ssh_host : Text
  pub is_default : Bool
  pub key_present : Bool

-- a target that is shown; a missing one is the zero value
unfoldable pub shown : Text → Text → Option Target → SafeTarget
unfolding same
shown default_name name none = record {
  name = name;
  url = [];
  namespace = [];
  ssh_host = [];
  is_default = same name default_name;
  key_present = false;
}
shown default_name name (some t) = record {
  name = name;
  url = t.url;
  namespace = t.namespace;
  ssh_host = t.ssh_host;
  is_default = same name default_name;
  key_present = not (same t.key []);
}

-- the loop over the names
unfoldable pub listed : Config → List SafeTarget
unfolding names lookup shown
listed c = map (λ name. shown c.default_name name (lookup name c.targets)) (names c.targets)

module _ (s : Surroundings) where
  -- `target add`, with the target that the flags make
  unfoldable pub target_add_command : Text → Text → Target → Bool → App (Unit {0})
  unfolding load_targets checked_config set keeping_key lookup save
  target_add_command config_path name t make_default = do
    found ← io os_error (load_targets s.parse s.codec s.env config_path)
    c ← lift (
        with_error os_error (
          checked_config (
            set s.parse found.0 name (keeping_key t (lookup name (found.0).targets)) make_default)))
    io os_error (save s.parse s.codec s.env c found.1)

  -- `target list`, which prints what is its result
  unfoldable pub target_list_command : Text → App (List SafeTarget)
  unfolding load_targets listed
  target_list_command config_path = do
    found ← io os_error (load_targets s.parse s.codec s.env config_path)
    pure (listed found.0)

  -- `target use`
  unfoldable pub target_use_command : Text → Text → App (Unit {0})
  unfolding load_targets checked_config use_target save
  target_use_command config_path name = do
    found ← io os_error (load_targets s.parse s.codec s.env config_path)
    c ← lift (with_error os_error (checked_config (use_target found.0 name)))
    io os_error (save s.parse s.codec s.env c found.1)

  -- `target remove`
  unfoldable pub target_remove_command : Text → Text → App (Unit {0})
  unfolding load_targets checked_config remove_target save
  target_remove_command config_path name = do
    found ← io os_error (load_targets s.parse s.codec s.env config_path)
    c ← lift (with_error os_error (checked_config (remove_target found.0 name)))
    io os_error (save s.parse s.codec s.env c found.1)
