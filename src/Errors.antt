-- ===== src/Errors.antt =====
-- Go's `error` values: the sentinel errors of internal/namespace, what the operating system and
-- encoding/json report, and the errors made by fmt.Errorf, each by what it says.
use contextq_server.Prelude.{ℤ}
use contextq_server.Target.Data.{TargetError}

pub data Error : Type 0 where
  -- internal/namespace/store.go, lines 26 to 31
  invalid_namespace namespace_missing invalid_label duplicate_label key_missing invalid_key : Error
  -- os.ErrNotExist, and any other failure of a system call
  not_exist io_failure : Error
  -- the random source, a value that JSON cannot hold, text that is no JSON value of the type
  no_entropy cannot_encode bad_json : Error
  trailing_data metadata_mismatch data_root_required : Error
  unsupported_version : ℤ → Error
  -- what Config.Validate of internal/target/config.go says, and os.UserHomeDir
  bad_config : TargetError → Error
  no_home : Error
