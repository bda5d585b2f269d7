-- ===== src/Build.antt =====
-- internal/buildinfo/buildinfo.go: what `version` shows of the program.
use contextq_server.Prelude.{not, ◌&&◌, Option, none, some, if◌then◌else◌, [], Text, codes, same}

pub record Info : Type 0 where
  pub version : Text
  pub commit : Text
  pub build_date : Text
  pub go_version : Text
  pub contextq_version : Text

-- the module version that debug.ReadBuildInfo gives, in place of `dev`
unfoldable pub version_of : Text → Option Text → Text
unfolding same
version_of version none = version
version_of version (some main_version) =
    if same version (codes "dev")
      && not (same main_version [])
      && not (same main_version (codes "(devel)"))
    then main_version
    else version

-- Current: `linked` has the variables that the linker sets, and runtime.Version.
unfoldable pub current : Info → Option Text → Info
unfolding version_of
current linked main_version = record linked { version = version_of linked.version main_version }
