-- ===== src/Namespace/Dirs.antt =====
-- NamespaceDir and ContextqRoot of internal/namespace/store.go.
pub mod Confined
use contextq_server.Prelude.{
  Bool, ◌||◌, not, Text, codes, same, Result, ok, err, if◌then◌else◌, ◌>>=◌,
}
use contextq_server.Errors.{Error, invalid_namespace}
use contextq_server.Names.{matches_name}
use contextq_server.Paths.{join_path}

unfoldable pub namespace_dir : Text → Text → Result Error Text
unfolding matches_name same join_path
namespace_dir root name =
    if not (matches_name name) || same name (codes ".") || same name (codes "..")
    then err invalid_namespace
    else ok (join_path root name)

unfoldable pub contextq_root : Text → Text → Result Error Text
unfolding namespace_dir
contextq_root root name = do dir ← namespace_dir root name; ok (join_path dir (codes "contextq"))
