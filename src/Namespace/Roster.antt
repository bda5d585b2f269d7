-- ===== src/Namespace/Roster.antt =====
-- NewStore and Store.List of internal/namespace/store.go.
use contextq_server.Prelude.{Bool, List, [], ◌∷◌, if◌then◌else◌, Result, ok, err, Text, same}
use contextq_server.Errors.{Error, not_exist, data_root_required}
use contextq_server.Strings.{trim_space}
use contextq_server.Paths.{join_path}
use contextq_server.Os.{World, Io, pure, raise, attempt, ◌>>=◌}
use contextq_server.Namespace.Data.{Namespace}
use contextq_server.Namespace.Atomic.{read_json}
use contextq_server.Namespace.Store.{Platform, metadata_path}
use contextq_server.Target.File.{Env, abs_path}
use contextq_server.Target.Config.{less}

-- NewStore, whose store is its absolute root
unfoldable pub new_store : Env → Text → Result Error Text
unfolding trim_space abs_path same
new_store env root = if same (trim_space root) [] then err data_root_required else abs_path env root

-- os.DirEntry
pub record DirEntry : Type 0 where
  pub name : Text
  pub is_dir : Bool

unfoldable pub place_by_name : Namespace → List Namespace → List Namespace
unfolding less
place_by_name n [] = n ∷ []
place_by_name n (m ∷ ns) =
    let rest = place_by_name n ns in if less m.name n.name then m ∷ rest else n ∷ m ∷ ns

-- sort.Slice by the name
unfoldable pub sort_by_name : List Namespace → List Namespace
unfolding place_by_name
sort_by_name [] = []
sort_by_name (n ∷ ns) = place_by_name n (sort_by_name ns)

-- the branches on what readNamespace returned, and the rest of the loop
unfoldable pub collected : Result Error Namespace → Io (List Namespace) → Io (List Namespace)
collected (ok ns) rest = do nss ← rest; pure (ns ∷ nss)
collected (err not_exist) rest = rest
collected (err e) rest = raise e

-- os.ReadDir is `read_dir`.
module _ (p : Platform) (read_dir : Text → World → Result Error (List DirEntry)) (root : Text) where
  -- the loop over the entries
  unfoldable pub collect : List DirEntry → Io (List Namespace)
  unfolding collected read_json join_path
  collect [] = pure []
  collect (e ∷ es) =
      let rest = collect es in
      if e.is_dir
      then (attempt (read_json p.namespaces (metadata_path (join_path root e.name))) >>= λ r.
          collected r rest)
      else rest

  unfoldable pub list_entries : Result Error (List DirEntry) → Io (List Namespace)
  unfolding collect sort_by_name
  list_entries (ok es) = do out ← collect es; pure (sort_by_name out)
  list_entries (err not_exist) = pure []
  list_entries (err e) = raise e

  -- Store.List
  unfoldable pub list_namespaces : Io (List Namespace)
  unfolding list_entries
  list_namespaces w = list_entries (read_dir root w) w
