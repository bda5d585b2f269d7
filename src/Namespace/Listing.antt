-- ===== src/Namespace/Listing.antt =====
-- Store.ListKeys of internal/namespace/store.go. sort.Slice may leave keys of one time in any order;
-- here they keep theirs.
pub mod Hidden
use contextq_server.Prelude.{
  ℕ, Bool, true, false, List, [], ◌∷◌, Result, ok, err, if◌then◌else◌, ltb, map, Text,
}
use contextq_server.Os.{Io, pure, lift, ◌>>=◌}
use contextq_server.Namespace.Data.{Key}
use contextq_server.Namespace.Keys.{keys_of}
use contextq_server.Namespace.Store.{Platform, existing_dir, read_key_file}

-- `out[i].Digest = ""`
abbrev pub hidden : Key → Key
hidden k = record k { digest = [] }

unfoldable pub place_by_time : Key → List Key → List Key
place_by_time k [] = k ∷ []
place_by_time k (j ∷ ks) =
    let rest = place_by_time k ks in if ltb j.created_at k.created_at then j ∷ rest else k ∷ j ∷ ks

-- sort.Slice by the time
unfoldable pub sort_by_time : List Key → List Key
unfolding place_by_time
sort_by_time [] = []
sort_by_time (k ∷ ks) = place_by_time k (sort_by_time ks)

module _ (p : Platform) (root : Text) where
  unfoldable pub list_keys : Text → Io (List Key)
  list_keys name = do
    dir ← existing_dir p root name
    f ← read_key_file p root dir
    pure (sort_by_time (map hidden (keys_of f)))
