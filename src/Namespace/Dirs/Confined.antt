-- ===== src/Namespace/Dirs/Confined.antt =====
-- A namespace has a directory of its own, directly below the data root.
use contextq_server.Prelude.{◌≡◌, sym, ◌∙◌, true, [], ◌∷◌, ◌++◌, arith, Text, codes, ok, same_iff}
use contextq_server.Names.{matches_name, matches_name-IsPlainName}
use contextq_server.Paths.{is_abs, join_path}
use contextq_server.Paths.Join.{resolved, join_path-plain, join_path-injective}
use contextq_server.Strings.{join}
use contextq_server.Namespace.Dirs.{namespace_dir}

-- Which names get a directory.
namespace_dir_ok :
    (root name : Text)
    → matches_name name ≡ true
    → namespace_dir root name ≡ ok (join_path root name)
unfolding namespace_dir
namespace_dir_ok root name h =
    let p = matches_name-IsPlainName name h in
    ground
      (arith, h, p.not_dot, p.not_dot_dot, same_iff name (codes "."), same_iff name (codes ".."))

pub namespace_dir_inv :
    (root name : Text) {dir : Text}
    → namespace_dir root name ≡ ok dir
    → (matches_name name ≡ true) × (dir ≡ join_path root name)
unfolding namespace_dir
namespace_dir_inv root name h = ground arith

-- With an absolute data root, a namespace's directory is the root, with its `.` and `..` resolved,
-- and one element more, which is the name itself.
pub namespace_dir_confined :
    (root name : Text) {dir : Text}
    → is_abs root ≡ true
    → namespace_dir root name ≡ ok dir
    → dir ≡ codes "/" ++ join (codes "/") (resolved root ++ name ∷ [])
namespace_dir_confined root name r h =
    let (m, e) = namespace_dir_inv root name h in
    e ∙ join_path-plain root name r (matches_name-IsPlainName name m)

-- With an absolute data root, two namespaces with one directory are the same namespace.
pub namespace_dir_injective :
    (root a b : Text) {dir : Text}
    → is_abs root ≡ true
    → namespace_dir root a ≡ ok dir
    → namespace_dir root b ≡ ok dir
    → a ≡ b
namespace_dir_injective root a b r ha hb =
    let (ma, ea) = namespace_dir_inv root a ha in
    let (mb, eb) = namespace_dir_inv root b hb in
    join_path-injective root a b r (matches_name-IsPlainName a ma) (matches_name-IsPlainName b mb)
      (sym ea ∙ eb)
