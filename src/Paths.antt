-- ===== src/Paths.antt =====
-- What the program uses of Go's path/filepath on a Unix system.
pub mod Join
pub mod Lines
use contextq_server.Prelude.{
  ℕ, ◌≡◌, Bool, true, false, List, [], ◌∷◌, ◌++◌, if◌then◌else◌, ◌==◌, Text, codes, same, ◌||◌,
}
use mathlib.Core.List.{reverse}
use contextq_server.Strings.{join}

abbrev pub slash : ℕ
slash = b'/'

pub push : ℕ → List Text → List Text
push c [] = (c ∷ []) ∷ []
push c (p ∷ ps) = (c ∷ p) ∷ ps

-- strings.Split(path, "/")
unfoldable pub elements : Text → List Text
unfolding push
elements [] = [] ∷ []
elements (c ∷ s) = let rest = elements s in if c == slash then [] ∷ rest else push c rest

-- filepath.IsAbs
unfoldable pub is_abs : Text → Bool
is_abs [] = false
is_abs (c ∷ s) = c == slash

-- `..` takes the last element away, if there is one that is not `..` itself.
pub back : Bool → List Text → List Text
unfolding same
back rooted [] = if rooted then [] else codes ".." ∷ []
back rooted (e ∷ es) = if same e (codes "..") then codes ".." ∷ e ∷ es else es

-- One element of a path that Clean reads; the elements so far stand last first.
pub walk : Bool → List Text → Text → List Text
unfolding same back
walk rooted es e =
    if same e [] || same e (codes ".")
    then es
    else if same e (codes "..")
    then back rooted es
    else e ∷ es

pub walk_all : Bool → List Text → List Text → List Text
unfolding walk
walk_all rooted es [] = es
walk_all rooted es (e ∷ rest) = walk_all rooted (walk rooted es e) rest

pub show : Bool → List Text → Text
unfolding join
show true es = codes "/" ++ join (codes "/") (reverse es)
show false [] = codes "."
show false (e ∷ es) = join (codes "/") (reverse (e ∷ es))

-- filepath.Clean
unfoldable pub clean : Text → Text
unfolding walk_all elements show is_abs
clean path = show (is_abs path) (walk_all (is_abs path) [] (elements path))

-- filepath.Join of two elements: an empty one is left out.
unfoldable pub join_path : Text → Text → Text
unfolding clean
join_path [] [] = []
join_path [] (c ∷ s) = clean (c ∷ s)
join_path (c ∷ s) e = clean ((c ∷ s) ++ slash ∷ e)

back_to_slash : Text → Text
back_to_slash [] = []
back_to_slash (c ∷ s) = if c == slash then c ∷ s else back_to_slash s

-- filepath.Dir: what is before the last slash, cleaned
unfoldable pub path_dir : Text → Text
unfolding back_to_slash clean
path_dir path = clean (reverse (back_to_slash (reverse path)))

until_slash : Text → Text
until_slash [] = []
until_slash (c ∷ s) = let rest = until_slash s in if c == slash then [] else c ∷ rest

-- the last element of a path
unfoldable pub path_base : Text → Text
unfolding until_slash
path_base path = reverse (until_slash (reverse path))
