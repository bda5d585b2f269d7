-- ===== src/Os/Temp.antt =====
-- What os.CreateTemp returns: a new file, under a name that no other file of the program has.
use contextq_server.Prelude.{
  ◌≡◌, refl, ap, true, false, List, [], ◌∷◌, ◌++◌, none, some, Text, codes, Bool, ◌||◌,
  Option-cases, inl, inr, Bool-cases,
}
use contextq_server.Strings.{has_prefix}
use contextq_server.Os.{FilePath, File, Files, World, same_path, put, draw, create_temp}
use contextq_server.Os.Effects.{same_path_iff}
use contextq_server.Os.Ends.{Ends, Post, Ends-bind, Ends-syscall}

-- How the names of the temporary files begin, those of internal/namespace and of internal/target.
abbrev pub temp_prefix : Text
temp_prefix = codes ".tmp-"

abbrev pub config_prefix : Text
config_prefix = codes ".contextq-server-"

abbrev pub is_temp : FilePath → Bool
is_temp p = has_prefix p.base temp_prefix || has_prefix p.base config_prefix

-- Every name that begins so is that of a temporary file.
abbrev pub Marks : Text → Type 0
Marks prefix = (dir s : Text) → is_temp (record { dir = dir; base = prefix ++ s }) ≡ true

pub Marks-temp_prefix : Marks temp_prefix
unfolding has_prefix
Marks-temp_prefix dir s = refl

pub Marks-config_prefix : Marks config_prefix
unfolding has_prefix
Marks-config_prefix dir s = refl

abbrev pub blank : File
blank = record { mode = 0o600; content = [] }

-- `p` is the new file, and all else is as before.
pub record Fresh (old : Files) (p : FilePath) (fs : Files) : Type 0 where
  pub named : is_temp p ≡ true
  pub unused : old p ≡ none
  pub created : fs p ≡ some blank
  pub kept : (q : FilePath) → same_path p q ≡ false → fs q ≡ old q

pub same_path_refl : (p : FilePath) → same_path p p ≡ true
same_path_refl p = (same_path_iff p p).1 refl

-- A temporary name is not the name of another kind of file.
pub temp_apart : (p q : FilePath) → is_temp p ≡ true → is_temp q ≡ false → same_path p q ≡ false
temp_apart p q hp hq = elim (Bool-cases (same_path p q)) [
  | inl e ↦ absurd (cc (ap is_temp ((same_path_iff p q).0 e)))
  | inr n ↦ n
]

draw-Fresh :
    (E : Files → Type 0) (dir prefix : Text) (names : List Text) (w : World)
    → Marks prefix
    → E w.files
    → Post E (Fresh w.files) (draw dir prefix names w).0 (draw dir prefix names w).1
unfolding draw
draw-Fresh E dir prefix [] w m e = e
draw-Fresh E dir prefix (s ∷ rest) w m e =
    let p : FilePath = record { dir = dir; base = prefix ++ s } in
    elim (Option-cases (w.files p)) [
      | inl free ↦
          rw (free, draw)
            (record {
              named = m dir s;
              unused = free;
              created = unfold put in rw (same_path_refl p);
              kept = λ q h. unfold put in rw h;
            })
      | inr (f, taken) ↦ rw (taken, draw) (draw-Fresh E dir prefix rest w m e)
    ]

pub create_temp-Ends :
    (E : Files → Type 0) (old : Files) (dir prefix : Text)
    → Marks prefix
    → E old
    → Ends (λ fs. fs ≡ old) E (Fresh old) (create_temp dir prefix)
unfolding create_temp
create_temp-Ends E old dir prefix m e =
    Ends-bind {Q = λ _ fs. fs ≡ old} (Ends-syscall (λ fs h. rw h e))
      λ _. record { run = λ w h. rw (← h) (draw-Fresh E dir prefix w.suffixes w m (rw h e)) }
