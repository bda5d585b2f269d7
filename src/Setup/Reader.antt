-- ===== src/Setup/Reader.antt =====
-- How a shell reads a script as far as its assignments and here-documents go: the lines, and which of
-- them set a variable to a quoted value, open a here-document, or belong to one.
use contextq_server.Prelude.{
  ℕ, ◌≡◌, refl, ap, ◌∙◌, Bool, true, false, ◌&&◌, ◌||◌, List, [], ◌∷◌, ◌++◌, Option, none, some,
  arith, ◌==◌, leb, every, if◌then◌else◌, &&_parts, Text, codes, same, All,
}
use contextq_server.Strings.{cut, cut-Lacks, Lacks, join}
use contextq_server.Paths.Lines.{OneLine}
use contextq_server.Remote.Shell.{shell_quote, shell_command}
use contextq_server.Remote.Shell.Words.{sh_words, sh_words-shell_command}
use contextq_server.Setup.Script.{unlines, assignment}

push_char : ℕ → List Text → List Text
push_char c [] = (c ∷ []) ∷ []
push_char c (l ∷ ls) = (c ∷ l) ∷ ls

-- the lines of a text
unfoldable pub lines : Text → List Text
unfolding push_char
lines [] = []
lines (c ∷ s) = elim (c == 10) [ true ↦ [] ∷ lines s | false ↦ push_char c (lines s) ]

lines_line : (l rest : Text) → OneLine l → lines (l ++ 10 ∷ rest) ≡ l ∷ lines rest
unfolding lines push_char
lines_line [] rest h = refl
lines_line (c ∷ l) rest (hc, hs) = ground (arith, lines_line l rest hs)

pub lines-unlines : (ls : List Text) → All OneLine ls → lines (unlines ls) ≡ ls
unfolding unlines
lines-unlines [] h = unfold lines in refl
lines-unlines (l ∷ ls) (h, hs) = rw (lines_line l (unlines ls) h, lines-unlines ls hs) refl

-- What a line outside a here-document is.
pub data Kind : Type 0 where
  blank : Kind
  sets : Text → Text → Kind
  opens : Text → Kind
  command : Kind

unfoldable pub is_var_char : ℕ → Bool
is_var_char c = leb b'A' c && leb c b'Z' || c == b'_'

or_word : Option Text → Option Text → Option Text
or_word none o = o
or_word (some d) o = some d

-- `<'DELIMITER'`, which stands behind a `<`
word_of : Text × Option Text → Option Text
unfolding same cut
word_of (before, none) = none
word_of (before, some rest) = if same before (codes "<") then some (cut b'\'' rest).0 else none

-- the delimiter of the first here-document `<<'DELIMITER'` of a line
unfoldable pub delimiter : Text → Option Text
unfolding word_of or_word cut
delimiter [] = none
delimiter (c ∷ s) =
    let rest = delimiter s in if c == b'<' then or_word (word_of (cut b'\'' s)) rest else rest

kind_opens : Option Text → Kind
kind_opens none = command
kind_opens (some d) = opens d

kind_sets : Text → Option (List Text) → Kind
kind_sets name (some (v ∷ [])) = sets name v
kind_sets name _ = command

-- whether what is before the `=` is a name
kind_named : Bool → Text → Text → Text → Kind
unfolding kind_opens kind_sets sh_words delimiter
kind_named true l name rest = kind_sets name (sh_words rest)
kind_named false l name rest = kind_opens (delimiter l)

kind_cut : Text → Text × Option Text → Kind
unfolding kind_named is_var_char
kind_cut l (before, none) = kind_opens (delimiter l)
kind_cut l ([], some rest) = kind_opens (delimiter l)
kind_cut l (c ∷ before, some rest) = kind_named (every is_var_char (c ∷ before)) l (c ∷ before) rest

unfoldable pub kind_of : Text → Kind
unfolding kind_cut cut
kind_of [] = blank
kind_of (c ∷ l) = kind_cut (c ∷ l) (cut b'=' (c ∷ l))

-- What a script does: the variables that it sets, its here-documents with the lines that open them,
-- and its other lines, each in their order.
pub record Reading : Type 0 where
  pub variables : List (Text × Text)
  pub documents : List (Text × List Text)
  pub commands : List Text

-- A script ends in a here-document if it has no line that is its delimiter.
abbrev pub more_of : (Reading → Reading) → Option Reading → Option Reading
more_of f none = none
more_of f (some r) = some (f r)

-- Where the reader is: outside a here-document, or in one, with the line that opened it, its
-- delimiter and the lines so far.
pub data Place : Type 0 where
  outside : Place
  inside : Text → Text → List Text → Place

unfoldable pub read : Place → List Text → Option Reading
unfolding kind_of same
read outside [] = some (record { variables = []; documents = []; commands = [] })
read (inside head d body) [] = none
read outside (l ∷ ls) = elim (kind_of l) [
  | blank ↦ read outside ls
  | sets name v ↦ more_of (λ r. record r { variables = (name, v) ∷ r.variables }) (read outside ls)
  | opens d ↦ read (inside l d []) ls
  | command ↦ more_of (λ r. record r { commands = l ∷ r.commands }) (read outside ls)
]
read (inside head d body) (l ∷ ls) = elim (same l d) [
  | true ↦ more_of (λ r. record r { documents = (head, body) ∷ r.documents }) (read outside ls)
  | false ↦ read (inside head d (body ++ l ∷ [])) ls
]

-- what a shell makes of the text of a script
unfoldable pub read_script : Text → Option Reading
unfolding read lines
read_script s = read outside (lines s)

var_chars-Lacks : (s : Text) → every is_var_char s ≡ true → Lacks b'=' s
unfolding is_var_char
var_chars-Lacks [] h = tt
var_chars-Lacks (c ∷ s) h =
    let p = &&_parts (is_var_char c) (every is_var_char s) h in
    ((λ e. ground (arith, p.0)), var_chars-Lacks s p.1)

sh_words-shell_quote : (v : Text) → sh_words (shell_quote v) ≡ some (v ∷ [])
sh_words-shell_quote v = unfold shell_command join in sh_words-shell_command (v ∷ [])

kind_cut_sets :
    (l : Text) (c : ℕ) (name rest : Text)
    → every is_var_char (c ∷ name) ≡ true
    → kind_cut l (c ∷ name, some rest) ≡ kind_sets (c ∷ name) (sh_words rest)
unfolding kind_cut kind_named
kind_cut_sets l c name rest h = rw h refl

-- An assignment sets its variable to the value, whatever characters the value holds.
kind_of-assignment :
    (c : ℕ) (name v : Text)
    → every is_var_char (c ∷ name) ≡ true
    → kind_of (assignment (c ∷ name) v) ≡ sets (c ∷ name) v
unfolding kind_of kind_sets assignment
kind_of-assignment c name v h =
    ap (kind_cut (assignment (c ∷ name) v))
      (cut-Lacks b'=' (c ∷ name) (shell_quote v) (var_chars-Lacks (c ∷ name) h))
    ∙ kind_cut_sets (assignment (c ∷ name) v) c name (shell_quote v) h
    ∙ ap (kind_sets (c ∷ name)) (sh_words-shell_quote v)

abbrev pub set_variable : Text → Text → Reading → Reading
set_variable name v r = record r { variables = (name, v) ∷ r.variables }

-- These lines are read as `r`.
pub record Reads (ls : List Text) (r : Reading) : Type 0 where
  pub run : read outside ls ≡ some r

pub Reads-assignment :
    {c : ℕ} {name : Text} {ls : List Text} {r : Reading} (v : Text)
    → every is_var_char (c ∷ name) ≡ true
    → Reads ls r
    → Reads (assignment (c ∷ name) v ∷ ls) (set_variable (c ∷ name) v r)
unfolding read
Reads-assignment {c} {name} v h k = record {
  run = rw (kind_of-assignment c name v h, read) (rw (k.run) refl);
}

pub Reads-blank : {ls : List Text} {r : Reading} → Reads ls r → Reads ([] ∷ ls) r
unfolding read
Reads-blank k = record { run = k.run }
