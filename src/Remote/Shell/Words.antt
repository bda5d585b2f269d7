-- ===== src/Remote/Shell/Words.antt =====
-- How a POSIX shell splits a command line into words, and that ShellCommand is read back exactly.
use contextq_server.Prelude.{
  ℕ, ◌≡◌, refl, Bool, true, false, ◌||◌, List, [], ◌∷◌, ◌++◌, map, Option, none, some, arith, ◌==◌,
  Text, codes, append_assoc, append-nil,
}
use contextq_server.Strings.{replace_all, join}
use contextq_server.Remote.Shell.{quote, shell_quote, shell_command}

-- Where the reader is: outside quotes, inside single quotes, or behind a backslash.
pub data Mode : Type 0 where
  bare quoted escaped : Mode

-- The word that is being read, if one has begun.
abbrev grow : Option Text → ℕ → Option Text
grow none c = some (c ∷ [])
grow (some w) c = some (w ++ c ∷ [])

abbrev open_word : Option Text → Option Text
open_word none = some []
open_word (some w) = some w

abbrev close_word : Option Text → List Text → List Text
close_word none done = done
close_word (some w) done = done ++ w ∷ []

-- The characters that mean something else to the shell outside quotes.
is_special : ℕ → Bool
is_special c =
    c == 10
    || c == b'"'
    || c == b'$'
    || c == b'`'
    || c == b'|'
    || c == b'&'
    || c == b';'
    || c == b'<'
    || c == b'>'
    || c == b'('
    || c == b')'
    || c == b'*'
    || c == b'?'
    || c == b'['
    || c == b'#'
    || c == b'~'
    || c == b'='
    || c == b'!'
    || c == b'{'
    || c == b'}'
    || c == b'%'

-- One character outside quotes that is neither special nor a quote nor a backslash.
scan : Text → Mode → Option Text → List Text → Option (List Text)
scan [] bare cur done = some (close_word cur done)
scan [] quoted cur done = none
scan [] escaped cur done = none
scan (c ∷ s) quoted cur done = elim (c == quote) [
  | true ↦ scan s bare cur done
  | false ↦ scan s quoted (grow cur c) done
]
scan (c ∷ s) escaped cur done = elim (c == 10) [
  | true ↦ none
  | false ↦ scan s bare (grow cur c) done
]
scan (c ∷ s) bare cur done = elim (c == quote) [
  | true ↦ scan s quoted (open_word cur) done
  | false ↦ elim (c == b'\\') [
    | true ↦ scan s escaped cur done
    | false ↦ elim (c == 32 || c == 9) [
      | true ↦ scan s bare none (close_word cur done)
      | false ↦ elim (is_special c) [ true ↦ none | false ↦ scan s bare (grow cur c) done ]
    ]
  ]
]

-- The words of a command line; `none` if it has an open quote, or a character outside quotes that
-- the shell would act upon.
unfoldable pub sh_words : Text → Option (List Text)
unfolding scan is_special
sh_words s = scan s bare none []

-- the quoted body of a word, and the quote that ends it
scan-replace_all :
    (v rest w : Text) (done : List Text)
    → scan (replace_all quote (codes "'\\''") v ++ codes "'" ++ rest) quoted (some w) done
      ≡ scan rest bare (some (w ++ v)) done
unfolding scan replace_all
scan-replace_all [] rest w done = rw append-nil
scan-replace_all (c ∷ v) rest w done =
    ground (arith, scan-replace_all v rest (w ++ c ∷ []) done, append_assoc w (c ∷ []) v)

-- A quoted word is read as the value that was quoted, whatever stands behind it.
scan-shell_quote :
    (v rest : Text) (done : List Text)
    → scan (shell_quote v ++ rest) bare none done ≡ scan rest bare (some v) done
unfolding shell_quote scan
scan-shell_quote v rest done = scan-replace_all v rest [] done

scan_blank :
    (v rest : Text) (done : List Text)
    → scan (codes " " ++ rest) bare (some v) done ≡ scan rest bare none (done ++ v ∷ [])
unfolding scan
scan_blank v rest done = refl

scan_end : (v : Text) (done : List Text) → scan [] bare (some v) done ≡ some (done ++ v ∷ [])
unfolding scan
scan_end v done = refl

scan-join :
    (v : Text) (vs : List Text) (done : List Text)
    → scan (join (codes " ") (map shell_quote (v ∷ vs))) bare none done ≡ some (done ++ v ∷ vs)
unfolding join
scan-join v [] done = rw (← append-nil (shell_quote v), scan-shell_quote) (scan_end v done)
scan-join v (w ∷ vs) done =
    rw (append_assoc, scan-shell_quote, scan_blank, scan-join w vs (done ++ v ∷ []), append_assoc)

-- A POSIX shell splits the output of ShellCommand into exactly the arguments that went in: whatever
-- characters they hold, none is acted upon, dropped or joined to another word.
pub sh_words-shell_command : (args : List Text) → sh_words (shell_command args) ≡ some args
unfolding sh_words shell_command
sh_words-shell_command [] = refl
sh_words-shell_command (v ∷ vs) = scan-join v vs []
