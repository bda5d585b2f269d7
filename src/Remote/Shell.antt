-- ===== src/Remote/Shell.antt =====
-- ShellQuote and ShellCommand of internal/remote/command.go.
pub mod Words
use contextq_server.Prelude.{ℕ, List, [], ◌∷◌, ◌++◌, map, Text, codes}
use contextq_server.Strings.{replace_all, join}

abbrev pub quote : ℕ
quote = b'\''

unfoldable pub shell_quote : Text → Text
unfolding replace_all
shell_quote value = codes "'" ++ replace_all quote (codes "'\\''") value ++ codes "'"

-- `quoted[i] = ShellQuote(arg)` for each argument
unfoldable pub shell_command : List Text → Text
unfolding shell_quote join
shell_command args = join (codes " ") (map shell_quote args)
