-- ===== src/Api/Args.antt =====
-- validateArgs and commandName of internal/api/server.go.
pub mod Accepts
use contextq_server.Prelude.{
  ℕ, ◌+◌, ◌*◌, ◌/◌, Bool, true, false, not, ◌&&◌, ◌||◌, List, [], ◌∷◌, ◌++◌, if◌then◌else◌, ltb,
  leb, ◌==◌, length, Result, ok, err, Text, codes, same,
}
use contextq_server.Strings.{has_prefix, byte_length}

-- The errors of validateArgs, by their messages.
pub data ArgsError : Type 0 where
  no_command unsupported_command nul_byte controlled_argument too_large : ArgsError

abbrev pub max_request_body : ℕ
max_request_body = 64 * 1024

-- the table `allowed`
unfoldable pub is_allowed : Text → Text → Bool
unfolding same
is_allowed group command =
    if same group (codes "queue")
    then same command (codes "create")
      || same command (codes "list")
      || same command (codes "read")
      || same command (codes "destroy")
    else if same group (codes "item")
    then same command (codes "push")
      || same command (codes "pop")
      || same command (codes "list")
      || same command (codes "read")
      || same command (codes "update")
      || same command (codes "history")
    else false

-- strings.IndexByte(arg, 0) >= 0
unfoldable pub has_nul : Text → Bool
has_nul [] = false
has_nul (c ∷ s) = c == 0 || has_nul s

unfoldable pub is_controlled : Text → Bool
unfolding same has_prefix
is_controlled arg =
    same arg (codes "--root")
    || has_prefix arg (codes "--root=")
    || same arg (codes "--config")
    || has_prefix arg (codes "--config=")
    || same arg (codes "--json")
    || has_prefix arg (codes "--json=")
    || same arg (codes "--help")
    || same arg (codes "-h")
    || same arg (codes "--version")

-- The loop over the arguments: `ended` is flagsEnded, `total` is totalLength.
unfoldable pub scan : Bool → ℕ → List Text → Result ArgsError ℕ
scan ended total [] = ok total
scan ended total (arg ∷ args) =
    let total' = total + byte_length arg in
    let next_ended = scan true total' args in
    let next = scan ended total' args in
    if has_nul arg
    then err nul_byte
    else if same arg (codes "--") && not ended
    then next_ended
    else if ended
    then next
    else if is_controlled arg
    then err controlled_argument
    else next

-- the test behind the loop
unfoldable pub check_total : Result ArgsError ℕ → Result ArgsError (Unit {0})
check_total (err e) = err e
check_total (ok total) = if ltb (max_request_body / 2) total then err too_large else ok tt

unfoldable pub validate_args : List Text → Result ArgsError (Unit {0})
validate_args [] = err no_command
validate_args (group ∷ []) = err no_command
validate_args (group ∷ command ∷ args) =
    if ltb 64 (length (group ∷ command ∷ args))
    then err no_command
    else if not (is_allowed group command)
    then err unsupported_command
    else check_total (scan false 0 (group ∷ command ∷ args))

unfoldable pub command_name : List Text → Text
command_name [] = []
command_name (group ∷ []) = []
command_name (group ∷ command ∷ args) = group ++ codes " " ++ command
