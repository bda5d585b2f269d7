-- ===== src/Tests/Local.antt =====
-- `key add` without a label.
use contextq_server.Prelude.{◌≡◌, refl, [], ◌∷◌, Option, none, some, Result, ok, List, Text, codes}
use contextq_server.Errors.{Error}
use contextq_server.Os.{World}
use contextq_server.Namespace.Roster.{DirEntry}
use contextq_server.App.Local.{Flags, exit_code, on_keys, run_local}
use contextq_server.App.Local.Usage.{run_local-usage}
use contextq_server.Tests.Json.{platform}
use contextq_server.Tests.Config.{env}
use contextq_server.Tests.Exec.{state}

abbrev no_entries : Text → World → Result Error (List DirEntry)
no_entries root w = ok []

-- every argument is positional
abbrev all_positional : Text → List Text → Option Flags
all_positional name args = some (record { data_root = none; label = []; positional = args })

abbrev add_args : List Text
add_args = codes "add" ∷ codes "n" ∷ []

usage_code :
    exit_code (run_local platform no_entries env [] all_positional on_keys add_args state).0 ≡ 2
unfolding run_local exit_code
usage_code = refl

run_local-usage_example :
    (run_local platform no_entries env [] all_positional on_keys add_args state).1 ≡ state
run_local-usage_example =
    run_local-usage platform no_entries env [] all_positional on_keys add_args state usage_code
