-- ===== src/Setup/Reads.antt =====
-- What a shell reads in the lines of BootstrapScript.
use mathlib.Core.Path.{subst}
use contextq_server.Prelude.{
  ℕ, ◌≡◌, refl, sym, false, Bool-cases, inl, inr, List, [], ◌∷◌, ◌++◌, codes, Text, same, same_ne,
  if◌then◌else◌, arith,
}
use contextq_server.Strings.{Lacks}
use contextq_server.Paths.{join_path, path_dir}
use contextq_server.Target.Data.{Target}
use contextq_server.Setup.Script.{
  heading, trap_line, install_lines, finish_lines, unit_head, caddy_head, script_lines,
  variable_lines, stage_lines, file_lines, unit_lines, caddy_lines,
}
use contextq_server.Setup.Reader.{Reading, read, Reads, Reads-assignment, Reads-blank, is_var_char}

-- the lines that are not empty
abbrev pub not_empty : List Text → List Text
not_empty [] = []
not_empty ([] ∷ ls) = not_empty ls
not_empty ((c ∷ l) ∷ ls) = (c ∷ l) ∷ not_empty ls

abbrev also_commands : List Text → Reading → Reading
also_commands ls r = record r { commands = ls ++ r.commands }

Reads-finish_lines :
    Reads finish_lines
      (record { variables = []; documents = []; commands = not_empty finish_lines })
unfolding read
Reads-finish_lines = record { run = refl }

Reads-install_lines :
    {ls : List Text} {r : Reading}
    → Reads ls r
    → Reads (install_lines ++ ls) (also_commands (not_empty install_lines) r)
unfolding read
Reads-install_lines h = record { run = rw (h.run) refl }

Reads-heading :
    {ls : List Text} {r : Reading}
    → Reads ls r
    → Reads (heading ++ ls) (also_commands (not_empty heading) r)
unfolding read
Reads-heading h = record { run = rw (h.run) refl }

has_char : (a b : Text) (c : ℕ) → ¬ Lacks c (a ++ c ∷ b)
has_char [] b c h = h.0 refl
has_char (d ∷ a) b c h = has_char a b c h.1

-- a line with a character that the other does not have
same-Lacks : (a b l : Text) (c : ℕ) → Lacks c l → same (a ++ c ∷ b) l ≡ false
same-Lacks a b l c h = same_ne (a ++ c ∷ b) l λ e. has_char a b c (subst (Lacks c) (sym e) h)

not_caddy : (site : Text) → same (site ++ codes " {") (codes "CADDY") ≡ false
not_caddy site = same-Lacks site (codes "{") (codes "CADDY") 32 (omega arith)

module _ (t : Target) (target_name site listen staged_server staged_contextq unit_path : Text) where
  Reads-file_lines :
      {ls : List Text} {r : Reading}
      → Reads ls r
      → Reads
          (file_lines t target_name site listen staged_server staged_contextq unit_path ++ ls)
          (record {
            variables =
                (codes "IMPORT_LINE", codes "import " ++ join_path t.snippet_dir (codes "*.caddy"))
                ∷ r.variables;
            documents =
                (unit_head, unit_lines t listen)
                ∷ (caddy_head, caddy_lines site listen)
                ∷ r.documents;
            commands =
                codes "mv -f \"$UNIT_PATH.new\" \"$UNIT_PATH\""
                ∷ codes "install -d -m 0755 \"$SNIPPET_DIR\""
                ∷ codes "mv -f \"$SNIPPET_PATH.new\" \"$SNIPPET_PATH\""
                ∷ r.commands;
          })
  unfolding read file_lines unit_lines caddy_lines same is_var_char
  Reads-file_lines h =
      let k =
        Reads-assignment {c = b'I'} {name = codes "MPORT_LINE"}
          (codes "import " ++ join_path t.snippet_dir (codes "*.caddy")) refl h in
      record { run = rw (not_caddy site, read) (rw (k.run) refl) }

  Reads-variable_lines :
      {ls : List Text} {r : Reading}
      → Reads ls r
      → Reads
          (variable_lines t target_name site listen staged_server staged_contextq unit_path ++ ls)
          (record r {
            variables =
                (codes "SERVICE_USER", t.service_user)
                ∷ (codes "DATA_ROOT", t.data_root)
                ∷ (codes "SERVER_SOURCE", staged_server)
                ∷ (codes "CONTEXTQ_SOURCE", staged_contextq)
                ∷ (codes "SERVER_BIN", t.remote_bin)
                ∷ (codes "CONTEXTQ_BIN", t.contextq_bin)
                ∷ (codes "UNIT_PATH", unit_path)
                ∷ (codes "CADDYFILE", t.caddyfile)
                ∷ (codes "SNIPPET_DIR", t.snippet_dir)
                ∷ (codes "SNIPPET_PATH", join_path t.snippet_dir (target_name ++ codes ".caddy"))
                ∷ r.variables;
          })
  unfolding read variable_lines is_var_char
  Reads-variable_lines h = Reads-assignment t.service_user refl (
      Reads-assignment t.data_root refl (
        Reads-assignment staged_server refl (
          Reads-assignment staged_contextq refl (
            Reads-assignment t.remote_bin refl (
              Reads-assignment t.contextq_bin refl (
                Reads-assignment unit_path refl (
                  Reads-assignment t.caddyfile refl (
                    Reads-assignment t.snippet_dir refl (
                      Reads-blank (
                        Reads-assignment (join_path t.snippet_dir (target_name ++ codes ".caddy"))
                          refl (Reads-blank h)))))))))))

  -- the variable of the staging directory, when both binaries are in it
  abbrev pub stage_variables : List (Text × Text)
  stage_variables =
      if same (path_dir staged_server) (path_dir staged_contextq)
      then (codes "STAGE_DIR", path_dir staged_server) ∷ []
      else []

  abbrev pub stage_commands : List Text
  stage_commands =
      if same (path_dir staged_server) (path_dir staged_contextq) then trap_line ∷ [] else []

  Reads-stage_lines :
      {ls : List Text} {r : Reading}
      → Reads ls r
      → Reads (stage_lines staged_server staged_contextq ++ ls) (record r {
        variables = stage_variables ++ r.variables;
        commands = stage_commands ++ r.commands;
      })
  unfolding read stage_lines is_var_char
  Reads-stage_lines h =
      elim (Bool-cases (same (path_dir staged_server) (path_dir staged_contextq))) [
        | inl e ↦ rw e (
            Reads-assignment {c = b'S'} {name = codes "TAGE_DIR"} (path_dir staged_server) refl
              (record { run = rw (h.run) refl }))
        | inr e ↦ rw e h
      ]

  -- what the script does
  unfoldable pub reading_of : Reading
  unfolding unit_lines caddy_lines join_path path_dir same
  reading_of = record {
    variables =
        (codes "SERVICE_USER", t.service_user)
        ∷ (codes "DATA_ROOT", t.data_root)
        ∷ (codes "SERVER_SOURCE", staged_server)
        ∷ (codes "CONTEXTQ_SOURCE", staged_contextq)
        ∷ (codes "SERVER_BIN", t.remote_bin)
        ∷ (codes "CONTEXTQ_BIN", t.contextq_bin)
        ∷ (codes "UNIT_PATH", unit_path)
        ∷ (codes "CADDYFILE", t.caddyfile)
        ∷ (codes "SNIPPET_DIR", t.snippet_dir)
        ∷ (codes "SNIPPET_PATH", join_path t.snippet_dir (target_name ++ codes ".caddy"))
        ∷ (stage_variables
            ++ (codes "IMPORT_LINE", codes "import " ++ join_path t.snippet_dir (codes "*.caddy"))
              ∷ []);
    documents = (unit_head, unit_lines t listen) ∷ (caddy_head, caddy_lines site listen) ∷ [];
    commands =
        not_empty heading
        ++ (stage_commands
            ++ (not_empty install_lines
                ++ (codes "mv -f \"$UNIT_PATH.new\" \"$UNIT_PATH\""
                    ∷ codes "install -d -m 0755 \"$SNIPPET_DIR\""
                    ∷ codes "mv -f \"$SNIPPET_PATH.new\" \"$SNIPPET_PATH\""
                    ∷ not_empty finish_lines)));
  }

  pub Reads-script_lines :
      Reads
        (script_lines t target_name site listen staged_server staged_contextq unit_path)
        reading_of
  unfolding script_lines reading_of
  Reads-script_lines = Reads-heading (
      Reads-variable_lines
        (Reads-stage_lines (Reads-install_lines (Reads-file_lines Reads-finish_lines))))
