-- ===== src/Setup/Script.antt =====
-- The text that BootstrapScript of internal/setup/bootstrap.go writes, line by line.
use contextq_server.Prelude.{List, [], ◌∷◌, ◌++◌, if◌then◌else◌, Text, codes, same}
use contextq_server.Paths.{join_path, path_dir}
use contextq_server.Remote.Shell.{shell_quote}
use contextq_server.Target.Data.{Target}

-- lines, each with the line break that ends it
unfoldable pub unlines : List Text → Text
unlines [] = []
unlines (l ∷ ls) = l ++ 10 ∷ unlines ls

-- `fmt.Fprintf(&b, "NAME=%s\n", shellQuote(value))`, without the line break; shellQuote is
-- ShellQuote of internal/remote.
unfoldable pub assignment : Text → Text → Text
unfolding shell_quote
assignment name value = name ++ b'=' ∷ shell_quote value

abbrev pub heading : List Text
heading =
    codes "#!/bin/sh"
    ∷ codes "# contextq-server remote-init — idempotent host bootstrap"
    ∷ codes "set -eu"
    ∷ []
    ∷ []

abbrev pub trap_line : Text
trap_line = codes "trap 'rm -rf \"$STAGE_DIR\"' EXIT"

-- from the test for root to the move of the new binaries
abbrev pub install_lines : List Text
install_lines =
    codes "[ \"$(id -u)\" -eq 0 ] || { echo 'remote-init must run as root' >&2; exit 1; }"
    ∷ codes "for command in getent groupadd useradd install runuser systemctl caddy; do"
    ∷ codes
        "  command -v \"$command\" >/dev/null 2>&1 || { echo \"missing required command: $command\" >&2; exit 1; }"
    ∷ codes "done"
    ∷ codes
        "[ -f \"$SERVER_SOURCE\" ] || { echo \"missing staged binary: $SERVER_SOURCE\" >&2; exit 1; }"
    ∷ codes
        "[ -f \"$CONTEXTQ_SOURCE\" ] || { echo \"missing staged binary: $CONTEXTQ_SOURCE\" >&2; exit 1; }"
    ∷ []
    ∷ codes "getent group \"$SERVICE_USER\" >/dev/null 2>&1 || groupadd --system \"$SERVICE_USER\""
    ∷ codes
        "id \"$SERVICE_USER\" >/dev/null 2>&1 || useradd --system --gid \"$SERVICE_USER\" --home-dir \"$DATA_ROOT\" --no-create-home --shell /usr/sbin/nologin \"$SERVICE_USER\""
    ∷ codes "install -d -m 0750 -o \"$SERVICE_USER\" -g \"$SERVICE_USER\" \"$DATA_ROOT\""
    ∷ []
    ∷ codes "install -D -m 0755 \"$SERVER_SOURCE\" \"$SERVER_BIN.new\""
    ∷ codes "install -D -m 0755 \"$CONTEXTQ_SOURCE\" \"$CONTEXTQ_BIN.new\""
    ∷ codes "mv -f \"$SERVER_BIN.new\" \"$SERVER_BIN\""
    ∷ codes "mv -f \"$CONTEXTQ_BIN.new\" \"$CONTEXTQ_BIN\""
    ∷ []
    ∷ []

-- the body of the here-document of the systemd unit
unfoldable pub unit_lines : Target → Text → List Text
unit_lines t listen =
    codes "[Unit]"
    ∷ codes "Description=contextq HTTP command server"
    ∷ codes "After=network-online.target"
    ∷ codes "Wants=network-online.target"
    ∷ []
    ∷ codes "[Service]"
    ∷ codes "Type=simple"
    ∷ (codes "User=" ++ t.service_user)
    ∷ (codes "Group=" ++ t.service_user)
    ∷ (codes "WorkingDirectory=" ++ t.data_root)
    ∷ (codes "ExecStart="
        ++ t.remote_bin
        ++ codes " serve --listen "
        ++ listen
        ++ codes " --data-root "
        ++ t.data_root
        ++ codes " --contextq-bin "
        ++ t.contextq_bin)
    ∷ codes "Restart=on-failure"
    ∷ codes "RestartSec=2s"
    ∷ codes "UMask=0027"
    ∷ codes "NoNewPrivileges=true"
    ∷ codes "PrivateTmp=true"
    ∷ codes "ProtectHome=true"
    ∷ codes "ProtectSystem=strict"
    ∷ (codes "ReadWritePaths=" ++ t.data_root)
    ∷ []
    ∷ codes "[Install]"
    ∷ codes "WantedBy=multi-user.target"
    ∷ []

-- the body of the here-document of the Caddy snippet
unfoldable pub caddy_lines : Text → Text → List Text
caddy_lines site listen =
    (site ++ codes " {") ∷ (codes "\treverse_proxy " ++ listen) ∷ codes "}" ∷ []

abbrev pub finish_lines : List Text
finish_lines =
    codes
      "grep -qF \"$IMPORT_LINE\" \"$CADDYFILE\" 2>/dev/null || printf '\\n%s\\n' \"$IMPORT_LINE\" >> \"$CADDYFILE\""
    ∷ []
    ∷ codes "systemctl daemon-reload"
    ∷ codes "systemctl enable contextq-server.service >/dev/null"
    ∷ codes "systemctl restart contextq-server.service"
    ∷ codes "if ! CADDY_OUTPUT=\"$(caddy validate --config \"$CADDYFILE\" 2>&1)\"; then"
    ∷ codes "  printf '%s\\n' \"$CADDY_OUTPUT\" >&2"
    ∷ codes "  exit 1"
    ∷ codes "fi"
    ∷ codes "systemctl reload caddy"
    ∷ codes "systemctl is-active --quiet contextq-server.service"
    ∷ codes "echo 'contextq-server bootstrap complete'"
    ∷ []

-- removing the staging directory, when both binaries are in it
unfoldable pub stage_lines : Text → Text → List Text
unfolding assignment path_dir same
stage_lines staged_server staged_contextq =
    if same (path_dir staged_server) (path_dir staged_contextq)
    then assignment (codes "STAGE_DIR") (path_dir staged_server) ∷ trap_line ∷ [] ∷ []
    else []

abbrev pub unit_head : Text
unit_head = codes "cat > \"$UNIT_PATH.new\" <<'SYSTEMD'"

abbrev pub caddy_head : Text
caddy_head = codes "cat > \"$SNIPPET_PATH.new\" <<'CADDY'"

module _ (t : Target) (target_name site listen staged_server staged_contextq unit_path : Text) where
  -- the lines of the variables
  unfoldable pub variable_lines : List Text
  unfolding assignment join_path
  variable_lines =
      assignment (codes "SERVICE_USER") t.service_user
      ∷ assignment (codes "DATA_ROOT") t.data_root
      ∷ assignment (codes "SERVER_SOURCE") staged_server
      ∷ assignment (codes "CONTEXTQ_SOURCE") staged_contextq
      ∷ assignment (codes "SERVER_BIN") t.remote_bin
      ∷ assignment (codes "CONTEXTQ_BIN") t.contextq_bin
      ∷ assignment (codes "UNIT_PATH") unit_path
      ∷ assignment (codes "CADDYFILE") t.caddyfile
      ∷ assignment (codes "SNIPPET_DIR") t.snippet_dir
      ∷ []
      ∷ assignment (codes "SNIPPET_PATH") (join_path t.snippet_dir (target_name ++ codes ".caddy"))
      ∷ []
      ∷ []

  -- from the systemd unit to the import line
  unfoldable pub file_lines : List Text
  unfolding assignment unit_lines caddy_lines join_path
  file_lines =
      (unit_head ∷ unit_lines t listen)
      ++ (codes "SYSTEMD"
          ∷ codes "mv -f \"$UNIT_PATH.new\" \"$UNIT_PATH\""
          ∷ []
          ∷ codes "install -d -m 0755 \"$SNIPPET_DIR\""
          ∷ caddy_head
          ∷ caddy_lines site listen)
      ++ codes "CADDY"
        ∷ codes "mv -f \"$SNIPPET_PATH.new\" \"$SNIPPET_PATH\""
        ∷ assignment (codes "IMPORT_LINE")
            (codes "import " ++ join_path t.snippet_dir (codes "*.caddy"))
        ∷ []

  unfoldable pub script_lines : List Text
  unfolding variable_lines stage_lines file_lines
  script_lines =
      heading
      ++ (variable_lines
          ++ (stage_lines staged_server staged_contextq
              ++ (install_lines ++ (file_lines ++ finish_lines))))

  unfoldable pub script : Text
  unfolding unlines script_lines
  script = unlines script_lines
