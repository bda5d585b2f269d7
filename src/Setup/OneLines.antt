-- ===== src/Setup/OneLines.antt =====
-- No value adds a line to the script of BootstrapScript.
use contextq_server.Prelude.{
  ◌≡◌, refl, ◌≢◌, true, not, Bool, Bool-cases, inl, inr, List, [], ◌∷◌, ◌++◌, codes, Text, same,
  arith, ◌==◌, every, &&_parts, All, All-append,
}
use contextq_server.Strings.{replace_all}
use contextq_server.Paths.{join_path, path_dir}
use contextq_server.Paths.Lines.{OneLine, join_path-OneLine, path_dir-OneLine}
use contextq_server.Remote.Shell.{quote, shell_quote}
use contextq_server.Target.Data.{Target}
use contextq_server.Setup.Script.{
  heading, trap_line, install_lines, finish_lines, assignment, script_lines, variable_lines,
  stage_lines, file_lines, unit_lines, caddy_lines,
}

abbrev one_line : Text → Bool
one_line s = every (λ c. not (c == 10)) s

one_line-OneLine : (s : Text) → one_line s ≡ true → OneLine s
one_line-OneLine [] h = tt
one_line-OneLine (c ∷ s) h =
    let p = &&_parts (not (c == 10)) (one_line s) h in
    ((λ e. ground (arith, p.0)), one_line-OneLine s p.1)

-- Lines without a line break in them, one after the other.
infixr 30 ◌▸◌
data OneLines : List Text → Type 0 where
  no_lines : OneLines []
  ◌▸◌ : {l : Text} {ls : List Text} → OneLine l → OneLines ls → OneLines (l ∷ ls)

OneLines-All : {ls : List Text} → OneLines ls → All OneLine ls
OneLines-All no_lines = tt
OneLines-All (h ▸ hs) = (h, OneLines-All hs)

OneLines-append : {xs ys : List Text} → OneLines xs → OneLines ys → OneLines (xs ++ ys)
OneLines-append no_lines k = k
OneLines-append (h ▸ hs) k = h ▸ OneLines-append hs k

-- a line that no value is part of
fixed : (ls : List Text) → every one_line ls ≡ true → OneLines ls
fixed [] h = no_lines
fixed (l ∷ ls) h =
    let p = &&_parts (one_line l) (every one_line ls) h in one_line-OneLine l p.0 ▸ fixed ls p.1

cat-OneLine : (a b : Text) → OneLine a → OneLine b → OneLine (a ++ b)
cat-OneLine = All-append (λ c. c ≢ 10)

after-OneLine : (a b : Text) → one_line a ≡ true → OneLine b → OneLine (a ++ b)
after-OneLine a b h k = cat-OneLine a b (one_line-OneLine a h) k

then-OneLine : (a l b : Text) → OneLine a → one_line l ≡ true → OneLine b → OneLine (a ++ l ++ b)
then-OneLine a l b h k m = cat-OneLine (a ++ l) b (cat-OneLine a l h (one_line-OneLine l k)) m

replace_all-OneLine : (new s : Text) → OneLine new → OneLine s → OneLine (replace_all quote new s)
unfolding replace_all
replace_all-OneLine new [] h k = tt
replace_all-OneLine new (c ∷ s) h (kc, ks) = elim (Bool-cases (c == quote)) [
  | inl e ↦ rw e (cat-OneLine new (replace_all quote new s) h (replace_all-OneLine new s h ks))
  | inr e ↦ rw e (kc, replace_all-OneLine new s h ks)
]

shell_quote-OneLine : (s : Text) → OneLine s → OneLine (shell_quote s)
unfolding shell_quote
shell_quote-OneLine s h = (
  (λ e. omega arith),
  cat-OneLine (replace_all quote (codes "'\\''") s) (codes "'")
      (replace_all-OneLine (codes "'\\''") s (omega arith) h) (omega arith),
)

assignment-OneLine :
    (name v : Text) → one_line name ≡ true → OneLine v → OneLine (assignment name v)
unfolding assignment
assignment-OneLine name v h k =
    after-OneLine name (b'=' ∷ shell_quote v) h ((λ e. omega arith), shell_quote-OneLine v k)

-- The values that the script is made of have no line break.
pub record Inline (t : Target)
    (target_name site listen staged_server staged_contextq unit_path : Text) : Type 0 where
  pub service_user : OneLine t.service_user
  pub data_root : OneLine t.data_root
  pub remote_bin : OneLine t.remote_bin
  pub contextq_bin : OneLine t.contextq_bin
  pub caddyfile : OneLine t.caddyfile
  pub snippet_dir : OneLine t.snippet_dir
  pub target : OneLine target_name
  pub host : OneLine site
  pub address : OneLine listen
  pub server : OneLine staged_server
  pub contextq : OneLine staged_contextq
  pub unit : OneLine unit_path

module _ (t : Target) (target_name site listen staged_server staged_contextq unit_path : Text)
    (v : Inline t target_name site listen staged_server staged_contextq unit_path) where
  unit_lines-OneLines : OneLines (unit_lines t listen)
  unfolding unit_lines
  unit_lines-OneLines =
      let exec = codes "ExecStart=" ++ t.remote_bin in
      let serve = exec ++ codes " serve --listen " ++ listen in
      let root = serve ++ codes " --data-root " ++ t.data_root in
      let h1 = after-OneLine (codes "ExecStart=") t.remote_bin refl v.remote_bin in
      let h2 = then-OneLine exec (codes " serve --listen ") listen h1 refl v.address in
      let h3 = then-OneLine serve (codes " --data-root ") t.data_root h2 refl v.data_root in
      let h4 = then-OneLine root (codes " --contextq-bin ") t.contextq_bin h3 refl v.contextq_bin in
      omega arith
      ▸ omega arith
      ▸ omega arith
      ▸ omega arith
      ▸ omega arith
      ▸ omega arith
      ▸ omega arith
      ▸ after-OneLine (codes "User=") t.service_user refl v.service_user
      ▸ after-OneLine (codes "Group=") t.service_user refl v.service_user
      ▸ after-OneLine (codes "WorkingDirectory=") t.data_root refl v.data_root
      ▸ h4
      ▸ omega arith
      ▸ omega arith
      ▸ omega arith
      ▸ omega arith
      ▸ omega arith
      ▸ omega arith
      ▸ omega arith
      ▸ after-OneLine (codes "ReadWritePaths=") t.data_root refl v.data_root
      ▸ omega arith
      ▸ omega arith
      ▸ omega arith
      ▸ no_lines

  variable_lines-OneLines :
      OneLines (variable_lines t target_name site listen staged_server staged_contextq unit_path)
  unfolding variable_lines
  variable_lines-OneLines =
      assignment-OneLine (codes "SERVICE_USER") t.service_user refl v.service_user
      ▸ assignment-OneLine (codes "DATA_ROOT") t.data_root refl v.data_root
      ▸ assignment-OneLine (codes "SERVER_SOURCE") staged_server refl v.server
      ▸ assignment-OneLine (codes "CONTEXTQ_SOURCE") staged_contextq refl v.contextq
      ▸ assignment-OneLine (codes "SERVER_BIN") t.remote_bin refl v.remote_bin
      ▸ assignment-OneLine (codes "CONTEXTQ_BIN") t.contextq_bin refl v.contextq_bin
      ▸ assignment-OneLine (codes "UNIT_PATH") unit_path refl v.unit
      ▸ assignment-OneLine (codes "CADDYFILE") t.caddyfile refl v.caddyfile
      ▸ assignment-OneLine (codes "SNIPPET_DIR") t.snippet_dir refl v.snippet_dir
      ▸ tt
      ▸ assignment-OneLine (codes "SNIPPET_PATH") _ refl (
          join_path-OneLine t.snippet_dir (target_name ++ codes ".caddy") v.snippet_dir (
            cat-OneLine target_name (codes ".caddy") v.target
              (one_line-OneLine (codes ".caddy") refl)))
      ▸ tt
      ▸ no_lines

  stage_lines-OneLines : OneLines (stage_lines staged_server staged_contextq)
  unfolding stage_lines
  stage_lines-OneLines =
      elim (Bool-cases (same (path_dir staged_server) (path_dir staged_contextq))) [
        | inl e ↦ rw e (
            assignment-OneLine (codes "STAGE_DIR") (path_dir staged_server) refl
              (path_dir-OneLine staged_server v.server)
            ▸ fixed (trap_line ∷ [] ∷ []) refl)
        | inr e ↦ rw e no_lines
      ]

  file_lines-OneLines :
      OneLines (file_lines t target_name site listen staged_server staged_contextq unit_path)
  unfolding file_lines caddy_lines
  file_lines-OneLines =
      omega arith
      ▸ OneLines-append unit_lines-OneLines (
          omega arith
          ▸ omega arith
          ▸ omega arith
          ▸ omega arith
          ▸ omega arith
          ▸ cat-OneLine site (codes " {") v.host (omega arith)
          ▸ after-OneLine (codes "\treverse_proxy ") listen refl v.address
          ▸ omega arith
          ▸ omega arith
          ▸ omega arith
          ▸ assignment-OneLine (codes "IMPORT_LINE")
              (codes "import " ++ join_path t.snippet_dir (codes "*.caddy")) refl
              (after-OneLine (codes "import ") (join_path t.snippet_dir (codes "*.caddy")) refl
                (join_path-OneLine t.snippet_dir (codes "*.caddy") v.snippet_dir (omega arith)))
          ▸ no_lines)

  pub script_lines-OneLine :
      All OneLine (script_lines t target_name site listen staged_server staged_contextq unit_path)
  unfolding script_lines
  script_lines-OneLine = OneLines-All (
      OneLines-append (fixed heading refl) (
        OneLines-append variable_lines-OneLines (
          OneLines-append stage_lines-OneLines (
            OneLines-append (fixed install_lines refl)
              (OneLines-append file_lines-OneLines (fixed finish_lines refl))))))
