-- ===== src/Setup/Safe.antt =====
-- No value of the options can add a variable, a line or a command to the script.
use contextq_server.Prelude.{
  ℤ, ◌≡◌, ◌≢◌, ◌⊎◌, inl, inr, refl, ap, ◌∙◌, true, [], ◌∷◌, ◌++◌, Option, none, some, codes, Text,
  Bytes, arith, every, &&_parts, ok, All, All-append,
}
use contextq_server.Strings.{is_space, NoSpace}
use contextq_server.Names.{matches_name}
use contextq_server.Names.Trim.{matches_name-NoSpace}
use contextq_server.Paths.{is_abs}
use contextq_server.Paths.Lines.{OneLine}
use contextq_server.Target.Data.{Url, Target}
use contextq_server.Target.Validate.{validate, is_clean, is_clean_path, paths_ok, origin}
use contextq_server.Target.Validate.Again.{Usable, Validated, validate_inv}
use contextq_server.Setup.{
  BootstrapOptions, Net, is_inline, is_setup_path, with_defaults, site_of, bootstrap_script,
}
use contextq_server.Setup.Script.{script, script_lines}
use contextq_server.Setup.Reader.{Reading, read, outside, lines-unlines, read_script}
use contextq_server.Setup.Reads.{reading_of, Reads-script_lines}
use contextq_server.Setup.Accepts.{Loopback, InOrder, script_for, bootstrap_script_iff}
use contextq_server.Setup.OneLines.{Inline, script_lines-OneLine}

-- Texts without a line break.
every_clean : (s : Text) → every is_clean s ≡ true → OneLine s
unfolding is_clean
every_clean [] h = tt
every_clean (c ∷ s) h =
    let p = &&_parts (is_clean c) (every is_clean s) h in
    ((λ e. ground (arith, p.0)), every_clean s p.1)

every_inline : (s : Text) → every is_inline s ≡ true → OneLine s
unfolding is_inline
every_inline [] h = tt
every_inline (c ∷ s) h =
    let p = &&_parts (is_inline c) (every is_inline s) h in
    ((λ e. ground (arith, p.0)), every_inline s p.1)

clean_path-OneLine : (s : Text) → is_clean_path s ≡ true → OneLine s
unfolding is_clean_path
clean_path-OneLine s h = every_clean s ((&&_parts (is_abs s) (every is_clean s) h).1)

setup_path-OneLine : (s : Text) → is_setup_path s ≡ true → OneLine s
unfolding is_setup_path
setup_path-OneLine s h = every_inline s ((&&_parts (is_abs s) (every is_inline s) h).1)

NoSpace-OneLine : (s : Text) → All NoSpace s → OneLine s
unfolding is_space
NoSpace-OneLine [] h = tt
NoSpace-OneLine (c ∷ s) (hc, hs) = ((λ e. ground (arith, hc)), NoSpace-OneLine s hs)

name-OneLine : (s : Text) → matches_name s ≡ true → OneLine s
name-OneLine s h = NoSpace-OneLine s (matches_name-NoSpace s h)

-- What the script relies on in net, strconv and net/url: an accepted listen address is its host and
-- port put together, and an IP address, a number and a URL's host have no line break.
pub record Documented (parse : Text → Option Url) (net : Net) : Type 0 where
  pub split_parts :
      (listen host port : Text)
      → net.split_host_port listen ≡ some (host, port)
      → (listen ≡ host ++ b':' ∷ port) ⊎ (listen ≡ b'[' ∷ host ++ b']' ∷ b':' ∷ port)
  pub atoi_line : (s : Text) (n : ℤ) → net.atoi s ≡ some n → OneLine s
  pub ip_line : (s : Text) (ip : Bytes) → net.parse_ip s ≡ some ip → OneLine s
  pub host_line : (s : Text) (u : Url) → parse s ≡ some u → OneLine u.host

cat : (a b : Text) → OneLine a → OneLine b → OneLine (a ++ b)
cat = All-append (λ c. c ≢ 10)

module _ (parse : Text → Option Url) where
  -- what a shell reads in the script for `o` and the target `t`
  abbrev pub reading_for : BootstrapOptions → Target → Reading
  reading_for o t =
      reading_of t o.target_name (site_of (parse t.url)) o.listen o.staged_server o.staged_contextq
        o.systemd_unit_path

module _ (parse : Text → Option Url) (net : Net) (doc : Documented parse net) where
  local-OneLine :
      (host : Text)
      → (host ≡ codes "localhost")
        ⊎ ((ip : Bytes) × (net.parse_ip host ≡ some ip) × (net.is_loopback ip ≡ true))
      → OneLine host
  local-OneLine host (inl e) = rw e (omega arith)
  local-OneLine host (inr (ip, h, _)) = doc.ip_line host ip h

  Loopback-OneLine : (listen : Text) → Loopback parse net listen → OneLine listen
  Loopback-OneLine listen l =
      let h = local-OneLine l.host l.local in
      let p = doc.atoi_line l.port _ l.port_is in
      elim (doc.split_parts listen l.host l.port l.split) [
        | inl e ↦ rw e (cat l.host (b':' ∷ l.port) h ((λ q. omega arith), p))
        | inr e ↦ rw e (
          (λ q. omega arith),
          cat l.host (b']' ∷ b':' ∷ l.port) h ((λ q. omega arith), ((λ q. omega arith), p)),
        )
      ]

  origin_inv : (o : Option Url) {u : Url} → origin o ≡ ok u → o ≡ some u
  unfolding origin
  origin_inv none h = cc
  origin_inv (some u) h = ground (arith, h)

  paths_ok-parts :
      (t : Target)
      → paths_ok t ≡ true
      → OneLine t.remote_bin
        × OneLine t.contextq_bin
        × OneLine t.data_root
        × OneLine t.caddyfile
        × OneLine t.snippet_dir
  unfolding paths_ok
  paths_ok-parts t h = (
    clean_path-OneLine t.remote_bin (ground (arith, h)),
    clean_path-OneLine t.contextq_bin (ground (arith, h)),
    clean_path-OneLine t.data_root (ground (arith, h)),
    clean_path-OneLine t.caddyfile (ground (arith, h)),
    clean_path-OneLine t.snippet_dir (ground (arith, h)),
  )

  site_of-OneLine : (url : Text) (u : Url) → parse url ≡ some u → OneLine (site_of (parse url))
  unfolding site_of
  site_of-OneLine url u h = rw h (doc.host_line url u h)

  Inline-InOrder :
      (options o : BootstrapOptions) (t : Target)
      → InOrder parse net options o t
      → o.target_name ≡ options.target_name
      → Inline t o.target_name
          (site_of (parse t.url))
          o.listen
          o.staged_server
          o.staged_contextq
          o.systemd_unit_path
  Inline-InOrder options o t i e =
      let v = validate_inv parse options.target i.target in
      let p = paths_ok-parts t (Usable.paths (Validated.usable v)) in
      record {
        service_user = name-OneLine t.service_user v.usable.service_user;
        data_root = p.2;
        remote_bin = p.0;
        contextq_bin = p.1;
        caddyfile = p.3;
        snippet_dir = p.4;
        target = rw e (name-OneLine options.target_name i.name);
        host = site_of-OneLine t.url v.parsed (origin_inv (parse t.url) v.origin_is);
        address = Loopback-OneLine o.listen i.listen;
        server = setup_path-OneLine o.staged_server i.server;
        contextq = setup_path-OneLine o.staged_contextq i.contextq;
        unit = setup_path-OneLine o.systemd_unit_path i.unit;
      }

  read-script :
      (o : BootstrapOptions) (t : Target)
      → Inline t o.target_name
          (site_of (parse t.url))
          o.listen
          o.staged_server
          o.staged_contextq
          o.systemd_unit_path
      → read_script (script_for parse net o t) ≡ some (reading_for parse o t)
  unfolding read_script script
  read-script o t v =
      ap (read outside) (
        lines-unlines
          (script_lines t o.target_name (site_of (parse t.url)) o.listen o.staged_server
            o.staged_contextq o.systemd_unit_path)
          (script_lines-OneLine t o.target_name (site_of (parse t.url)) o.listen o.staged_server
            o.staged_contextq o.systemd_unit_path v))
      ∙ (Reads-script_lines t o.target_name (site_of (parse t.url)) o.listen o.staged_server
          o.staged_contextq o.systemd_unit_path).run

  -- A shell reads in the script of BootstrapScript exactly the variables, here-documents and commands
  -- that it is meant to have: whatever characters the options and the validated target hold, each
  -- value is the value of its variable or stands in its line of the systemd unit or of the Caddy
  -- snippet, and none adds a variable, a line or a command.
  pub read_script-bootstrap_script :
      (options : BootstrapOptions) (s : Text)
      → bootstrap_script parse net options ≡ ok s
      → (t : Target) × (validate parse options.target ≡ ok t)
        × (read_script s ≡ some (reading_for parse (with_defaults options) t))
  read_script-bootstrap_script options s h =
      let q = (bootstrap_script_iff parse net options s).0 h in
      let o = with_defaults options in
      let r =
        read-script o (q.0) (Inline-InOrder options o (q.0) (q.1) (unfold with_defaults in refl)) in
      (q.0, (q.1).target, ap read_script (q.2) ∙ r)
