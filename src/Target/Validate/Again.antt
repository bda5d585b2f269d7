-- ===== src/Target/Validate/Again.antt =====
-- A validated target stays as it is when it is validated again.
use mathlib.Core.Path.{subst}
use contextq_server.Prelude.{
  ◌≡◌, refl, ◌>>=◌, codes, sym, ◌∙◌, ap, true, [], ◌∷◌, Option, Result, ok, err, Text, Bool-cases,
  inl, inr, arith, same, if◌then◌else◌, ◌==◌,
}
use mathlib.Core.List.{reverse, reverse-reverse}
use contextq_server.Strings.{trim_space}
use contextq_server.Names.{matches_name}
use contextq_server.Target.Data.{Url, Target, TargetError}
use contextq_server.Target.Validate.{
  drop_slashes, trim_right_slash, origin, or_default, normalize, check_fields, validate,
  port_in_range, paths_ok,
}

drop_slashes-drop_slashes : (s : Text) → drop_slashes (drop_slashes s) ≡ drop_slashes s
unfolding drop_slashes
drop_slashes-drop_slashes [] = refl
drop_slashes-drop_slashes (c ∷ s) = elim (Bool-cases (c == b'/')) [
  | inl e ↦ rw e (drop_slashes-drop_slashes s)
  | inr e ↦ rw e (rw e refl)
]

trim_right_slash-trim_right_slash :
    (s : Text) → trim_right_slash (trim_right_slash s) ≡ trim_right_slash s
unfolding trim_right_slash
trim_right_slash-trim_right_slash s =
    rw (reverse-reverse (drop_slashes (reverse s)), drop_slashes-drop_slashes (reverse s)) refl

if_same : (d : Text) → (if same d [] then d else d) ≡ d
if_same d = elim (Bool-cases (same d [])) [ inl e ↦ rw e refl | inr e ↦ rw e refl ]

or_default-or_default : (v d : Text) → or_default (or_default v d) d ≡ or_default v d
unfolding or_default
or_default-or_default v d = elim (Bool-cases (same v [])) [
  | inl e ↦ rw e (if_same d)
  | inr e ↦ rw e (rw e refl)
]

-- What the program relies on in a target that it uses.
pub record Usable (t : Target) : Type 0 where
  pub namespace : matches_name t.namespace ≡ true
  pub port : port_in_range t.ssh_port ≡ true
  pub paths : paths_ok t ≡ true
  pub service_user : matches_name t.service_user ≡ true

check_fields_inv : (t : Target) {t' : Target} → check_fields t ≡ ok t' → (t' ≡ t) × Usable t
unfolding check_fields
check_fields_inv t {t'} h = (
  ground arith,
  record {
    namespace = ground arith;
    port = ground arith;
    paths = ground arith;
    service_user = ground arith;
  },
)

check_fields-Usable : (t : Target) → Usable t → check_fields t ≡ ok t
unfolding check_fields
check_fields-Usable t u = rw (u.namespace, u.port, u.paths, u.service_user) refl

normalize-normalize :
    (url : Text) (u : Url) (t : Target)
    → trim_space (normalize url u t).ssh_host ≡ (normalize url u t).ssh_host
    → normalize url u (normalize url u t) ≡ normalize url u t
unfolding normalize
normalize-normalize url u t h =
    rw
      (
        h,
        or_default-or_default (trim_space t.ssh_host) u.hostname,
        or_default-or_default t.ssh_user (codes "root"),
        or_default-or_default t.remote_bin (codes "/usr/local/bin/contextq-server"),
        or_default-or_default t.contextq_bin (codes "/usr/local/bin/contextq"),
        or_default-or_default t.data_root (codes "/var/contextq"),
        or_default-or_default t.caddyfile (codes "/etc/caddy/Caddyfile"),
        or_default-or_default t.snippet_dir (codes "/etc/caddy/contextq.d"),
        or_default-or_default t.service_user (codes "contextq"),
      )
      refl

normalize-url : (url : Text) (u : Url) (t : Target) → (normalize url u t).url ≡ url
unfolding normalize
normalize-url url u t = refl

-- neither end of the URL and of the SSH host has white space
pub record Trimmed (t : Target) : Type 0 where
  pub url : trim_space t.url ≡ t.url
  pub ssh_host : trim_space t.ssh_host ≡ t.ssh_host

module _ (parse : Text → Option Url) where
  -- the URL of a validated target, and its fields
  pub record Validated (t t' : Target) : Type 0 where
    pub parsed : Url
    pub url_is : t'.url ≡ trim_right_slash (trim_space t.url)
    pub origin_is : origin (parse t'.url) ≡ ok parsed
    pub filled_in : t' ≡ normalize t'.url parsed t
    pub usable : Usable t'

  validated_from :
      (t : Target) (url : Text) (r : Result TargetError Url) {t' : Target}
      → (r >>= λ u. check_fields (normalize url u t)) ≡ ok t'
      → (u : Url) × (r ≡ ok u) × (t' ≡ normalize url u t) × Usable (normalize url u t)
  validated_from t url (ok u) h =
      let q = check_fields_inv (normalize url u t) h in (u, refl, q.0, q.1)
  validated_from t url (err e) h = cc

  pub validate_inv : (t : Target) {t' : Target} → validate parse t ≡ ok t' → Validated t t'
  unfolding validate
  validate_inv t {t'} h =
      let url = trim_right_slash (trim_space t.url) in
      let q = validated_from t url (origin (parse url)) h in
      let e : t'.url ≡ url = ap (λ (x : Target). x.url) (q.2) ∙ normalize-url url (q.0) t in
      record {
        parsed = q.0;
        url_is = e;
        origin_is = subst (λ u. origin (parse u) ≡ ok (q.0)) (sym e) (q.1);
        filled_in = subst (λ u. t' ≡ normalize u (q.0) t) (sym e) (q.2);
        usable = subst Usable (sym (q.2)) (q.3);
      }

  -- Validate is idempotent: a target that it has returned is returned as it is when it is validated
  -- again, if neither its URL nor its SSH host begins or ends with white space.
  pub validate-validate :
      (t t' : Target) → Trimmed t' → validate parse t ≡ ok t' → validate parse t' ≡ ok t'
  unfolding validate
  validate-validate t t' trimmed h =
      let v = validate_inv t h in
      let url : trim_right_slash (trim_space t'.url) ≡ t'.url =
        ap trim_right_slash trimmed.url
        ∙ rw v.url_is (trim_right_slash-trim_right_slash (trim_space t.url)) in
      let same_target : normalize t'.url v.parsed t' ≡ t' =
        subst (λ x. normalize t'.url v.parsed x ≡ x) (sym v.filled_in)
          (normalize-normalize t'.url v.parsed t (
            subst (λ (x : Target). trim_space x.ssh_host ≡ x.ssh_host) v.filled_in
              trimmed.ssh_host)) in
      rw (url, v.origin_is, same_target) (check_fields-Usable t' v.usable)
