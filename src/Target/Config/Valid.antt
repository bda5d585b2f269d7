-- ===== src/Target/Config/Valid.antt =====
-- A validated configuration is valid, and only its version may have changed.
use mathlib.Core.Path.{subst}
use contextq_server.Prelude.{
  ℕ, ℤ, pos, negsuc, is_nat, ◌≡◌, refl, sym, Bool-cases, inl, inr, true, not, ◌&&◌, Option, [],
  if◌then◌else◌, ok, ◌>>=◌, >>=_inv, Text, arith, same,
}
use contextq_server.Target.Data.{Url, Config}
use contextq_server.Target.Config.{
  check_targets, check_default, validate_config, lookup, has_target,
}

is_nat_inv : (v : ℤ) (n : ℕ) → is_nat v n ≡ true → v ≡ pos n
is_nat_inv (pos m) n h = let e : m ≡ n = ground (arith, h) in rw e refl
is_nat_inv (negsuc m) n h = cc

module _ (parse : Text → Option Url) where
  check_default_inv :
      (c : Config) {c' : Config}
      → check_default parse c ≡ ok c'
      → (c' ≡ c) × (check_default parse c ≡ ok c)
  check_default_inv c h =
      elim (Bool-cases
        (not (same c.default_name []) && not (has_target (lookup c.default_name c.targets)))) [
          | inl e ↦ cc (rw e at h)
          | inr e ↦ (cc (rw e at h), rw e refl)
        ]

  validate_config_from :
      (c : Config) (version : ℤ) {c' : Config}
      → version ≡ pos 1
      → (check_targets parse c.targets >>= λ _.
          check_default parse (record c { version = version }))
        ≡ ok c'
      → (c' ≡ record c { version = pos 1 })
        × (validate_config parse (record c { version = pos 1 }) ≡ ok (record c { version = pos 1 }))
  unfolding validate_config
  validate_config_from c version e h =
      let q = >>=_inv (check_targets parse c.targets) _ (rw e at h) in
      let d = check_default_inv (record c { version = pos 1 }) (q.2) in (d.0, rw (q.1) (d.1))

  -- A validated configuration has the version 1, and the rest of what went in; it is valid.
  pub validate_config_inv :
      (c : Config) {c' : Config}
      → validate_config parse c ≡ ok c'
      → (c' ≡ record c { version = pos 1 }) × (validate_config parse c' ≡ ok c')
  unfolding validate_config
  validate_config_inv c {c'} h =
      let version = if is_nat c.version 0 then pos 1 else c.version in
      elim (Bool-cases (is_nat version 1)) [
        | inl e ↦
            let q = validate_config_from c version (is_nat_inv version 1 e) (rw e at h) in
            (q.0, subst (λ x. validate_config parse x ≡ ok x) (sym (q.0)) (q.1))
        | inr e ↦ cc (rw e at h)
      ]
