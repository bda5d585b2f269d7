-- ===== src/Target/Config/Same.antt =====
-- Two configurations with the same targets, in whatever order their lists have them.
use contextq_server.Prelude.{
  pos, is_nat, ◌≡◌, refl, ◌∙◌, Bool-cases, inl, inr, true, false, not, ◌&&◌, [], ◌∷◌, Option, some,
  ok, >>=_inv, Text, same, same_iff, All,
}
use contextq_server.Names.{matches_name}
use contextq_server.Target.Data.{Url, Target, Config}
use contextq_server.Target.Validate.{validate}
use contextq_server.Target.Config.{
  Targets, lookup, has_target, check_targets, check_default, validate_config,
}

-- `d` has the targets of `c` under their names, each once, and the rest of `c`.
pub record SameConfig (c d : Config) : Type 0 where
  pub version : d.version ≡ c.version
  pub default_name : d.default_name ≡ c.default_name
  pub targets : (name : Text) → lookup name d.targets ≡ lookup name c.targets
  pub each : All (λ x. lookup x.0 c.targets ≡ some x.1) d.targets

module _ (parse : Text → Option Url) where
  -- what Config.Validate asks of a target and its name
  abbrev Checked : Text → Target → Type 0
  Checked name t = (matches_name name ≡ true) × ((t' : Target) × (validate parse t ≡ ok t'))

  check_targets_inv :
      (name : Text) (t : Target) (rest : Targets)
      → check_targets parse ((name, t) ∷ rest) ≡ ok tt
      → Checked name t × (check_targets parse rest ≡ ok tt)
  unfolding check_targets
  check_targets_inv name t rest h = elim (Bool-cases (matches_name name)) [
    | inl e ↦ let q = >>=_inv (validate parse t) _ (rw e at h) in ((e, (q.0, q.1)), q.2)
    | inr e ↦ cc (rw e at h)
  ]

  check_targets-lookup :
      (m : Targets) (name : Text) (t : Target)
      → check_targets parse m ≡ ok tt
      → lookup name m ≡ some t
      → Checked name t
  unfolding lookup
  check_targets-lookup [] name t h k = cc
  check_targets-lookup ((n, u) ∷ rest) name t h k =
      let q = check_targets_inv n u rest h in
      elim (Bool-cases (same n name)) [
        | inl e ↦
            let a : n ≡ name = (same_iff n name).0 e in
            let b : u ≡ t = cc (rw e at k) in rw (← a, ← b) (q.0)
        | inr e ↦ check_targets-lookup rest name t (q.1) (rw e at k)
      ]

  check_targets-All : (m : Targets) → All (λ x. Checked x.0 x.1) m → check_targets parse m ≡ ok tt
  unfolding check_targets
  check_targets-All [] h = refl
  check_targets-All ((n, u) ∷ rest) h = rw (h.0.0, h.0.1.1, check_targets-All rest h.1) refl

  each_checked :
      (c m : Targets)
      → check_targets parse c ≡ ok tt
      → All (λ x. lookup x.0 c ≡ some x.1) m
      → All (λ x. Checked x.0 x.1) m
  each_checked c [] h a = tt
  each_checked c ((n, u) ∷ rest) h a = (check_targets-lookup c n u h a.0, each_checked c rest h a.1)

  check_default_same :
      (c d : Config) → SameConfig c d → check_default parse c ≡ ok c → check_default parse d ≡ ok d
  check_default_same c d s h =
      elim (Bool-cases
        (not (same c.default_name []) && not (has_target (lookup c.default_name c.targets)))) [
          | inl e ↦ cc (rw e at h)
          | inr e ↦ rw (s.default_name, s.targets c.default_name, e) refl
        ]

  -- Config.Validate does not look at the order.
  pub validate_config-SameConfig :
      (c d : Config)
      → SameConfig c d
      → c.version ≡ pos 1
      → validate_config parse c ≡ ok c
      → validate_config parse d ≡ ok d
  unfolding validate_config
  validate_config-SameConfig c d s one h =
      let v : is_nat c.version 1 ≡ true = rw one refl in
      let z : is_nat c.version 0 ≡ false = rw one refl in
      let q = >>=_inv (check_targets parse c.targets) _ (rw (z, v) at h) in
      let w = s.version ∙ one in
      let v' : is_nat d.version 1 ≡ true = rw w refl in
      let z' : is_nat d.version 0 ≡ false = rw w refl in
      let t = check_targets-All d.targets (each_checked c.targets d.targets (q.1) s.each) in
      rw (z', v', t) (check_default_same c d s (q.2))
