-- ===== src/Target/Config.antt =====
-- Config of internal/target/config.go, and what `target use` and `target remove` of
-- internal/app/remote.go do to it.
pub mod Kept
pub mod Valid
pub mod Same
use contextq_server.Prelude.{
  ℕ, ℤ, pos, is_nat, Bool, true, false, not, ◌&&◌, ◌||◌, List, [], ◌∷◌, Option, none, some,
  if◌then◌else◌, ltb, ◌==◌, Result, ok, err, ◌>>=◌, Text, codes, same, map,
}
use contextq_server.Strings.{trim_space}
use contextq_server.Names.{matches_name}
use contextq_server.Target.Data.{
  Url, Target, Config, Named, TargetError, unsupported_version, invalid_name, missing_default,
  no_default, missing_target,
}
use contextq_server.Target.Validate.{validate, or_default}

abbrev pub Targets : Type 0
Targets = List (Text × Target)

-- `m[name]`
unfoldable pub lookup : Text → Targets → Option Target
unfolding same
lookup name [] = none
lookup name ((n, t) ∷ rest) = let found = lookup name rest in if same n name then some t else found

-- `delete(m, name)`
unfoldable pub delete : Text → Targets → Targets
unfolding same
delete name [] = []
delete name ((n, t) ∷ rest) =
    let rest' = delete name rest in if same n name then rest' else (n, t) ∷ rest'

-- `m[name] = t`
abbrev pub assign : Text → Target → Targets → Targets
assign name t m = (name, t) ∷ delete name m

unfoldable pub has_target : Option Target → Bool
has_target none = false
has_target (some t) = true

-- The order of strings. Target names have ASCII characters only, so that their bytes are their code
-- points.
unfoldable pub less : Text → Text → Bool
less s [] = false
less [] (d ∷ t) = true
less (c ∷ s) (d ∷ t) = ltb c d || c == d && less s t

insert : Text → List Text → List Text
unfolding less
insert s [] = s ∷ []
insert s (t ∷ ts) = let rest = insert s ts in if less t s then t ∷ rest else s ∷ t ∷ ts

unfoldable pub sort : List Text → List Text
unfolding insert
sort [] = []
sort (s ∷ ss) = insert s (sort ss)

-- Names
unfoldable pub names : Targets → List Text
unfolding sort
names m = sort (map (λ x. x.0) m)

module _ (parse : Text → Option Url) where
  -- the loop of Config.Validate; each target is validated in a copy that is dropped
  unfoldable pub check_targets : Targets → Result TargetError (Unit {0})
  check_targets [] = ok tt
  check_targets ((name, t) ∷ rest) =
      let others = check_targets rest in
      if not (matches_name name) then err invalid_name else (validate parse t >>= λ _. others)

  abbrev pub check_default : Config → Result TargetError Config
  check_default c =
      if not (same c.default_name []) && not (has_target (lookup c.default_name c.targets))
      then err missing_default
      else ok c

  -- Config.Validate, which sets a version of 0
  unfoldable pub validate_config : Config → Result TargetError Config
  validate_config c =
      let version = if is_nat c.version 0 then pos 1 else c.version in
      if not (is_nat version 1)
      then err unsupported_version
      else (check_targets c.targets >>= λ _. check_default (record c { version = version }))

  abbrev pub validated_named : Text → Option Target → Result TargetError Named
  validated_named name none = err missing_target
  validated_named name (some t) =
      validate parse t >>= λ t'. ok (record { name = name; target = t' })

  -- Resolve, after the test for an empty name
  abbrev pub resolve_named : Config → Text → Result TargetError Named
  resolve_named c name = validated_named name (lookup name c.targets)

  unfoldable pub resolve : Config → Text → Result TargetError Named
  resolve c name =
      let n = or_default (trim_space name) c.default_name in
      if same n [] then err no_default else resolve_named c n

  -- Config.Set
  unfoldable pub set : Config → Text → Target → Bool → Result TargetError Config
  set c name t make_default =
      if not (matches_name name)
      then err invalid_name
      else (validate parse t >>= λ t'. ok (record c {
        targets = assign name t' c.targets;
        default_name = if make_default || same c.default_name [] then name else c.default_name;
      }))

-- `target use`
unfoldable pub use_target : Config → Text → Result TargetError Config
use_target c name =
    if has_target (lookup name c.targets)
    then ok (record c { default_name = name })
    else err missing_target

-- the first of the names, if there is one
unfoldable pub first_name : List Text → Text
first_name [] = []
first_name (n ∷ ns) = n

-- `target remove`
unfoldable pub remove_target : Config → Text → Result TargetError Config
remove_target c name =
    let left = delete name c.targets in
    if has_target (lookup name c.targets)
    then ok (record c {
      targets = left;
      default_name = if same c.default_name name then first_name (names left) else c.default_name;
    })
    else err missing_target
