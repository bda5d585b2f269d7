-- ===== src/Target/Config/Kept.antt =====
-- Looking up what was saved, and that the saved configuration stays valid.
use mathlib.Core.Path.{subst}
use contextq_server.Prelude.{
  ◌≡◌, ◌≢◌, ◌⊎◌, refl, sym, ◌∙◌, ap, true, false, ◌||◌, Bool, List, [], ◌∷◌, Option, some, Result,
  ok, err, ◌>>=◌, Text, Bool-cases, inl, inr, arith, same, same_iff, same_refl, same_ne,
  if◌then◌else◌,
}
use contextq_server.Names.{matches_name, matches_name-IsPlainName}
use contextq_server.Names.Trim.{matches_name-trim_space}
use contextq_server.Strings.{trim_space}
use contextq_server.Target.Data.{Url, Target, Config, TargetError}
use contextq_server.Target.Validate.{validate, or_default}
use contextq_server.Target.Validate.Again.{Trimmed, validate-validate}
use contextq_server.Target.Config.{
  Targets, lookup, delete, assign, has_target, insert, less, sort, names, resolve_named, resolve,
  set, use_target, first_name, remove_target,
}

false-true : ¬ (false ≡ true)
false-true h = cc

or_true : (b : Bool) → (b || same [] []) ≡ true
unfolding same
or_true b = ground arith

lookup-delete : (n name : Text) (m : Targets) → n ≢ name → lookup n (delete name m) ≡ lookup n m
unfolding lookup delete
lookup-delete n name [] h = refl
lookup-delete n name ((k, t) ∷ m) h = elim (Bool-cases (same k name)) [
  | inl e ↦
      let k_is : k ≡ name = (same_iff k name).0 e in
      rw (e, same_ne k n (λ q. h (sym q ∙ k_is))) (lookup-delete n name m h)
  | inr e ↦ rw (e, lookup-delete n name m h) refl
]

pub lookup-assign :
    (name : Text) (t : Target) (m : Targets) → lookup name (assign name t m) ≡ some t
unfolding lookup
lookup-assign name t m = rw (same_refl name) refl

lookup-assign_ne :
    (n name : Text) (t : Target) (m : Targets) → n ≢ name → lookup n (assign name t m) ≡ lookup n m
unfolding lookup
lookup-assign_ne n name t m h = rw (same_ne name n (λ e. h (sym e))) (lookup-delete n name m h)

trimmed_or_default :
    (name d : Text) → matches_name name ≡ true → or_default (trim_space name) d ≡ name
unfolding or_default
trimmed_or_default name d h =
    rw (matches_name-trim_space name h)
      (rw (same_ne name [] (matches_name-IsPlainName name h).not_empty) refl)

module _ (parse : Text → Option Url) where
  -- what a successful Set has done
  pub record WasSet (c : Config) (name : Text) (t : Target) (make_default : Bool) (c' : Config)
      : Type 0 where
    pub plain : matches_name name ≡ true
    pub target : Target
    pub validated : validate parse t ≡ ok target
    pub result : c' ≡ record c {
      targets = assign name target c.targets;
      default_name = if make_default || same c.default_name [] then name else c.default_name;
    }

  bind_inv :
      {A B : Type 0} (r : Result TargetError A) (f : A → B) {b : B}
      → (r >>= λ a. ok (f a)) ≡ ok b
      → (a : A) × (r ≡ ok a) × (b ≡ f a)
  bind_inv (ok a) f h = (a, refl, cc)
  bind_inv (err e) f h = cc

  pub set_inv :
      (c : Config) (name : Text) (t : Target) (make_default : Bool) {c' : Config}
      → set parse c name t make_default ≡ ok c'
      → WasSet c name t make_default c'
  unfolding set
  set_inv c name t make_default h = elim (Bool-cases (matches_name name)) [
    | inl e ↦
        let q = bind_inv (validate parse t) _ (rw e at h) in
        record { plain = e; target = q.0; validated = q.1; result = q.2 }
    | inr e ↦ cc (rw e at h)
  ]

  resolve_named-lookup :
      (c : Config) (name : Text) {t : Target}
      → lookup name c.targets ≡ some t
      → validate parse t ≡ ok t
      → resolve_named parse c name ≡ ok (record { name = name; target = t })
  resolve_named-lookup c name l v = rw l (rw v refl)

  -- A target that was set is found again under its name, validated, and every other name has the
  -- target that it had, if the validated URL and SSH host begin and end without white space.
  pub resolve-set :
      (c c' : Config) (name : Text) (t t' : Target) (make_default : Bool)
      → validate parse t ≡ ok t'
      → Trimmed t'
      → set parse c name t make_default ≡ ok c'
      → (resolve parse c' name ≡ ok (record { name = name; target = t' }))
        × ((n : Text) → n ≢ name → lookup n c'.targets ≡ lookup n c.targets)
  unfolding resolve
  resolve-set c c' name t t' make_default v trimmed h =
      let w = set_inv c name t make_default h in
      let target_is : w.target ≡ t' = cc in
      let targets_are : c'.targets ≡ assign name t' c.targets =
        ap (λ (x : Config). x.targets) w.result ∙ ap (λ x. assign name x c.targets) target_is in
      (
        rw (trimmed_or_default name c'.default_name w.plain) (
            rw (same_ne name [] (matches_name-IsPlainName name w.plain).not_empty) (
              resolve_named-lookup c' name
                (ap (lookup name) targets_are ∙ lookup-assign name t' c.targets)
                (validate-validate parse t t' trimmed v))),
        λ n ne. rw targets_are (lookup-assign_ne n name t' c.targets ne),
      )

-- No default is set, or it is one of the targets.
pub data DefaultExists (c : Config) : Type 0 where
  unset : c.default_name ≡ [] → DefaultExists c
  exists : has_target (lookup c.default_name c.targets) ≡ true → DefaultExists c

first_name-insert :
    (s : Text) (ts : List Text)
    → (first_name (insert s ts) ≡ s) ⊎ (first_name (insert s ts) ≡ first_name ts)
unfolding first_name insert
first_name-insert s [] = inl refl
first_name-insert s (t ∷ ts) = elim (Bool-cases (less t s)) [
  | inl e ↦ inr (rw e refl)
  | inr e ↦ inl (rw e refl)
]

has_target-cons :
    (f n : Text) (t : Target) (m : Targets)
    → has_target (lookup f m) ≡ true
    → has_target (lookup f ((n, t) ∷ m)) ≡ true
unfolding lookup has_target
has_target-cons f n t m h = elim (Bool-cases (same n f)) [ inl e ↦ rw e refl | inr e ↦ rw e h ]

-- the default that `target remove` chooses
first_name-names :
    (m : Targets)
    → (first_name (names m) ≡ []) ⊎ (has_target (lookup (first_name (names m)) m) ≡ true)
unfolding names sort
first_name-names [] = inl (unfold first_name in refl)
first_name-names ((n, t) ∷ m) = elim (first_name-insert n (names m)) [
  | inl e ↦ inr (rw e (unfold lookup has_target in rw (same_refl n) refl))
  | inr e ↦ elim (first_name-names m) [
    | inl q ↦ inl (e ∙ q)
    | inr q ↦ inr (rw e (has_target-cons (first_name (names m)) n t m q))
  ]
]

-- A change of a configuration by one of the three commands that change it.
pub data Change (parse : Text → Option Url) (c c' : Config) : Type 0 where
  was_set :
      (name : Text) (t : Target) (make_default : Bool)
      → set parse c name t make_default ≡ ok c'
      → Change parse c c'
  was_used : (name : Text) → use_target c name ≡ ok c' → Change parse c c'
  was_removed : (name : Text) → remove_target c name ≡ ok c' → Change parse c c'

-- A default that is the new name, or stays and is not the changed name, exists.
set-DefaultExists :
    (c : Config) (name : Text) (t : Target) (make_default : Bool)
    → DefaultExists c
    → DefaultExists (record c {
      targets = assign name t c.targets;
      default_name = if make_default || same c.default_name [] then name else c.default_name;
    })
unfolding has_target
set-DefaultExists c name t make_default d =
    elim (Bool-cases (make_default || same c.default_name [])) [
      | inl e ↦ exists (rw e (rw (lookup-assign name t c.targets) refl))
      | inr e ↦ elim (Bool-cases (same c.default_name name)) [
        | inl n ↦
            let q : c.default_name ≡ name = (same_iff c.default_name name).0 n in
            exists (rw e (rw q (rw (lookup-assign name t c.targets) refl)))
        | inr n ↦
            let ne : c.default_name ≢ name =
              λ q. false-true (sym n ∙ (same_iff c.default_name name).1 q) in
            elim d [
              | unset u ↦ absurd (
                  false-true (sym e ∙ ap (λ x. make_default || same x []) u ∙ or_true make_default))
              | exists x ↦
                  exists (rw e (rw (lookup-assign_ne c.default_name name t c.targets ne) x))
            ]
      ]
    ]

remove-DefaultExists :
    (c : Config) (name : Text)
    → DefaultExists c
    → DefaultExists (record c {
      targets = delete name c.targets;
      default_name =
          if same c.default_name name
          then first_name (names (delete name c.targets))
          else c.default_name;
    })
remove-DefaultExists c name d = elim (Bool-cases (same c.default_name name)) [
  | inl e ↦ elim (first_name-names (delete name c.targets)) [
    | inl q ↦ unset (rw e q)
    | inr q ↦ exists (rw e q)
  ]
  | inr e ↦
      let ne : c.default_name ≢ name =
        λ q. false-true (sym e ∙ (same_iff c.default_name name).1 q) in
      elim d [
        | unset u ↦ unset (rw e u)
        | exists x ↦ exists (rw e (rw (lookup-delete c.default_name name c.targets ne) x))
      ]
]

-- The default stays one of the targets, or unset, under every command that changes the targets.
pub Change-DefaultExists :
    (parse : Text → Option Url) (c c' : Config)
    → DefaultExists c
    → Change parse c c'
    → DefaultExists c'
unfolding use_target remove_target
Change-DefaultExists parse c c' d (was_set name t make_default h) =
    let w = set_inv parse c name t make_default h in
    rw w.result (set-DefaultExists c name w.target make_default d)
Change-DefaultExists parse c c' d (was_used name h) =
    elim (Bool-cases (has_target (lookup name c.targets))) [
      | inl e ↦
          subst DefaultExists (cc (rw e at h))
            (let x : DefaultExists (record c { default_name = name }) = exists e in x)
      | inr e ↦ cc (rw e at h)
    ]
Change-DefaultExists parse c c' d (was_removed name h) =
    elim (Bool-cases (has_target (lookup name c.targets))) [
      | inl e ↦ subst DefaultExists (cc (rw e at h)) (remove-DefaultExists c name d)
      | inr e ↦ cc (rw e at h)
    ]
