-- ===== src/Api/Args/Accepts.antt =====
-- Which arguments validateArgs accepts, said without its loop.
use contextq_server.Prelude.{
  ℕ, ◌+◌, ◌/◌, ◌≤◌, ◌≡◌, refl, ◌↔◌, true, false, List, [], ◌∷◌, arith, Result, ok, err, length,
  Text, codes, same, if◌then◌else◌, All,
}
use contextq_server.Strings.{byte_length}
use contextq_server.Api.Args.{
  max_request_body, is_allowed, has_nul, is_controlled, scan, check_total, validate_args,
}

-- The arguments before the first `--`.
abbrev pub flags_part : List Text → List Text
flags_part [] = []
flags_part (arg ∷ args) = if same arg (codes "--") then [] else arg ∷ flags_part args

abbrev pub total_length : List Text → ℕ
total_length [] = 0
total_length (arg ∷ args) = byte_length arg + total_length args

abbrev pub NoNul : Text → Type 0
NoNul arg = has_nul arg ≡ false

abbrev pub NotControlled : Text → Type 0
NotControlled arg = is_controlled arg ≡ false

-- behind `--` only NUL bytes are looked for
scan_ended :
    (total n : ℕ) (args : List Text)
    → (scan true total args ≡ ok n) ↔ (All NoNul args × (n ≡ total + total_length args))
unfolding scan
scan_ended total n [] = ((λ h. ground arith), λ h. ground arith)
scan_ended total n (arg ∷ args) =
    let ih = scan_ended (total + byte_length arg) n args in
    ((λ h. ground (arith, ih.0)), λ h. ground (arith, ih.1))

-- before `--` the flags that the server sets itself are looked for, too
scan_flags :
    (total n : ℕ) (args : List Text)
    → (scan false total args ≡ ok n)
      ↔ (All NoNul args × All NotControlled (flags_part args) × (n ≡ total + total_length args))
unfolding scan
scan_flags total n [] = ((λ h. ground arith), λ h. ground arith)
scan_flags total n (arg ∷ args) =
    let ih = scan_flags (total + byte_length arg) n args in
    let ended = scan_ended (total + byte_length arg) n args in
    ((λ h. ground (arith, ih.0, ended.0)), λ h. ground (arith, ih.1, ended.1))

-- The first two arguments are one of the ten commands.
abbrev pub CommandAllowed : List Text → Type 0
CommandAllowed [] = ⊥
CommandAllowed (group ∷ []) = ⊥
CommandAllowed (group ∷ command ∷ args) = is_allowed group command ≡ true

check_total_iff :
    (r : Result _ ℕ) → (check_total r ≡ ok tt) ↔ ((n : ℕ) × (r ≡ ok n) × (n ≤ max_request_body / 2))
unfolding check_total
check_total_iff (ok total) = ((λ h. (total, refl, ground arith)), λ h. ground (arith, h.1, h.2))
check_total_iff (err e) = ((λ h. cc), λ h. cc (h.1))

-- what the loop and the test behind it have found
check_scan_iff :
    (args : List Text)
    → (check_total (scan false 0 args) ≡ ok tt) ↔ (
        All NoNul args
        × All NotControlled (flags_part args)
        × (total_length args ≤ max_request_body / 2))
check_scan_iff args = (
  (λ h.
      let (n, e, le) = (check_total_iff (scan false 0 args)).0 h in
      let (a, b, c) = (scan_flags 0 n args).0 e in (a, b, omega arith)),
  λ h.
      (check_total_iff (scan false 0 args)).1
        (total_length args, (scan_flags 0 _ args).1 (h.0, h.1, omega arith), h.2),
)

-- validateArgs accepts exactly: at most 64 arguments that begin with one of the ten commands, none
-- with a NUL byte, no flag of the server's own before the first `--`, and at most 32768 bytes in all.
pub validate_args_iff :
    (args : List Text)
    → (validate_args args ≡ ok tt) ↔ (
        CommandAllowed args
        × (length args ≤ 64)
        × All NoNul args
        × All NotControlled (flags_part args)
        × (total_length args ≤ max_request_body / 2))
unfolding validate_args
validate_args_iff [] = ((λ h. cc), λ h. absurd h.0)
validate_args_iff (group ∷ []) = ((λ h. cc), λ h. absurd h.0)
validate_args_iff (group ∷ command ∷ args) =
    let all : List Text = group ∷ command ∷ args in
    (
      (λ h.
          let (a, b, c) = (check_scan_iff all).0 (ground arith) in
          (ground arith, ground arith, a, b, c)),
      λ h. ground (arith, (check_scan_iff all).1 (h.2, h.3, h.4)),
    )
