-- ===== src/Remote/Ssh/Digits.antt =====
-- The decimal digits of a port.
use contextq_server.Prelude.{
  ℕ, zero, suc, ◌+◌, ◌-◌, ◌*◌, ◌/◌, ◌%◌, ◌<◌, ◌≤◌, ◌≡◌, refl, ◌∙◌, pos, Bool-cases, inl, inr, [],
  ◌∷◌, ◌++◌, ltb, arith, Text, All, All-append,
}
use contextq_server.Remote.Ssh.{digits, itoa}

-- the number that digits stand for, behind those that were read
pub number_from : ℕ → Text → ℕ
number_from n [] = n
number_from n (c ∷ s) = number_from (n * 10 + (c - b'0')) s

abbrev pub IsDigit : ℕ → Type 0
IsDigit c = (b'0' ≤ c) × (c ≤ b'9')

number_from-append : (n : ℕ) (s t : Text) → number_from n (s ++ t) ≡ number_from (number_from n s) t
unfolding number_from
number_from-append n [] t = refl
number_from-append n (c ∷ s) t = number_from-append (n * 10 + (c - b'0')) s t

number_from-digits : (fuel n : ℕ) → n < fuel → number_from 0 (digits fuel n) ≡ n
unfolding number_from digits
number_from-digits zero n h = omega arith
number_from-digits (suc fuel) n h = elim (Bool-cases (ltb n 10)) [
  | inl e ↦ rw e (omega arith)
  | inr e ↦
      let big : 10 ≤ n = ground (arith, e) in
      let rest = number_from-digits fuel (n / 10) (omega arith) in
      rw e
        (number_from-append 0 (digits fuel (n / 10)) ((48 + n % 10) ∷ []) ∙ rw rest (omega arith))
]

digits-IsDigit : (fuel n : ℕ) → All IsDigit (digits fuel n)
unfolding digits
digits-IsDigit zero n = tt
digits-IsDigit (suc fuel) n = elim (Bool-cases (ltb n 10)) [
  | inl e ↦ let small : n < 10 = ground (arith, e) in rw e ((omega arith, omega arith), tt)
  | inr e ↦ rw e (
      All-append IsDigit (digits fuel (n / 10)) ((48 + n % 10) ∷ []) (digits-IsDigit fuel (n / 10))
        ((omega arith, omega arith), tt))
]

-- The fuel of itoa is enough for every port: its text has decimal digits alone, and they stand for
-- the number.
pub itoa_lem : (n : ℕ) → All IsDigit (itoa (pos n)) × (number_from 0 (itoa (pos n)) ≡ n)
unfolding itoa
itoa_lem n = (digits-IsDigit (suc n) n, number_from-digits (suc n) n (omega arith))
