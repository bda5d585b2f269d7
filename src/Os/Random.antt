-- ===== src/Os/Random.antt =====
-- What the random source returns, and that it writes no file.
use contextq_server.Prelude.{
  ℕ, zero, suc, ◌%◌, ◌≤◌, ◌≡◌, refl, ap, Bool-cases, inl, inr, List, [], ◌∷◌, map, arith, leb, take,
  length, All, leb→le,
}
use contextq_server.Encoding.Laws.{IsByte}
use contextq_server.Os.{Files, random_bytes}
use contextq_server.Os.Ends.{Ends}

abbrev pub byte : ℕ → ℕ
byte b = b % 256

All-byte : (bs : List ℕ) → All IsByte (map byte bs)
All-byte [] = tt
All-byte (b ∷ bs) = (omega arith, All-byte bs)

length-map-take : (n : ℕ) (bs : List ℕ) → n ≤ length bs → length (map byte (take n bs)) ≡ n
length-map-take zero bs h = refl
length-map-take (suc n) [] h = absurd (omega arith)
length-map-take (suc n) (b ∷ bs) h = ap suc (length-map-take n bs (omega arith))

pub random_bytes-Ends :
    {P E : Files → Type 0} (n : ℕ)
    → ((fs : Files) → P fs → E fs)
    → Ends P E (λ b fs. (All IsByte b) × (length b ≡ n) × P fs) (random_bytes n)
unfolding random_bytes
random_bytes-Ends n he = record {
  run = λ w h. elim (Bool-cases (leb n (length w.entropy))) [
    | inl e ↦ rw e (All-byte (take n w.entropy), length-map-take n w.entropy (leb→le _ _ e), h)
    | inr e ↦ rw e (he w.files h)
  ];
}
