-- ===== src/Paths/Lines.antt =====
-- Cleaning a path without a line break gives none.
use mathlib.Core.List.{reverse, reverse-cons}
use contextq_server.Prelude.{
  ℕ, ◌≢◌, Bool, true, false, Bool-cases, inl, inr, List, [], ◌∷◌, ◌++◌, arith, ◌==◌, Text, codes,
  same, ◌||◌, All, All-append,
}
use contextq_server.Strings.{join, Lacks}
use contextq_server.Paths.{
  slash, push, elements, is_abs, back, walk, walk_all, show, clean, join_path, back_to_slash,
  path_dir,
}

abbrev pub OneLine : Text → Type 0
OneLine = Lacks 10

not_dots : OneLine (codes "..")
not_dots = omega arith

All-reverse {ℓ} : {A : Type ℓ} (P : A → Type 0) (xs : List A) → All P xs → All P (reverse xs)
All-reverse P [] h = tt
All-reverse P (x ∷ xs) (hx, hs) =
    rw (reverse-cons x xs) (All-append P (reverse xs) (x ∷ []) (All-reverse P xs hs) (hx, tt))

push-OneLine : (c : ℕ) (ps : List Text) → c ≢ 10 → All OneLine ps → All OneLine (push c ps)
unfolding push
push-OneLine c [] hc h = ((hc, tt), tt)
push-OneLine c (p ∷ ps) hc (hp, hs) = ((hc, hp), hs)

elements-OneLine : (s : Text) → OneLine s → All OneLine (elements s)
unfolding elements
elements-OneLine [] h = (tt, tt)
elements-OneLine (c ∷ s) (hc, hs) = elim (Bool-cases (c == slash)) [
  | inl e ↦ rw e (tt, elements-OneLine s hs)
  | inr e ↦ rw e (push-OneLine c (elements s) hc (elements-OneLine s hs))
]

back-OneLine : (rooted : Bool) (es : List Text) → All OneLine es → All OneLine (back rooted es)
unfolding back
back-OneLine true [] h = tt
back-OneLine false [] h = (not_dots, tt)
back-OneLine rooted (e ∷ es) (he, hs) = elim (Bool-cases (same e (codes ".."))) [
  | inl q ↦ rw q (not_dots, (he, hs))
  | inr q ↦ rw q hs
]

walk-OneLine :
    (rooted : Bool) (es : List Text) (e : Text)
    → All OneLine es
    → OneLine e
    → All OneLine (walk rooted es e)
unfolding walk
walk-OneLine rooted es e h he = elim (Bool-cases (same e [] || same e (codes "."))) [
  | inl q ↦ rw q h
  | inr q ↦ rw q (elim (Bool-cases (same e (codes ".."))) [
    | inl d ↦ rw d (back-OneLine rooted es h)
    | inr d ↦ rw d (he, h)
  ])
]

walk_all-OneLine :
    (rooted : Bool) (es rest : List Text)
    → All OneLine es
    → All OneLine rest
    → All OneLine (walk_all rooted es rest)
unfolding walk_all
walk_all-OneLine rooted es [] h k = h
walk_all-OneLine rooted es (e ∷ rest) h (he, k) =
    walk_all-OneLine rooted (walk rooted es e) rest (walk-OneLine rooted es e h he) k

join-OneLine : (es : List Text) → All OneLine es → OneLine (join (codes "/") es)
unfolding join
join-OneLine [] h = tt
join-OneLine (e ∷ []) (he, _) = he
join-OneLine (e ∷ f ∷ es) (he, hs) =
    All-append (λ x. x ≢ 10) (e ++ codes "/") (join (codes "/") (f ∷ es))
      (All-append (λ x. x ≢ 10) e (codes "/") he (omega arith)) (join-OneLine (f ∷ es) hs)

show-OneLine : (rooted : Bool) (es : List Text) → All OneLine es → OneLine (show rooted es)
unfolding show
show-OneLine true es h = (omega arith, join-OneLine (reverse es) (All-reverse OneLine es h))
show-OneLine false [] h = omega arith
show-OneLine false (e ∷ es) h = join-OneLine (reverse (e ∷ es)) (All-reverse OneLine (e ∷ es) h)

pub clean-OneLine : (s : Text) → OneLine s → OneLine (clean s)
unfolding clean
clean-OneLine s h =
    show-OneLine (is_abs s) _
      (walk_all-OneLine (is_abs s) [] (elements s) tt (elements-OneLine s h))

pub join_path-OneLine : (a b : Text) → OneLine a → OneLine b → OneLine (join_path a b)
unfolding join_path
join_path-OneLine [] [] h k = tt
join_path-OneLine [] (d ∷ b) h k = clean-OneLine (d ∷ b) k
join_path-OneLine (c ∷ a) b h k =
    clean-OneLine ((c ∷ a) ++ slash ∷ b)
      (All-append (λ x. x ≢ 10) (c ∷ a) (slash ∷ b) h ((λ e. omega arith), k))

back_to_slash-OneLine : (s : Text) → OneLine s → OneLine (back_to_slash s)
unfolding back_to_slash
back_to_slash-OneLine [] h = tt
back_to_slash-OneLine (c ∷ s) (hc, hs) = elim (Bool-cases (c == slash)) [
  | inl e ↦ rw e (hc, hs)
  | inr e ↦ rw e (back_to_slash-OneLine s hs)
]

pub path_dir-OneLine : (s : Text) → OneLine s → OneLine (path_dir s)
unfolding path_dir
path_dir-OneLine s h = clean-OneLine _ (
    All-reverse (λ x. x ≢ 10) _ (back_to_slash-OneLine (reverse s) (All-reverse (λ x. x ≢ 10) s h)))
