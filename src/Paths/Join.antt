-- ===== src/Paths/Join.antt =====
-- Joining a plain name to an absolute path adds one element to it.
use contextq_server.Prelude.{
  ℕ, ◌≡◌, refl, ◌≢◌, Bool, true, List, [], ◌∷◌, ◌++◌, arith, Text, codes, same_iff, append_assoc,
  append-nil, sym, ◌∙◌, ap,
}
use mathlib.Core.List.{reverse, reverse-cons, cons-ne-nil, append_cancel_left}
use contextq_server.Strings.{Lacks, join}
use contextq_server.Names.{IsPlainName}
use contextq_server.Paths.{slash, push, elements, is_abs, walk, walk_all, show, clean, join_path}

elements-plain : (e : Text) → Lacks slash e → elements e ≡ e ∷ []
unfolding elements
elements-plain [] h = refl
elements-plain (c ∷ e) (hc, he) = ground (arith, elements-plain e he)

push-append : (c : ℕ) (ps qs : List Text) → ps ≢ [] → push c (ps ++ qs) ≡ push c ps ++ qs
unfolding push
push-append c [] qs h = absurd (h refl)
push-append c (p ∷ ps) qs h = refl

push-ne-nil : (c : ℕ) (ps : List Text) → push c ps ≢ []
unfolding push
push-ne-nil c [] = cons-ne-nil _ _
push-ne-nil c (p ∷ ps) = cons-ne-nil _ _

elements-ne-nil : (s : Text) → elements s ≢ []
unfolding elements
elements-ne-nil [] = cons-ne-nil _ _
elements-ne-nil (c ∷ s) = ground (arith, push-ne-nil c (elements s))

elements-append : (s e : Text) → elements (s ++ slash ∷ e) ≡ elements s ++ elements e
unfolding elements
elements-append [] e = refl
elements-append (c ∷ s) e =
    ground (arith, elements-append s e, push-append c (elements s) (elements e) (elements-ne-nil s))

walk_all-append :
    (rooted : Bool) (es ps qs : List Text)
    → walk_all rooted es (ps ++ qs) ≡ walk_all rooted (walk_all rooted es ps) qs
unfolding walk_all
walk_all-append rooted es [] qs = refl
walk_all-append rooted es (p ∷ ps) qs = walk_all-append rooted (walk rooted es p) ps qs

walk-plain : (rooted : Bool) (es : List Text) (e : Text) → IsPlainName e → walk rooted es e ≡ e ∷ es
unfolding walk
walk-plain rooted es e h = ground (
  arith,
  h.not_empty,
  h.not_dot,
  h.not_dot_dot,
  same_iff e [],
  same_iff e (codes "."),
  same_iff e (codes ".."),
)

walk_all-plain : (es : List Text) (e : Text) → IsPlainName e → walk_all true es (e ∷ []) ≡ e ∷ es
unfolding walk_all
walk_all-plain es e h = walk-plain true es e h

is_abs-append : (c : ℕ) (s e : Text) → is_abs ((c ∷ s) ++ e) ≡ is_abs (c ∷ s)
unfolding is_abs
is_abs-append c s e = refl

walk_all-join :
    (root e : Text)
    → IsPlainName e
    → walk_all true [] (elements (root ++ slash ∷ e)) ≡ e ∷ walk_all true [] (elements root)
walk_all-join root e h =
    rw (elements-append, elements-plain e h.no_slash, walk_all-append) (walk_all-plain _ e h)

clean_abs :
    (path : Text)
    → is_abs path ≡ true
    → clean path ≡ codes "/" ++ join (codes "/") (reverse (walk_all true [] (elements path)))
unfolding clean show
clean_abs path a = ap (λ b. show b (walk_all b [] (elements path))) a

join_path-cons : (c : ℕ) (s e : Text) → join_path (c ∷ s) e ≡ clean ((c ∷ s) ++ slash ∷ e)
unfolding join_path
join_path-cons c s e = refl

not_abs : {A : Type 0} → is_abs [] ≡ true → A
unfolding is_abs
not_abs h = cc

-- The elements of an absolute path, `..` and `.` resolved.
abbrev pub resolved : Text → List Text
resolved root = reverse (walk_all true [] (elements root))

pub join_path-plain :
    (root e : Text)
    → is_abs root ≡ true
    → IsPlainName e
    → join_path root e ≡ codes "/" ++ join (codes "/") (resolved root ++ e ∷ [])
join_path-plain [] e a h = not_abs a
join_path-plain (c ∷ root) e a h = rw (
  join_path-cons c root e,
  clean_abs _ (is_abs-append c root (slash ∷ e) ∙ a),
  walk_all-join (c ∷ root) e h,
  reverse-cons,
)

-- what stands before the last element
stem : List Text → Text
stem [] = []
stem (p ∷ ps) = p ++ codes "/" ++ stem ps

join-append : (ps : List Text) (e : Text) → join (codes "/") (ps ++ e ∷ []) ≡ stem ps ++ e
unfolding join stem
join-append [] e = refl
join-append (p ∷ []) e = rw append-nil
join-append (p ∷ q ∷ ps) e = simp (join-append (q ∷ ps) e, append_assoc)

-- One directory has no two plain names for one path.
pub join_path-injective :
    (root a b : Text)
    → is_abs root ≡ true
    → IsPlainName a
    → IsPlainName b
    → join_path root a ≡ join_path root b
    → a ≡ b
join_path-injective root a b r ha hb e =
    let same_stem : stem (resolved root) ++ a ≡ stem (resolved root) ++ b =
      sym (join-append (resolved root) a)
      ∙ append_cancel_left (codes "/") _ _
          (sym (join_path-plain root a r ha) ∙ e ∙ join_path-plain root b r hb)
      ∙ join-append (resolved root) b in
    append_cancel_left (stem (resolved root)) a b same_stem
