-- ===== src/Namespace/Listing/Hidden.antt =====
-- ListKeys shows the keys in the order of their times, and no digest.
use mathlib.Core.List.{Perm}
use mathlib.Core.List.Perm
use contextq_server.Prelude.{
  ◌≤◌, ◌≡◌, refl, Bool-cases, inl, inr, List, [], ◌∷◌, arith, length, map, All, ok, Text, ltb, suc,
}
use contextq_server.Os.{Files}
use contextq_server.Os.Ends.{Ends, Ends-bind, Ends-pure}
use contextq_server.Namespace.Data.{Key, KeyFile}
use contextq_server.Namespace.Keys.{keys_of}
use contextq_server.Namespace.Store.{Platform}
use contextq_server.Namespace.Store.Files.{
  key_file_at, IsNamespace, existing_dir-Ends, read_key_file-Ends,
}
use contextq_server.Namespace.Listing.{hidden, place_by_time, sort_by_time, list_keys}

abbrev pub NoDigest : Key → Type 0
NoDigest k = k.digest ≡ []

-- not before any key of the list
abbrev pub NotLater : Key → List Key → Type 0
NotLater k ks = All (λ j. k.created_at ≤ j.created_at) ks

abbrev pub InOrder : List Key → Type 0
InOrder [] = Unit {0}
InOrder (k ∷ ks) = NotLater k ks × InOrder ks

NotLater-weaken :
    (k j : Key) (ks : List Key) → k.created_at ≤ j.created_at → NotLater j ks → NotLater k ks
NotLater-weaken k j [] h a = tt
NotLater-weaken k j (i ∷ ks) h (hi, a) = (omega arith, NotLater-weaken k j ks h a)

module _ (k : Key) where
  place_by_time-All :
      (P : Key → Type 0) (ks : List Key) → P k → All P ks → All P (place_by_time k ks)
  unfolding place_by_time
  place_by_time-All P [] h a = (h, tt)
  place_by_time-All P (j ∷ ks) h (hj, a) = elim (Bool-cases (ltb j.created_at k.created_at)) [
    | inl e ↦ rw e (hj, place_by_time-All P ks h a)
    | inr e ↦ rw e (h, (hj, a))
  ]

  place_by_time-InOrder : (ks : List Key) → InOrder ks → InOrder (place_by_time k ks)
  unfolding place_by_time
  place_by_time-InOrder [] o = (tt, tt)
  place_by_time-InOrder (j ∷ ks) (hj, o) = elim (Bool-cases (ltb j.created_at k.created_at)) [
    | inl e ↦ rw e (
      place_by_time-All (λ i. j.created_at ≤ i.created_at) ks (ground arith) hj,
      place_by_time-InOrder ks o,
    )
    | inr e ↦
        let le : k.created_at ≤ j.created_at = ground arith in
        rw e ((le, NotLater-weaken k j ks le hj), (hj, o))
  ]

  length-place_by_time : (ks : List Key) → length (place_by_time k ks) ≡ suc (length ks)
  unfolding place_by_time
  length-place_by_time [] = refl
  length-place_by_time (j ∷ ks) = elim (Bool-cases (ltb j.created_at k.created_at)) [
    | inl e ↦ rw e (rw (length-place_by_time ks) refl)
    | inr e ↦ rw e refl
  ]

-- a key without its digest, and otherwise as it is
abbrev pub without_digest : Key → Key
without_digest k = record { id = k.id; label = k.label; digest = []; created_at = k.created_at }

place_by_time-perm : (k : Key) (ks : List Key) → Perm (place_by_time k ks) (k ∷ ks)
unfolding place_by_time
place_by_time-perm k [] = Perm.refl (k ∷ [])
place_by_time-perm k (j ∷ ks) = elim (Bool-cases (ltb j.created_at k.created_at)) [
  | inl e ↦ rw e (Perm.trans (Perm.cons j (place_by_time-perm k ks)) (Perm.swap k j ks))
  | inr e ↦ rw e (Perm.refl (k ∷ j ∷ ks))
]

sort_by_time-perm : (ks : List Key) → Perm (sort_by_time (map hidden ks)) (map without_digest ks)
unfolding sort_by_time
sort_by_time-perm [] = Perm.refl []
sort_by_time-perm (k ∷ ks) =
    Perm.trans (place_by_time-perm (hidden k) (sort_by_time (map hidden ks)))
      (Perm.cons (without_digest k) (sort_by_time-perm ks))

-- what is shown of the keys
pub record Shown (ks out : List Key) : Type 0 where
  pub no_digest : All NoDigest out
  pub in_order : InOrder out
  pub as_many : length out ≡ length ks
  pub the_keys : Perm out (map without_digest ks)

sort_by_time-Shown : (ks : List Key) → Shown ks (sort_by_time (map hidden ks))
unfolding sort_by_time
sort_by_time-Shown [] = record {
  no_digest = tt;
  in_order = tt;
  as_many = refl;
  the_keys = Perm.refl [];
}
sort_by_time-Shown (k ∷ ks) =
    let s = sort_by_time-Shown ks in
    record {
      no_digest =
          place_by_time-All (hidden k) NoDigest (sort_by_time (map hidden ks)) refl s.no_digest;
      in_order = place_by_time-InOrder (hidden k) (sort_by_time (map hidden ks)) s.in_order;
      as_many = rw (length-place_by_time (hidden k) (sort_by_time (map hidden ks)), s.as_many) refl;
      the_keys = sort_by_time-perm (k ∷ ks);
    }

module _ (p : Platform) (root : Text) (old : Files) (name : Text) where
  -- what ListKeys returns of a namespace, and leaves
  pub record Listed (out : List Key) (fs : Files) : Type 0 where
    pub dir : Text
    pub namespace : IsNamespace p root old name dir
    pub key_file : KeyFile
    pub read : key_file_at p root old dir ≡ ok key_file
    pub shown : Shown (keys_of key_file) out
    pub same_files : fs ≡ old

  -- Whichever calls fail, ListKeys changes no file; and the keys that it returns are exactly the
  -- namespace's, each with its identifier, label and time, in the order of their times, and none
  -- with its digest.
  pub list_keys-Ends : Ends (λ fs. fs ≡ old) (λ fs. fs ≡ old) Listed (list_keys p root name)
  unfolding list_keys
  list_keys-Ends = Ends-bind (existing_dir-Ends p root {P = λ fs. fs ≡ old} name (λ fs h. h)) λ dir.
      Ends-bind
        (read_key_file-Ends p root {P = λ fs. IsNamespace p root fs name dir × (fs ≡ old)} dir
          (λ fs h. h.1))
        λ f. Ends-pure (sort_by_time (map hidden (keys_of f))) λ fs h. record {
          dir = dir;
          namespace = rw h.1.1 at h.1.0;
          key_file = f;
          read = rw h.1.1 at h.0;
          shown = sort_by_time-Shown (keys_of f);
          same_files = h.1.1;
        }
