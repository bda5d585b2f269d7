-- ===== src/Namespace/Spec/View.antt =====
-- The keyring that a list of keys stands for.
use contextq_server.Prelude.{
  ◌≡◌, refl, true, Bool-cases, inl, inr, List, [], ◌∷◌, ◌++◌, none, some, if◌then◌else◌, Text,
  Bytes, same, same_iff, same_ne, arith,
}
use mathlib.Core.Path.{fun_ext}
use contextq_server.Encoding.{hex_decode}
use contextq_server.Namespace.Data.{Key}
use contextq_server.Namespace.Keys.{has_id, without_id}
use contextq_server.Namespace.Keys.Matching.{Admits, here, there}
use contextq_server.Namespace.Spec.{Keyring, with_key, without_key}

-- the first key with the identifier
unfoldable pub view : List Key → Keyring
view [] id = none
view (k ∷ ks) id = if same k.id id then some k else view ks id

view-append_at :
    (ks : List Key) (k : Key) (id : Text) → view (ks ++ k ∷ []) id ≡ with_key k (view ks) id
unfolding view
view-append_at [] k id = refl
view-append_at (j ∷ ks) k id = ground (arith, view-append_at ks k id)

pub view-append : (ks : List Key) (k : Key) → view (ks ++ k ∷ []) ≡ with_key k (view ks)
view-append ks k = fun_ext (view-append_at ks k)

view-without_id_at :
    (id : Text) (ks : List Key) (j : Text) → view (without_id id ks) j ≡ without_key id (view ks) j
unfolding view without_id
view-without_id_at id [] j = ground arith
view-without_id_at id (k ∷ ks) j =
    ground (arith, view-without_id_at id ks j, same_iff k.id id, same_iff k.id j, same_iff id j)

pub view-without_id :
    (id : Text) (ks : List Key) → view (without_id id ks) ≡ without_key id (view ks)
view-without_id id ks = fun_ext (view-without_id_at id ks)

pub view-has_id :
    (id : Text) (ks : List Key) → has_id id ks ≡ true → (k : Key) × (view ks id ≡ some k)
unfolding view has_id
view-has_id id [] h = cc
view-has_id id (k ∷ ks) h = elim (Bool-cases (same k.id id)) [
  | inl e ↦ (k, rw e refl)
  | inr e ↦ let q = view-has_id id ks (rw e at h) in (q.0, rw e (q.1))
]

pub view-Admits :
    {id : Text} {digest : Bytes} {r : Key} {ks : List Key}
    → Admits id digest r ks
    → (k : Key) × (view ks id ≡ some k)
      × (hex_decode k.digest ≡ some digest)
      × (r ≡ record k { digest = [] })
unfolding view
view-Admits {id} (here k ks e d q) = (k, rw ((same_iff k.id id).1 e) refl, d, q)
view-Admits {id} (there k n a) =
    let q = view-Admits a in (q.0, rw (same_ne k.id id n) (q.1), q.2, q.3)
