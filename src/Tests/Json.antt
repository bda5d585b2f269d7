-- ===== src/Tests/Json.antt =====
-- A codec and a digest in the place of encoding/json and SHA-256: length-prefixed texts, and 32 bytes
-- made of the text's length.
use contextq_server.Prelude.{
  ℕ, suc, zero, pos, negsuc, ◌%◌, ◌≡◌, refl, ap, ◌∙◌, arith, List, [], ◌∷◌, ◌++◌, ℤ, Option, none,
  some, Text, Bytes, length, take, drop, All,
}
use contextq_server.Encoding.Laws.{IsByte}
use contextq_server.Namespace.Data.{Key, KeyFile, Namespace, Codec}
use contextq_server.Namespace.Store.{Platform}

abbrev text_bytes : Text → Bytes
text_bytes t = length t ∷ t

-- a key, and keys, in front of what follows them
abbrev key_bytes : Key → Bytes → Bytes
key_bytes k s = text_bytes k.id ++ (text_bytes k.label ++ (text_bytes k.digest ++ k.created_at ∷ s))

abbrev keys_bytes : List Key → Bytes → Bytes
keys_bytes [] s = s
keys_bytes (k ∷ ks) s = key_bytes k (keys_bytes ks s)

abbrev read_text : Bytes → Text × Bytes
read_text [] = ([], [])
read_text (n ∷ s) = (take n s, drop n s)

abbrev read_number : Bytes → ℕ × Bytes
read_number [] = (0, [])
read_number (n ∷ s) = (n, s)

abbrev read_key : Bytes → Key × Bytes
read_key s =
    let a = read_text s in
    let b = read_text a.1 in
    let c = read_text b.1 in
    let d = read_number c.1 in
    (record { id = a.0; label = b.0; digest = c.0; created_at = d.0 }, d.1)

abbrev read_keys : ℕ → Bytes → List Key × Bytes
read_keys zero s = ([], s)
read_keys (suc n) s = let a = read_key s in let b = read_keys n a.1 in (a.0 ∷ b.0, b.1)

take_all : (t s : Text) → (take (length t) (t ++ s) ≡ t) × (drop (length t) (t ++ s) ≡ s)
take_all [] s = (refl, refl)
take_all (c ∷ t) s = let q = take_all t s in (ap (λ x. c ∷ x) q.0, q.1)

read_text-text_bytes : (t s : Text) → read_text (text_bytes t ++ s) ≡ (t, s)
read_text-text_bytes t s = rw ((take_all t s).0, (take_all t s).1) refl

read_key_from :
    {a b c : Text} {d : ℕ} {r1 r2 r3 r4 : Bytes} (s : Bytes)
    → read_text s ≡ (a, r1)
    → read_text r1 ≡ (b, r2)
    → read_text r2 ≡ (c, r3)
    → read_number r3 ≡ (d, r4)
    → read_key s ≡ (record { id = a; label = b; digest = c; created_at = d }, r4)
read_key_from s h1 h2 h3 h4 = rw h1 (rw h2 (rw h3 (rw h4 refl)))

read_key-key_bytes : (k : Key) (s : Bytes) → read_key (key_bytes k s) ≡ (k, s)
read_key-key_bytes k s =
    read_key_from (key_bytes k s) (read_text-text_bytes k.id _) (read_text-text_bytes k.label _)
      (read_text-text_bytes k.digest _) refl

read_keys_from :
    {k : Key} {ks : List Key} {r1 r2 : Bytes} (n : ℕ) (s : Bytes)
    → read_key s ≡ (k, r1)
    → read_keys n r1 ≡ (ks, r2)
    → read_keys (suc n) s ≡ (k ∷ ks, r2)
read_keys_from {k} n s h1 h2 =
    ap (λ (q : Key × Bytes). (q.0 ∷ (read_keys n q.1).0, (read_keys n q.1).1)) h1
    ∙ ap (λ (q : List Key × Bytes). (k ∷ q.0, q.1)) h2

read_keys-keys_bytes :
    (ks : List Key) (s : Bytes) → read_keys (length ks) (keys_bytes ks s) ≡ (ks, s)
read_keys-keys_bytes [] s = refl
read_keys-keys_bytes (k ∷ ks) s =
    read_keys_from (length ks) (keys_bytes (k ∷ ks) s) (read_key-key_bytes k (keys_bytes ks s))
      (read_keys-keys_bytes ks s)

abbrev encode_keys : ℤ → Option (List Key) → Option Bytes
encode_keys (pos (suc zero)) (some ks) = some (length ks ∷ keys_bytes ks (10 ∷ []))
encode_keys _ _ = none

abbrev decode_keys : Bytes → Option (KeyFile × Bytes)
decode_keys [] = none
decode_keys (n ∷ s) =
    let r = read_keys n s in some (record { version = pos 1; keys = some r.0 }, r.1)

pub decode_keys-encode_keys :
    (v : ℤ) (o : Option (List Key)) (b : Bytes)
    → encode_keys v o ≡ some b
    → decode_keys b ≡ some (record { version = v; keys = o }, 10 ∷ [])
decode_keys-encode_keys (pos zero) o b h = cc
decode_keys-encode_keys (pos (suc zero)) none b h = cc
decode_keys-encode_keys (pos (suc zero)) (some ks) b h =
    let e : length ks ∷ keys_bytes ks (10 ∷ []) ≡ b = cc h in
    rw⁻¹ e (rw (read_keys-keys_bytes ks (10 ∷ [])) refl)
decode_keys-encode_keys (pos (suc (suc n))) o b h = cc
decode_keys-encode_keys (negsuc n) o b h = cc

abbrev pub key_file_codec : Codec KeyFile
key_file_codec = record {
  encode = λ f. encode_keys f.version f.keys;
  decode = decode_keys;
  decode-encode = λ f b h. decode_keys-encode_keys f.version f.keys b h;
}

abbrev encode_namespace : Namespace → Option Bytes
encode_namespace ns = some (ns.created_at ∷ (text_bytes ns.name ++ 10 ∷ []))

abbrev decode_namespace : Bytes → Option (Namespace × Bytes)
decode_namespace [] = none
decode_namespace (n ∷ s) = let r = read_text s in some (record { name = r.0; created_at = n }, r.1)

pub decode_namespace-encode_namespace :
    (ns : Namespace) (b : Bytes)
    → encode_namespace ns ≡ some b
    → decode_namespace b ≡ some (ns, 10 ∷ [])
decode_namespace-encode_namespace ns b h =
    let e : ns.created_at ∷ (text_bytes ns.name ++ 10 ∷ []) ≡ b = cc h in
    rw⁻¹ e (
      ap (λ (q : Text × Bytes). some (record { name = q.0; created_at = ns.created_at }, q.1))
        (read_text-text_bytes ns.name (10 ∷ [])))

abbrev namespace_codec : Codec Namespace
namespace_codec = record {
  encode = encode_namespace;
  decode = decode_namespace;
  decode-encode = λ ns b h. decode_namespace-encode_namespace ns b h;
}

-- 32 bytes, the first of which is the text's length
abbrev digest32 : Bytes → Bytes
digest32 b =
    length b % 256
    ∷ 1
    ∷ 2
    ∷ 3
    ∷ 4
    ∷ 5
    ∷ 6
    ∷ 7
    ∷ 8
    ∷ 9
    ∷ 10
    ∷ 11
    ∷ 12
    ∷ 13
    ∷ 14
    ∷ 15
    ∷ 16
    ∷ 17
    ∷ 18
    ∷ 19
    ∷ 20
    ∷ 21
    ∷ 22
    ∷ 23
    ∷ 24
    ∷ 25
    ∷ 26
    ∷ 27
    ∷ 28
    ∷ 29
    ∷ 30
    ∷ 31
    ∷ []

pub digest32-IsByte : (b : Bytes) → All IsByte (digest32 b)
digest32-IsByte b = (
  omega arith,
  (
    omega arith,
    (
      omega arith,
      (
        omega arith,
        (
          omega arith,
          (
            omega arith,
            (
              omega arith,
              (
                omega arith,
                (
                  omega arith,
                  (
                    omega arith,
                    (
                      omega arith,
                      (
                        omega arith,
                        (
                          omega arith,
                          (
                            omega arith,
                            (
                              omega arith,
                              (
                                omega arith,
                                (
                                  omega arith,
                                  (
                                    omega arith,
                                    (
                                      omega arith,
                                      (
                                        omega arith,
                                        (
                                          omega arith,
                                          (
                                            omega arith,
                                            (
                                              omega arith,
                                              (
                                                omega arith,
                                                (
                                                  omega arith,
                                                  (
                                                    omega arith,
                                                    (
                                                      omega arith,
                                                      (
                                                        omega arith,
                                                        (
                                                          omega arith,
                                                          (
                                                            omega arith,
                                                            (omega arith, (omega arith, tt)),
                                                          ),
                                                        ),
                                                      ),
                                                    ),
                                                  ),
                                                ),
                                              ),
                                            ),
                                          ),
                                        ),
                                      ),
                                    ),
                                  ),
                                ),
                              ),
                            ),
                          ),
                        ),
                      ),
                    ),
                  ),
                ),
              ),
            ),
          ),
        ),
      ),
    ),
  ),
)

abbrev pub platform : Platform
platform = record {
  namespaces = namespace_codec;
  key_files = key_file_codec;
  sha256 = digest32;
  fold = λ c. c;
  sha256_length = λ b. refl;
  sha256_bytes = digest32-IsByte;
}
