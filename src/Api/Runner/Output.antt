-- ===== src/Api/Runner/Output.antt =====
-- What a bounded buffer keeps, and when Run reports that output was lost.
use mathlib.Core.List.{flatten}
use contextq_server.Prelude.{
  ℕ, zero, suc, min, ◌+◌, ◌-◌, ◌≤◌, ◌<◌, ◌≡◌, refl, ap, ◌≢◌, ◌∙◌, sym, false, List, [], ◌∷◌, ◌++◌,
  none, some, arith, Bool-cases, inl, inr, ltb, length, take, length-append, append-nil,
  append_assoc, Text, Bytes, All,
}
use contextq_server.Api.Runner.{
  BoundedBuffer, write, write_all, new_buffer, run, finish, Process, effective_limit, is_empty,
  command_of, CommandRunner, Command,
}

take_zero : {A : Type 0} (n : ℕ) (xs : List A) → n ≡ 0 → take n xs ≡ []
take_zero n xs e = rw e

take-append :
    {A : Type 0} (n : ℕ) (xs ys : List A) → take n (xs ++ ys) ≡ take n xs ++ take (n - length xs) ys
take-append zero xs ys = sym (take_zero _ ys (omega arith))
take-append (suc n) [] ys = let e : suc n ≡ suc n - 0 = omega arith in ap (λ (m : ℕ). take m ys) e
take-append (suc n) (x ∷ xs) ys =
    let e : n - length xs ≡ suc n - suc (length xs) = omega arith in rw (take-append n xs ys, e)

length-take : {A : Type 0} (n : ℕ) (xs : List A) → length (take n xs) ≡ min n (length xs)
length-take zero xs = omega arith
length-take (suc n) [] = omega arith
length-take (suc n) (x ∷ xs) = omega (arith, length-take n xs)

take-all : {A : Type 0} (n : ℕ) (xs : List A) → length xs ≤ n → take n xs ≡ xs
take-all zero [] h = refl
take-all zero (x ∷ xs) h = absurd (omega arith)
take-all (suc n) [] h = refl
take-all (suc n) (x ∷ xs) h = rw (take-all n xs (omega arith))

-- The buffer after the text `s`: its beginning, and whether more has come.
record Keeps (limit : ℕ) (s : Bytes) (b : BoundedBuffer) : Type 0 where
  bounded : b.limit ≡ limit
  prefix : b.buf ≡ take limit s
  marked : b.truncated ≡ ltb limit (length s)

length-pos : (p : Bytes) → p ≢ [] → 0 < length p
length-pos [] h = absurd (h refl)
length-pos (x ∷ p) h = omega arith

-- On every branch the buffer takes what still fits.
write_buf :
    (b : BoundedBuffer) (p : Bytes) → (write b p).0.buf ≡ b.buf ++ take (b.limit - length b.buf) p
unfolding write
write_buf b p = ground (
  arith,
  append-nil b.buf,
  take_zero (b.limit - length b.buf) p,
  take-all (b.limit - length b.buf) p,
)

write-Keeps :
    (limit : ℕ) (s p : Bytes) (b : BoundedBuffer)
    → p ≢ []
    → Keeps limit s b
    → Keeps limit (s ++ p) (write b p).0
unfolding write
write-Keeps limit s p b ne k =
    let held : length b.buf ≡ min limit (length s) = rw k.prefix (length-take limit s) in
    let more : 0 < length p = length-pos p ne in
    let joined : length (s ++ p) ≡ length s + length p = length-append s p in
    let split : take limit (s ++ p) ≡ take limit s ++ take (limit - length s) p =
      take-append limit s p in
    record {
      bounded = ground (arith, k.bounded);
      prefix =
          let e : b.limit - length b.buf ≡ limit - length s = rw (k.bounded, held) (omega arith) in
          write_buf b p ∙ rw (e, k.prefix) (sym split);
      marked = ground (arith, held, more, joined, k.bounded, k.marked);
    }

abbrev pub NotEmpty : Bytes → Type 0
NotEmpty p = p ≢ []

write_all-Keeps :
    (limit : ℕ) (ps : List Bytes) (s : Bytes) (b : BoundedBuffer)
    → All NotEmpty ps
    → Keeps limit s b
    → Keeps limit (s ++ flatten ps) (write_all b ps)
unfolding write_all flatten
write_all-Keeps limit [] s b h k = rw append-nil k
write_all-Keeps limit (p ∷ ps) s b (hp, hps) k =
    rw (← append_assoc s p (flatten ps))
      (write_all-Keeps limit ps (s ++ p) (write b p).0 hps (write-Keeps limit s p b hp k))

new_buffer-Keeps : (limit : ℕ) → Keeps limit [] (new_buffer limit)
new_buffer-Keeps limit = record {
  bounded = refl;
  prefix = sym (take-all limit [] (omega arith));
  marked = ground arith;
}

-- Whatever the chunks, none of them empty, that a process writes, the buffer keeps the beginning of
-- the whole output up to its limit, and is marked exactly if the output is longer than that.
pub write_all-new_buffer :
    (limit : ℕ) (ps : List Bytes)
    → All NotEmpty ps
    → ((write_all (new_buffer limit) ps).buf ≡ take limit (flatten ps))
      × ((write_all (new_buffer limit) ps).truncated ≡ ltb limit (length (flatten ps)))
write_all-new_buffer limit ps h =
    let k = write_all-Keeps limit ps [] (new_buffer limit) h (new_buffer-Keeps limit) in
    (k.prefix, k.marked)

finish-none :
    (o e : BoundedBuffer) (p : Process)
    → (finish o e p).1 ≡ none
    → ((finish o e p).0.stdout ≡ o.buf)
      × ((finish o e p).0.stderr ≡ e.buf)
      × (o.truncated ≡ false)
      × (e.truncated ≡ false)
      × (p.ctx_err ≡ none)
unfolding finish
finish-none o e p h = (ground arith, ground arith, ground arith, ground arith, ground arith)

not_ltb : (m n : ℕ) → ltb m n ≡ false → n ≤ m
not_ltb m n h = ground arith

no_error : {A : Type 0} {a : A} → ¬ (some a ≡ none)
no_error h = cc

run_none :
    (exec : Command → Process) (r : CommandRunner) (namespace_dir contextq_root : Text)
    (args : List Text)
    → (run exec r namespace_dir contextq_root args).1 ≡ none
    → ((run exec r namespace_dir contextq_root args).0.stdout
        ≡ (write_all
            (new_buffer (effective_limit r.output_limit))
            (exec (command_of r namespace_dir contextq_root args)).out).buf)
      × ((run exec r namespace_dir contextq_root args).0.stderr
          ≡ (write_all
              (new_buffer (effective_limit r.output_limit))
              (exec (command_of r namespace_dir contextq_root args)).errors).buf)
      × ((write_all
            (new_buffer (effective_limit r.output_limit))
            (exec (command_of r namespace_dir contextq_root args)).out).truncated
          ≡ false)
      × ((write_all
            (new_buffer (effective_limit r.output_limit))
            (exec (command_of r namespace_dir contextq_root args)).errors).truncated
          ≡ false)
      × ((exec (command_of r namespace_dir contextq_root args)).ctx_err ≡ none)
unfolding run
run_none exec r namespace_dir contextq_root args h = elim (Bool-cases (is_empty r.binary)) [
  | inl e ↦ absurd (no_error (rw e at h))
  | inr e ↦ rw e (finish-none _ _ _ (rw e at h))
]

-- A nil error means the whole output: if a runner with a binary returns no error, and the process
-- wrote no empty chunk, then both streams of the result are exactly what the process wrote, and the
-- context had not ended.
pub run_whole :
    (exec : Command → Process) (r : CommandRunner) (namespace_dir contextq_root : Text)
    (args : List Text)
    → All NotEmpty (exec (command_of r namespace_dir contextq_root args)).out
    → All NotEmpty (exec (command_of r namespace_dir contextq_root args)).errors
    → (run exec r namespace_dir contextq_root args).1 ≡ none
    → ((run exec r namespace_dir contextq_root args).0.stdout
        ≡ flatten (exec (command_of r namespace_dir contextq_root args)).out)
      × ((run exec r namespace_dir contextq_root args).0.stderr
          ≡ flatten (exec (command_of r namespace_dir contextq_root args)).errors)
      × ((exec (command_of r namespace_dir contextq_root args)).ctx_err ≡ none)
run_whole exec r namespace_dir contextq_root args ho he h =
    let limit = effective_limit r.output_limit in
    let p = exec (command_of r namespace_dir contextq_root args) in
    let o = write_all-new_buffer limit p.out ho in
    let e = write_all-new_buffer limit p.errors he in
    let q = run_none exec r namespace_dir contextq_root args h in
    (
      q.0 ∙ o.0 ∙ take-all limit (flatten p.out) (not_ltb limit _ (sym o.1 ∙ q.2)),
      q.1 ∙ e.0 ∙ take-all limit (flatten p.errors) (not_ltb limit _ (sym e.1 ∙ q.3)),
      q.4,
    )
