-- ===== src/Args/Token.antt =====
-- `encodeArgToken` and then `decodeArgToken` of mqserver/mq_queue.hpp.
use mathlib.Core.List.{flat_map}
use bitmq.Base.{
  if◌then◌else◌, ℕ, zero, suc, ◌/◌, ◌%◌, ◌<◌, ◌≡◌, ◌≢◌, refl, sym, ◌∙◌, Bool, true, false, ◌&&◌,
  Option, none, some, [], ◌∷◌, ◌++◌, append_assoc, append-nil, Bytes, nat_eq, Bool-cases, All,
  All-append, nat_eq_iff, inl, inr, not, arith,
}
use bitmq.Str.Search.{Lacks}
use bitmq.Args.{
  is_kept, k_hex, byte_at, encode_byte, encode_loop, encode_arg_token, hex_to_int, decode_loop,
  decode_arg_token, join_digits,
}

abbrev pub IsByte : ℕ → Type 0
IsByte c = c < 256

-- The test holds of each number under the bound.
passes : (ℕ → Bool) → ℕ → Bool
passes test zero = true
passes test (suc bound) = if test bound then passes test bound else false

passes_at : (test : ℕ → Bool) (bound c : ℕ) → c < bound → passes test bound ≡ true → test c ≡ true
unfolding passes
passes_at test zero c below h = ground arith
passes_at test (suc bound) c below h = ground (arith, passes_at test bound c)

abbrev is_some_of : ℕ → Option ℕ → Bool
is_some_of n none = false
is_some_of n (some m) = nat_eq m n

digits_table :
    passes
      (λ c. is_some_of c (
        join_digits
          (hex_to_int (byte_at k_hex (c / 16 % 16)))
          (hex_to_int (byte_at k_hex (c % 16)))))
      256
    ≡ true
unfolding passes hex_to_int
digits_table = refl

is_some_of_eq : (n : ℕ) (o : Option ℕ) → is_some_of n o ≡ true → o ≡ some n
is_some_of_eq n none h = cc
is_some_of_eq n (some m) h = ground (arith, nat_eq_iff m n)

digits_read :
    (c : ℕ)
    → c < 256
    → join_digits (hex_to_int (byte_at k_hex (c / 16 % 16))) (hex_to_int (byte_at k_hex (c % 16)))
      ≡ some c
digits_read c h = is_some_of_eq c _ (passes_at _ 256 c h digits_table)

kept-ne-percent : (c : ℕ) → is_kept c ≡ true → nat_eq c b'%' ≡ false
unfolding is_kept
kept-ne-percent c h = ground arith

-- A byte that is copied, whatever follows it.
decode_copy :
    (c : ℕ) (rest out : Bytes)
    → nat_eq c b'%' ≡ false
    → decode_loop (c ∷ rest) out ≡ decode_loop rest (out ++ c ∷ [])
unfolding decode_loop
decode_copy c [] out h = refl
decode_copy c (x ∷ []) out h = refl
decode_copy c (x ∷ y ∷ rest) out h = rw h

decode-encode_byte :
    (c : ℕ) (rest out : Bytes)
    → c < 256
    → decode_loop (encode_byte c ++ rest) out ≡ decode_loop rest (out ++ c ∷ [])
unfolding encode_byte
decode-encode_byte c rest out h = elim (Bool-cases (is_kept c)) [
  | inl kept ↦ rw kept (decode_copy c rest out (kept-ne-percent c kept))
  | inr not_kept ↦ rw not_kept (unfold decode_loop in rw (digits_read c h))
]

encode_loop-flat_map : (s out : Bytes) → encode_loop s out ≡ out ++ flat_map encode_byte s
unfolding encode_loop flat_map
encode_loop-flat_map [] out = sym (append-nil out)
encode_loop-flat_map (c ∷ s) out = simp (encode_loop-flat_map s, append_assoc)

pub encode-flat_map : (s : Bytes) → encode_arg_token s ≡ flat_map encode_byte s
unfolding encode_arg_token
encode-flat_map s = encode_loop-flat_map s []

decode-flat_map :
    (s out : Bytes) → All IsByte s → decode_loop (flat_map encode_byte s) out ≡ out ++ s
unfolding flat_map
decode-flat_map [] out h = unfold decode_loop in sym (append-nil out)
decode-flat_map (c ∷ s) out h =
    decode-encode_byte c (flat_map encode_byte s) out h.0
    ∙ decode-flat_map s (out ++ c ∷ []) h.1
    ∙ append_assoc out (c ∷ []) s

-- Decoding undoes the encoding of every string of bytes.
pub decode-encode_arg_token : (s : Bytes) → All IsByte s → decode_arg_token (encode_arg_token s) ≡ s
unfolding decode_arg_token
decode-encode_arg_token s h = rw (encode-flat_map s) (decode-flat_map s [] h)

-- Neither a separator nor a NUL stands in the text.
abbrev is_free : Bytes → Bool
is_free [] = true
is_free (x ∷ s) = not (nat_eq x b'&') && not (nat_eq x b'=') && not (nat_eq x 0) && is_free s

is_free-Lacks : (s : Bytes) → is_free s ≡ true → Lacks b'&' s × Lacks b'=' s × Lacks 0 s
is_free-Lacks [] h = (tt, tt, tt)
is_free-Lacks (x ∷ s) h =
    ground (arith, is_free-Lacks s, nat_eq_iff x b'&', nat_eq_iff x b'=', nat_eq_iff x 0)

free_table : passes (λ c. is_free (encode_byte c)) 256 ≡ true
unfolding passes encode_byte
free_table = refl

encode_byte-Lacks :
    (c : ℕ)
    → c < 256
    → Lacks b'&' (encode_byte c) × Lacks b'=' (encode_byte c) × Lacks 0 (encode_byte c)
encode_byte-Lacks c h = is_free-Lacks (encode_byte c) (passes_at _ 256 c h free_table)

flat_map-Lacks :
    (s : Bytes)
    → All IsByte s
    → Lacks b'&' (flat_map encode_byte s)
      × Lacks b'=' (flat_map encode_byte s)
      × Lacks 0 (flat_map encode_byte s)
unfolding flat_map
flat_map-Lacks [] h = (tt, tt, tt)
flat_map-Lacks (c ∷ s) h =
    let here = encode_byte-Lacks c h.0 in
    let rest = flat_map-Lacks s h.1 in
    (
      All-append (λ x. x ≢ b'&') (encode_byte c) (flat_map encode_byte s) here.0 rest.0,
      All-append (λ x. x ≢ b'=') (encode_byte c) (flat_map encode_byte s) here.1 rest.1,
      All-append (λ x. x ≢ 0) (encode_byte c) (flat_map encode_byte s) here.2 rest.2,
    )

-- An encoded token holds neither `&` nor `=` nor a NUL.
pub encode_arg_token-Lacks :
    (s : Bytes)
    → All IsByte s
    → Lacks b'&' (encode_arg_token s)
      × Lacks b'=' (encode_arg_token s)
      × Lacks 0 (encode_arg_token s)
encode_arg_token-Lacks s h = rw (encode-flat_map s) (flat_map-Lacks s h)
