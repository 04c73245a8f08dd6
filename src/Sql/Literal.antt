-- ===== src/Sql/Literal.antt =====
-- `escapeSqlLiteral` of mqserver/mq_queue.hpp, and how SQL reads a literal.
use bitmq.Base.{
  ℕ, ◌≡◌, ◌≢◌, refl, sym, ap, ◌∙◌, false, Option, none, some, [], ◌∷◌, ◌++◌, append_assoc,
  append-nil, Bytes, nat_eq, nat_eq_iff, if◌then◌else◌, Bool-cases, inl, inr, arith,
}
use bitmq.Sql.{quote, escape_loop, escape_sql_literal}

-- SQL's reading of a literal from behind its opening quote: a doubled quote is one quote, a single
-- one closes. It gives the value and the text that follows.
unfoldable pub read_literal : Bytes → Bytes → Option (Bytes × Bytes)
read_literal value [] = none
read_literal value (c ∷ []) = if nat_eq c quote then some (value, []) else none
read_literal value (c ∷ d ∷ s) =
    let pair = read_literal (value ++ c ∷ []) s in
    let plain = read_literal (value ++ c ∷ []) (d ∷ s) in
    if nat_eq c quote then (if nat_eq d quote then pair else some (value, d ∷ s)) else plain

-- The text does not go on with another quote.
abbrev pub IsPastLiteral : Bytes → Type 0
IsPastLiteral [] = Unit
IsPastLiteral (c ∷ s) = c ≢ quote

abbrev pub double : Bytes → Bytes
double [] = []
double (c ∷ s) = if nat_eq c quote then quote ∷ quote ∷ double s else c ∷ double s

escape_loop-double : (s out : Bytes) → escape_loop s out ≡ out ++ double s
unfolding escape_loop
escape_loop-double [] out = sym (append-nil out)
escape_loop-double (c ∷ s) out = elim (Bool-cases (nat_eq c quote)) [
  | inl e ↦ rw e (
      escape_loop-double s (out ++ quote ∷ quote ∷ [])
      ∙ append_assoc out (quote ∷ quote ∷ []) (double s))
  | inr e ↦ rw e (escape_loop-double s (out ++ c ∷ []) ∙ append_assoc out (c ∷ []) (double s))
]

pub escape-double : (s : Bytes) → escape_sql_literal s ≡ double s
unfolding escape_sql_literal
escape-double s = escape_loop-double s []

read_plain :
    (value : Bytes) (c d : ℕ) (s : Bytes)
    → nat_eq c quote ≡ false
    → read_literal value (c ∷ d ∷ s) ≡ read_literal (value ++ c ∷ []) (d ∷ s)
unfolding read_literal
read_plain value c d s h = rw h

read_close :
    (value rest : Bytes)
    → IsPastLiteral rest
    → read_literal value (quote ∷ rest) ≡ some (value, rest)
unfolding read_literal
read_close value [] h = refl
read_close value (c ∷ rest) h = ground (arith, nat_eq_iff c quote)

-- The rest of a literal, after its first byte.
double-ne-nil : (s rest : Bytes) → (d : ℕ) × (t : Bytes) × (double s ++ quote ∷ rest ≡ d ∷ t)
double-ne-nil [] rest = (quote, rest, refl)
double-ne-nil (c ∷ s) rest = elim (Bool-cases (nat_eq c quote)) [
  | inl e ↦ (quote, quote ∷ double s ++ quote ∷ rest, rw e)
  | inr e ↦ (c, double s ++ quote ∷ rest, rw e)
]

read_pair :
    (value s : Bytes)
    → read_literal value (quote ∷ quote ∷ s) ≡ read_literal (value ++ quote ∷ []) s
unfolding read_literal
read_pair value s = refl

grown :
    (value s rest : Bytes) (c : ℕ)
    → ◌≡◌ {A = Option (Bytes × Bytes)}
        (some ((value ++ c ∷ []) ++ s, rest))
        (some (value ++ c ∷ s, rest))
grown value s rest c = ap (λ r. some (r, rest)) (append_assoc value (c ∷ []) s)

read-double :
    (s value rest : Bytes)
    → IsPastLiteral rest
    → read_literal value (double s ++ quote ∷ rest) ≡ some (value ++ s, rest)
read-double [] value rest h = rw append-nil (read_close value rest h)
read-double (c ∷ s) value rest h = elim (Bool-cases (nat_eq c quote)) [
  | inl e ↦ rw e (
      read_pair value (double s ++ quote ∷ rest)
      ∙ read-double s (value ++ quote ∷ []) rest h
      ∙ ap (λ q. some ((value ++ q ∷ []) ++ s, rest)) (sym ((nat_eq_iff c quote).0 e))
      ∙ grown value s rest c)
  | inr e ↦
      let (d, t, split) = double-ne-nil s rest in
      rw e (
        ap (λ r. read_literal value (c ∷ r)) split
        ∙ read_plain value c d t e
        ∙ ap (read_literal (value ++ c ∷ [])) (sym split)
        ∙ read-double s (value ++ c ∷ []) rest h
        ∙ grown value s rest c)
]

-- Behind the opening quote, SQL reads an escaped string and the closing quote as that string, and goes
-- on with what follows: no string can end its literal early or run on.
pub read-escape :
    (s rest : Bytes)
    → IsPastLiteral rest
    → read_literal [] (escape_sql_literal s ++ quote ∷ rest) ≡ some (s, rest)
read-escape s rest h = rw (escape-double s) (read-double s [] rest h)
