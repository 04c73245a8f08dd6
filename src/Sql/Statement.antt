-- ===== src/Sql/Statement.antt =====
-- The texts of statements on their way to the engine.
use bitmq.Base.{
  ◌≡◌, refl, Bool, true, false, some, [], ◌∷◌, ◌++◌, Bytes, nat_eq, nat_eq_iff, if◌then◌else◌,
  Bool-cases, inl, inr, arith,
}
use bitmq.Str.Search.{Lacks}
use bitmq.Sql.{c_str, quote, escape_sql_literal, show_bool, parse_int, skip_space, read_digits}
use bitmq.Sql.Literal.{double, escape-double}

-- A C function sees a text without a NUL whole.
pub c_str-append : (s t : Bytes) → Lacks 0 s → c_str (s ++ t) ≡ s ++ c_str t
unfolding c_str
c_str-append [] t h = refl
c_str-append (x ∷ s) t h = ground (arith, nat_eq_iff x 0, c_str-append s t h.1)

double-Lacks : (s : Bytes) → Lacks 0 s → Lacks 0 (double s)
double-Lacks [] h = tt
double-Lacks (c ∷ s) h = elim (Bool-cases (nat_eq c quote)) [
  | inl e ↦ rw e (omega arith, (omega arith, double-Lacks s h.1))
  | inr e ↦ rw e (h.0, double-Lacks s h.1)
]

pub escape-Lacks : (s : Bytes) → Lacks 0 s → Lacks 0 (escape_sql_literal s)
escape-Lacks s h = rw (escape-double s) (double-Lacks s h)

-- A bit that was written is read back as what it was.
pub parse-show_bool : (b : Bool) → parse_int (some (show_bool b)) ≡ some (if b then 1 else 0)
unfolding parse_int skip_space read_digits
parse-show_bool true = refl
parse-show_bool false = refl
