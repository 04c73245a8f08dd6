-- ===== src/Sql.antt =====
-- The database: `SqliteHelper` of mqcommon/mq_helper.hpp over the library sqlite3, which is a
-- parameter, and the helpers of the three mappers of mqserver/ that write and read its texts.
pub mod Literal
pub mod Statement
use bitmq.Base.{
  ℕ, zero, suc, ◌+◌, ◌-◌, ◌*◌, ◌%◌, ◌^◌, Bool, true, false, ◌&&◌, ◌||◌, not, Option, none, some,
  List, [], ◌∷◌, ◌++◌, Bytes, codes, nat_eq, leb, ltb, if◌then◌else◌,
}

-- A column that is NULL is `none`.
abbrev pub Row : Type 0
Row = List (Option Bytes)

-- What `sqlite3_exec` leaves: its code, the rows handed to the callback, and the database.
pub record Reply (Db : Type 0) : Type 0 where
  pub code : ℕ
  pub rows : List Row
  pub db : Db

abbrev pub Engine : Type 0 → Type 0
Engine Db = Bytes → Db → Reply Db

abbrev pub sqlite_ok : ℕ
sqlite_ok = 0

-- The part of a `std::string` that a C function sees.
unfoldable pub c_str : Bytes → Bytes
c_str [] = []
c_str (x ∷ s) = if nat_eq x 0 then [] else x ∷ c_str s

-- `exec` with its result, the rows for the callback, and the database after it.
unfoldable pub exec : {Db : Type 0} → Engine Db → Bytes → Db → Bool × List Row × Db
exec engine sql db =
    let ret = engine (c_str sql) db in (not (not (nat_eq ret.code sqlite_ok)), ret.rows, ret.db)

-- A `bool` on a stream.
abbrev pub show_bool : Bool → Bytes
show_bool true = codes "1"
show_bool false = codes "0"

abbrev pub quote : ℕ
quote = b'\''

escape_loop : Bytes → Bytes → Bytes
escape_loop [] escaped = escaped
escape_loop (ch ∷ input) escaped =
    escape_loop input
      (if nat_eq ch quote then escaped ++ quote ∷ quote ∷ [] else escaped ++ ch ∷ [])

unfoldable pub escape_sql_literal : Bytes → Bytes
unfolding escape_loop
escape_sql_literal input = escape_loop input []

-- `std::strtol(text, &end, 10)`: white space, a sign, digits.
abbrev is_space : ℕ → Bool
is_space c = nat_eq c 32 || (leb 9 c && leb c 13)

unfoldable pub skip_space : Bytes → Bytes
skip_space [] = []
skip_space (c ∷ s) = if is_space c then skip_space s else c ∷ s

-- The digits' value and what follows them; `none` where there is no digit.
unfoldable pub read_digits : Option ℕ → Bytes → Option ℕ × Bytes
read_digits seen [] = (seen, [])
read_digits seen (c ∷ s) =
    let more = read_digits (some ((elim seen [ none ↦ 0 | some n ↦ n ]) * 10 + (c - b'0'))) s in
    if leb b'0' c && leb c b'9' then more else (seen, c ∷ s)

-- An `int` by its bit pattern: a negative number has its upper bit set.
abbrev pub int_mod : ℕ
int_mod = 2 ^ 32

-- `errno` is set where the value is no `long`; the cast to `int` keeps the low 32 bits.
abbrev finish : Bool → Option ℕ × Bytes → Option ℕ
finish negative (none, rest) = none
finish negative (some n, c ∷ rest) = none
finish true (some n, []) = if ltb (2 ^ 63) n then none else some ((int_mod - n % int_mod) % int_mod)
finish false (some n, []) = if leb (2 ^ 63) n then none else some (n % int_mod)

read_signed : Bytes → Option ℕ
read_signed [] = none
read_signed (c ∷ s) =
    if nat_eq c b'-'
    then finish true (read_digits none s)
    else if nat_eq c b'+'
    then finish false (read_digits none s)
    else finish false (read_digits none (c ∷ s))

-- `none` where the function returns `false`.
unfoldable pub parse_int : Option Bytes → Option ℕ
unfolding skip_space read_digits read_signed
parse_int none = none
parse_int (some text) = read_signed (skip_space text)
