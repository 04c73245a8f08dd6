-- ===== src/Tests/Text.antt =====
-- The texts that are stored, and the identifiers.
use bitmq.Base.{ℕ, ◌≡◌, ◌+◌, refl, some, List, [], ◌∷◌, ◌++◌, codes, bytes_eq, arith}
use bitmq.Dict.{find}
use bitmq.Args.{Args, set_args, get_args}
use bitmq.Args.RoundTrip.{set_args-get_args}
use bitmq.Sql.{quote, escape_sql_literal}
use bitmq.Sql.Literal.{read_literal, read-escape}
use bitmq.Uuid.Distinct.{uuid-injective}

abbrev two_args : Args
two_args = (codes "k", codes "1=2") ∷ (codes "l", codes "") ∷ []

set_args-get_args_example : set_args (get_args two_args) ≡ two_args
unfolding find bytes_eq
set_args-get_args_example =
    set_args-get_args two_args (refl, (refl, tt))
      (
        ((omega arith, tt), (omega arith, (omega arith, (omega arith, tt))), (λ h. cc)),
        (((omega arith, tt), tt, (λ h. cc)), tt),
      )

read-escape_example :
    read_literal [] (escape_sql_literal (codes "o'clock") ++ quote ∷ codes ", 1)")
    ≡ some (codes "o'clock", codes ", 1)")
read-escape_example = read-escape (codes "o'clock") (codes ", 1)") (λ h. cc)

abbrev eight : List ℕ
eight = 1 ∷ 2 ∷ 3 ∷ 4 ∷ 5 ∷ 6 ∷ 7 ∷ 255 ∷ []

uuid-injective_example : 258 ≡ 256 + 2
uuid-injective_example =
    uuid-injective eight eight 258 (256 + 2) refl (omega arith) (omega arith) refl
