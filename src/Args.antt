-- ===== src/Args.antt =====
-- The text form of the argument maps: `setArgs`, `getArgs` and their helpers. `MsgQueue` of
-- mqserver/mq_queue.hpp and `Exchange` of mqserver/mq_exchange.hpp carry the same code.
pub mod Token
pub mod RoundTrip
use bitmq.Base.{
  ℕ, zero, suc, ◌+◌, ◌-◌, ◌*◌, ◌/◌, ◌%◌, Bool, true, false, ◌&&◌, ◌||◌, Option, none, some, List,
  [], ◌∷◌, ◌++◌, Bytes, codes, nat_eq, bytes_eq, leb, if◌then◌else◌, length, take, drop, bytes_key,
}
use bitmq.Dict.{Dict, assign}
use bitmq.Str.{find_text, split}

-- `std::isalnum` in the "C" locale
abbrev is_alnum : ℕ → Bool
is_alnum ch =
    (leb b'0' ch && leb ch b'9') || (leb b'A' ch && leb ch b'Z') || (leb b'a' ch && leb ch b'z')

unfoldable pub is_kept : ℕ → Bool
is_kept ch = is_alnum ch || nat_eq ch b'-' || nat_eq ch b'_' || nat_eq ch b'.' || nat_eq ch b'~'

abbrev k_hex : Bytes
k_hex = codes "0123456789ABCDEF"

abbrev byte_at : Bytes → ℕ → ℕ
byte_at [] i = 0
byte_at (x ∷ s) zero = x
byte_at (x ∷ s) (suc i) = byte_at s i

-- What one round of the loop appends.
unfoldable pub encode_byte : ℕ → Bytes
unfolding is_kept
encode_byte ch =
    if is_kept ch
    then ch ∷ []
    else b'%' ∷ byte_at k_hex (ch / 16 % 16) ∷ byte_at k_hex (ch % 16) ∷ []

encode_loop : Bytes → Bytes → Bytes
encode_loop [] out = out
encode_loop (ch ∷ input) out = encode_loop input (out ++ encode_byte ch)

unfoldable pub encode_arg_token : Bytes → Bytes
unfolding encode_loop encode_byte
encode_arg_token input = encode_loop input []

-- `none` is the code's -1.
unfoldable pub hex_to_int : ℕ → Option ℕ
hex_to_int c =
    if leb b'0' c && leb c b'9'
    then some (c - b'0')
    else if leb b'a' c && leb c b'f'
    then some (c - b'a' + 10)
    else if leb b'A' c && leb c b'F'
    then some (c - b'A' + 10)
    else none

-- `(hi << 4) | lo`, where both are digits
abbrev pub join_digits : Option ℕ → Option ℕ → Option ℕ
join_digits none lo = none
join_digits (some hi) none = none
join_digits (some hi) (some lo) = some (hi * 16 + lo)

decode_loop : Bytes → Bytes → Bytes
decode_loop [] out = out
decode_loop (ch ∷ []) out = out ++ ch ∷ []
decode_loop (ch ∷ c1 ∷ []) out = decode_loop (c1 ∷ []) (out ++ ch ∷ [])
decode_loop (ch ∷ c1 ∷ c2 ∷ input) out =
    let copy = decode_loop (c1 ∷ c2 ∷ input) (out ++ ch ∷ []) in
    if nat_eq ch b'%'
    then (elim (join_digits (hex_to_int c1) (hex_to_int c2)) [
      | none ↦ copy
      | some byte ↦ decode_loop input (out ++ byte ∷ [])
    ])
    else copy

unfoldable pub decode_arg_token : Bytes → Bytes
unfolding decode_loop hex_to_int
decode_arg_token input = decode_loop input []

abbrev pub Args : Type 0
Args = Dict Bytes Bytes

-- One round of the loop of `setArgs`.
unfoldable pub set_arg : Bytes → Args → Args
set_arg str args = elim (find_text (codes "=") str) [
  | none ↦ args
  | some pos ↦
      let key = decode_arg_token (take pos str) in
      let val = decode_arg_token (drop (pos + 1) str) in
      if bytes_eq key [] then args else assign key val args
]

set_loop : List Bytes → Args → Args
set_loop [] args = args
set_loop (str ∷ sub_args) args = set_loop sub_args (set_arg str args)

-- The new map; the old one is cleared first.
unfoldable pub set_args : Bytes → Args
unfolding set_loop set_arg
set_args str_args = set_loop (split str_args (codes "&") []) []

get_loop : Args → Bool → Bytes → Bytes
get_loop [] first result = result
get_loop ((key, val) ∷ args) first result =
    let result1 = if first then result else result ++ codes "&" in
    get_loop args false (((result1 ++ encode_arg_token key) ++ codes "=") ++ encode_arg_token val)

unfoldable pub get_args : Args → Bytes
unfolding get_loop
get_args args = get_loop args true []
