-- ===== src/Router.antt =====
-- mqserver/mq_route.hpp: the checks of keys, and the routing of a message by the exchange's type.
pub mod Pattern
pub mod Table
pub mod Topic
pub mod Legal
use bitmq.Base.{
  ℕ, zero, suc, ◌+◌, ◌-◌, Bool, true, false, ◌&&◌, ◌||◌, Option, none, some, List, [], ◌∷◌, Bytes,
  codes, bytes_eq, nat_eq, leb, ltb, if◌then◌else◌, length,
}
use bitmq.Str.{find_text, split}

-- ExchangeType of mqcommon/mq_msg.proto
pub data ExchangeType : Type 0 where
  unknow_type direct fanout topic : ExchangeType

abbrev pub hash : Bytes
hash = codes "#"

abbrev pub star : Bytes
star = codes "*"

abbrev pub dot : Bytes
dot = codes "."

-- `v[i]` of a vector of texts; every index that the code uses is in range.
abbrev pub word_at : List Bytes → ℕ → Bytes
word_at [] i = []
word_at (w ∷ ws) zero = w
word_at (w ∷ ws) (suc i) = word_at ws i

is_word_byte : ℕ → Bool
is_word_byte ch =
    (leb b'a' ch && leb ch b'z')
    || (leb b'A' ch && leb ch b'Z')
    || (leb b'0' ch && leb ch b'9')
    || nat_eq ch b'_'
    || nat_eq ch b'.'

unfoldable pub is_legal_routing_key : Bytes → Bool
unfolding is_word_byte
is_legal_routing_key [] = true
is_legal_routing_key (ch ∷ routing_key) =
    if is_word_byte ch then is_legal_routing_key routing_key else false

-- The three loops of `isLegalBindingkey`, each ending in `true` where it does not return.
unfoldable pub has_legal_bytes : Bytes → Bool
unfolding is_word_byte
has_legal_bytes [] = true
has_legal_bytes (ch ∷ key) =
    if is_word_byte ch || nat_eq ch b'*' || nat_eq ch b'#' then has_legal_bytes key else false

abbrev is_found : Option ℕ → Bool
is_found none = false
is_found (some pos) = true

unfoldable pub has_lone_wildcards : List Bytes → Bool
has_lone_wildcards [] = true
has_lone_wildcards (word ∷ sub_words) =
    if ltb 1 (length word) && (is_found (find_text star word) || is_found (find_text hash word))
    then false
    else has_lone_wildcards sub_words

-- `rounds` rounds of the loop, the first at index `i`
unfoldable pub has_no_clash : List Bytes → ℕ → ℕ → Bool
has_no_clash sub_words zero i = true
has_no_clash sub_words (suc rounds) i =
    let here = word_at sub_words i in
    let before = word_at sub_words (i - 1) in
    if bytes_eq here hash && bytes_eq before star
    then false
    else if bytes_eq here hash && bytes_eq before hash
    then false
    else if bytes_eq here star && bytes_eq before hash
    then false
    else has_no_clash sub_words rounds (i + 1)

unfoldable pub is_legal_binding_key : Bytes → Bool
unfolding has_legal_bytes has_lone_wildcards has_no_clash
is_legal_binding_key binding_key =
    let sub_words = split binding_key dot [] in
    if has_legal_bytes binding_key
    then (if has_lone_wildcards sub_words
        then has_no_clash sub_words (length sub_words - 1) 1
        else false)
    else false

-- `std::vector<std::vector<bool>>`, as a function of the row and the column. The code stays within
-- its size.
abbrev pub Table : Type 0
Table = ℕ → ℕ → Bool

abbrev pub put : Table → ℕ → ℕ → Bool → Table
put dp i j v a c = if nat_eq a i && nat_eq c j then v else dp a c

abbrev pub blank : Table
blank a c = false

module _ (bkeys rkeys : List Bytes) where
  -- `dp[i][0]` for the rows that a leading run of `#` reaches; `rounds` rounds from row `i` on
  unfoldable pub mark_leading : ℕ → ℕ → Table → Table
  mark_leading zero i dp = dp
  mark_leading (suc rounds) i dp =
      let rest = mark_leading rounds (i + 1) (put dp i 0 (dp (i - 1) 0)) in
      if bytes_eq (word_at bkeys (i - 1)) hash then rest else dp

  unfoldable pub fill_cell : ℕ → ℕ → Table → Table
  fill_cell i j dp =
      let bkey = word_at bkeys (i - 1) in
      if bytes_eq bkey (word_at rkeys (j - 1)) || bytes_eq bkey star
      then put dp i j (dp (i - 1) (j - 1))
      else if bytes_eq bkey hash
      then put dp i j (dp (i - 1) j || dp i (j - 1))
      else dp

  unfoldable pub fill_row : ℕ → ℕ → ℕ → Table → Table
  fill_row i zero j dp = dp
  fill_row i (suc rounds) j dp = fill_row i rounds (j + 1) (fill_cell i j dp)

  unfoldable pub fill_rows : ℕ → ℕ → Table → Table
  fill_rows zero i dp = dp
  fill_rows (suc rounds) i dp = fill_rows rounds (i + 1) (fill_row i (length rkeys) 1 dp)

-- The last part of `route`, for `TOPIC` and for `UNKNOWTYPE`.
unfoldable pub route_topic : Bytes → Bytes → Bool
unfolding mark_leading fill_cell fill_row fill_rows
route_topic routing_key binding_key =
    let bkeys = split binding_key dot [] in
    let rkeys = split routing_key dot [] in
    let started = mark_leading bkeys rkeys (length bkeys) 1 (put blank 0 0 true) in
    fill_rows bkeys rkeys (length bkeys) 1 started (length bkeys) (length rkeys)

unfoldable pub route : ExchangeType → Bytes → Bytes → Bool
route direct routing_key binding_key = bytes_eq routing_key binding_key
route fanout routing_key binding_key = true
route _ routing_key binding_key = route_topic routing_key binding_key
