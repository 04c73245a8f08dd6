-- ===== src/Str.antt =====
-- Searching and splitting texts: `std::string::find`, and `StrHelper::split` of
-- mqcommon/mq_helper.hpp. What is proved of them stands in the children.
pub mod Search
pub mod Words
use bitmq.Base.{
  ℕ, zero, suc, ◌+◌, Bool, true, false, ◌&&◌, Option, none, some, List, [], ◌∷◌, ◌++◌, Bytes,
  nat_eq, if◌then◌else◌, length, take, drop,
}

-- Whether the second text begins with the first.
unfoldable pub starts : Bytes → Bytes → Bool
starts [] s = true
starts (c ∷ sep) [] = false
starts (c ∷ sep) (x ∷ s) = nat_eq c x && starts sep s

abbrev pub map_suc : Option ℕ → Option ℕ
map_suc none = none
map_suc (some n) = some (suc n)

-- `s.find(sep)`, `none` for `npos`
unfoldable pub find_text : Bytes → Bytes → Option ℕ
unfolding starts
find_text sep [] = if starts sep [] then some 0 else none
find_text sep (x ∷ s) = if starts sep (x ∷ s) then some 0 else map_suc (find_text sep s)

-- The `while` loop of `split`. The text is what is left of it from `idx` on.
split_loop : ℕ → Bytes → Bytes → List Bytes → List Bytes
split_loop zero sep text result = result
split_loop (suc f) sep [] result = result
split_loop (suc f) sep (x ∷ text) result = elim (find_text sep (x ∷ text)) [
  | none ↦ result ++ (x ∷ text) ∷ []
  | some zero ↦ split_loop f sep (drop (length sep) (x ∷ text)) result
  | some (suc p) ↦
      split_loop f sep (drop (suc p + length sep) (x ∷ text))
        (result ++ take (suc p) (x ∷ text) ∷ [])
]

-- The new contents of `result`; its size is what the function returns. Each round of the loop
-- shortens the text, so its length is fuel enough.
unfoldable pub split : Bytes → Bytes → List Bytes → List Bytes
unfolding split_loop find_text
split [] [] result = result
split (c ∷ str) [] result = result ++ (c ∷ str) ∷ []
split str sep result = split_loop (suc (length str)) sep str result
