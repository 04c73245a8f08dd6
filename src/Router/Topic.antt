-- ===== src/Router/Topic.antt =====
-- Topic routing in mqserver/mq_route.hpp, and the patterns.
use mathlib.Core.List.{reverse, reverse-append, reverse-cons}
use bitmq.Base.{
  ℕ, zero, suc, ◌≤◌, ◌<◌, ◌≡◌, ◌≢◌, refl, sym, ap, ap₂, ◌∙◌, ◌↔◌, true, false, List, [], ◌∷◌, ◌++◌,
  Bytes, bytes_eq_iff, length, take, length-append, All-append, arith,
}
use bitmq.Str.{split}
use bitmq.Router.{topic, hash, dot, word_at, route, route_topic}
use bitmq.Router.Pattern.{
  Matches, accepts, accepts-Matches, Matches-accepts, Matches-reverse, reverse-Matches, HasNoHash,
  any_words,
}
use bitmq.Router.Table.{cell, table-cell}

take-suc :
    (ws : List Bytes) (i : ℕ) → i < length ws → take (suc i) ws ≡ take i ws ++ word_at ws i ∷ []
take-suc [] i h = absurd (omega arith)
take-suc (w ∷ ws) zero h = refl
take-suc (w ∷ ws) (suc i) h = ap (λ r. w ∷ r) (take-suc ws i (omega arith))

take_all : (ws : List Bytes) → take (length ws) ws ≡ ws
take_all [] = refl
take_all (w ∷ ws) = ap (λ r. w ∷ r) (take_all ws)

-- The first `i` words, from the last one on.
abbrev front : ℕ → List Bytes → List Bytes
front i ws = reverse (take i ws)

front-suc : (ws : List Bytes) (i : ℕ) → i < length ws → front (suc i) ws ≡ word_at ws i ∷ front i ws
front-suc ws i h = ap reverse (take-suc ws i h) ∙ reverse-append (take i ws) (word_at ws i ∷ [])

cell-accepts :
    (b r : List Bytes) (i j : ℕ)
    → i ≤ length b
    → j ≤ length r
    → cell b r i j ≡ accepts (front i b) (front j r)
unfolding cell accepts
cell-accepts b r zero zero hi hj = refl
cell-accepts b r zero (suc j) hi hj = rw (front-suc r j hj)
cell-accepts b r (suc i) zero hi hj =
    rw (front-suc b i hi) (ground (arith, cell-accepts b r i zero))
cell-accepts b r (suc i) (suc j) hi hj =
    rw (front-suc b i hi, front-suc r j hj)
      (ground (
        arith,
        cell-accepts b r i j,
        rw (front-suc r j hj) at (cell-accepts b r i (suc j) (omega arith) hj),
        rw (front-suc b i hi) at (cell-accepts b r (suc i) j hi (omega arith)),
      ))

reverse-HasNoHash : (ws : List Bytes) → HasNoHash ws → HasNoHash (reverse ws)
reverse-HasNoHash [] h = tt
reverse-HasNoHash (w ∷ ws) h =
    rw (reverse-cons w ws)
      (All-append (λ x. x ≢ hash) (reverse ws) (w ∷ []) (reverse-HasNoHash ws h.1) (h.0, tt))

route_topic-cell :
    (rkey bkey : Bytes)
    → let b = split bkey dot [] in
      let r = split rkey dot [] in route_topic rkey bkey ≡ cell b r (length b) (length r)
unfolding route_topic
route_topic-cell rkey bkey = table-cell _ _ _ _ (omega arith) (omega arith)

route_topic-accepts :
    (rkey bkey : Bytes)
    → route_topic rkey bkey ≡ accepts (reverse (split bkey dot [])) (reverse (split rkey dot []))
route_topic-accepts rkey bkey =
    let b = split bkey dot [] in
    let r = split rkey dot [] in
    route_topic-cell rkey bkey
    ∙ cell-accepts b r (length b) (length r) (omega arith) (omega arith)
    ∙ ap₂ (λ x y. accepts (reverse x) (reverse y)) (take_all b) (take_all r)

-- Where no word of the routing key is a lone `#`, topic routing answers true exactly if the words of
-- the routing key match the pattern that the binding key spells.
pub route_topic_iff :
    (rkey bkey : Bytes)
    → HasNoHash (split rkey dot [])
    → (route_topic rkey bkey ≡ true) ↔ Matches (split bkey dot []) (split rkey dot [])
route_topic_iff rkey bkey h =
    let e = route_topic-accepts rkey bkey in
    (
      λ t. reverse-Matches _ _ (accepts-Matches _ _ (sym e ∙ t)),
      λ m. e ∙ Matches-accepts (Matches-reverse m) (reverse-HasNoHash _ h),
    )

word_at_last : (ws : List Bytes) (w : Bytes) → word_at (ws ++ w ∷ []) (length ws) ≡ w
word_at_last [] w = refl
word_at_last (x ∷ ws) w = word_at_last ws w

cell-hash :
    (w : Bytes) (ws : List Bytes)
    → cell (hash ∷ []) (w ∷ ws ++ hash ∷ []) 1 (suc (length (w ∷ ws))) ≡ false
unfolding cell
cell-hash w ws = rw (word_at_last (w ∷ ws) hash) (ground (arith, bytes_eq_iff hash hash))

-- A routing key of two or more words whose last word is a lone `#` is not delivered through the
-- binding key `#`, although that pattern matches every sequence of words.
pub route_topic_misses :
    (rkey w : Bytes) (ws : List Bytes)
    → split rkey dot [] ≡ w ∷ ws ++ hash ∷ []
    → (route topic rkey hash ≡ false) × Matches (split hash dot []) (split rkey dot [])
unfolding route split
route_topic_misses rkey w ws e =
    let last : length (w ∷ ws ++ hash ∷ []) ≡ suc (length (w ∷ ws)) =
      omega (arith, length-append (w ∷ ws) (hash ∷ [])) in
    (
      route_topic-cell rkey hash
          ∙ ap (λ r. cell (hash ∷ []) r 1 (length r)) e
          ∙ ap (cell (hash ∷ []) (w ∷ ws ++ hash ∷ []) 1) last
          ∙ cell-hash w ws,
      any_words _,
    )
