-- ===== src/Tests/Routing.antt =====
-- Routing keys and binding keys.
use bitmq.Base.{◌≡◌, ◌↔◌, refl, true, false, [], ◌∷◌, ◌++◌, Bytes, codes, All}
use bitmq.Str.{split}
use bitmq.Str.Words.{words, split-words}
use bitmq.Router.{topic, hash, dot, route, is_legal_routing_key, is_legal_binding_key}
use bitmq.Router.Pattern.{Matches}
use bitmq.Router.Topic.{route_topic_misses}
use bitmq.Router.Legal.{
  route_legal_iff, is_legal_binding_key_iff, IsKeyByte, IsPlainOrAlone, HasNoClash,
}

abbrev news_key : Bytes
news_key = codes "news.sport.pop"

abbrev news_pattern : Bytes
news_pattern = codes "news.#"

split-words_example :
    split (codes "..a..bc.") (b'.' ∷ []) (codes "x" ∷ [])
    ≡ (codes "x" ∷ []) ++ words b'.' [] (codes "..a..bc.")
split-words_example = split-words b'.' (codes "..a..bc.") (codes "x" ∷ [])

route_legal_iff_example :
    (route topic news_key news_pattern ≡ true)
    ↔ Matches (split news_pattern dot []) (split news_key dot [])
unfolding is_legal_routing_key
route_legal_iff_example = route_legal_iff news_key news_pattern refl

route_topic_misses_example :
    (route topic (codes "news.#") hash ≡ false)
    × Matches (split hash dot []) (split (codes "news.#") dot [])
unfolding split
route_topic_misses_example = route_topic_misses (codes "news.#") (codes "news") [] refl

is_legal_binding_key_iff_example : (is_legal_binding_key news_pattern ≡ true) ↔ (
    All IsKeyByte news_pattern
    × All IsPlainOrAlone (split news_pattern dot [])
    × HasNoClash (split news_pattern dot []))
is_legal_binding_key_iff_example = is_legal_binding_key_iff news_pattern
