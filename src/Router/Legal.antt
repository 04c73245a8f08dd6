-- ===== src/Router/Legal.antt =====
-- What the checks of keys accept.
use bitmq.Base.{
  ℕ, zero, suc, ◌+◌, ◌-◌, ◌≤◌, ◌≡◌, ◌≢◌, refl, ap, ◌↔◌, ◌⊎◌, inl, inr, true, false, List, [], ◌∷◌,
  ◌++◌, Bytes, nat_eq, bytes_eq_iff, ltb, Bool-cases, length, All, All-append, arith, subst,
}
use bitmq.Str.{split, find_text}
use bitmq.Str.Search.{Lacks, find_text-Located}
use bitmq.Str.Words.{words, split-words, close}
use bitmq.Router.{
  hash, star, dot, is_legal_routing_key, has_legal_bytes, has_lone_wildcards, has_no_clash,
  is_legal_binding_key, is_found, route, topic,
}
use bitmq.Router.Pattern.{Matches, HasNoHash}
use bitmq.Router.Topic.{route_topic_iff}

module _ (P : ℕ → Type 0) where
  close-All :
      (cur : Bytes) (rest : List Bytes)
      → All P cur
      → All (All P) rest
      → All (All P) (close cur rest)
  close-All [] rest h k = k
  close-All (x ∷ cur) rest h k = (h, k)

  -- What holds of every byte of a text holds of every byte of its words.
  words-All : (c : ℕ) (cur s : Bytes) → All P cur → All P s → All (All P) (words c cur s)
  unfolding words
  words-All c cur [] h k = close-All cur [] h tt
  words-All c cur (x ∷ s) h k = elim (Bool-cases (nat_eq x c)) [
    | inl e ↦ rw (e, words) (close-All cur (words c [] s) h (words-All c [] s tt k.1))
    | inr e ↦
        rw (e, words) (words-All c (cur ++ x ∷ []) s (All-append P cur (x ∷ []) h (k.0, tt)) k.1)
  ]

  split-All : (c : ℕ) (s : Bytes) → All P s → All (All P) (split s (c ∷ []) [])
  split-All c s h = rw (split-words c s []) (words-All c [] s tt h)

legal-Lacks : (key : Bytes) → is_legal_routing_key key ≡ true → Lacks b'#' key
unfolding is_legal_routing_key
legal-Lacks [] h = tt
legal-Lacks (x ∷ key) h = ground (arith, legal-Lacks key)

Lacks-HasNoHash : (ws : List Bytes) → All (Lacks b'#') ws → HasNoHash ws
Lacks-HasNoHash [] h = tt
Lacks-HasNoHash (w ∷ ws) h =
    (λ e. absurd ((subst (Lacks b'#') e h.0).0 refl), Lacks-HasNoHash ws h.1)

-- For a routing key that `isLegalRoutingKey` accepts and any binding key, a topic exchange routes
-- exactly the messages whose words match the binding key's pattern, where `*` is one word and `#` any
-- number of words.
pub route_legal_iff :
    (rkey bkey : Bytes)
    → is_legal_routing_key rkey ≡ true
    → (route topic rkey bkey ≡ true) ↔ Matches (split bkey dot []) (split rkey dot [])
unfolding route
route_legal_iff rkey bkey h =
    route_topic_iff rkey bkey
      (Lacks-HasNoHash _ (split-All (λ x. x ≢ b'#') b'.' rkey (legal-Lacks rkey h)))

-- A byte of a binding key.
abbrev pub IsKeyByte : ℕ → Type 0
IsKeyByte c =
    ((b'a' ≤ c) × (c ≤ b'z'))
    ⊎ ((b'A' ≤ c) × (c ≤ b'Z'))
    ⊎ ((b'0' ≤ c) × (c ≤ b'9'))
    ⊎ (c ≡ b'_')
    ⊎ (c ≡ b'.')
    ⊎ (c ≡ b'*')
    ⊎ (c ≡ b'#')

-- A wildcard stands alone in its word.
abbrev pub IsPlainOrAlone : Bytes → Type 0
IsPlainOrAlone w = (length w ≤ 1) ⊎ (Lacks b'*' w × Lacks b'#' w)

-- Of two neighbours that are wildcards, neither is `#`.
abbrev pub MayFollow : Bytes → Bytes → Type 0
MayFollow a b =
    ¬ ((b ≡ hash) × (a ≡ star)) × ¬ ((b ≡ hash) × (a ≡ hash)) × ¬ ((b ≡ star) × (a ≡ hash))

abbrev pub HasNoClash : List Bytes → Type 0
HasNoClash [] = Unit
HasNoClash (a ∷ []) = Unit
HasNoClash (a ∷ b ∷ ws) = MayFollow a b × HasNoClash (b ∷ ws)

has_legal_bytes_iff : (key : Bytes) → (has_legal_bytes key ≡ true) ↔ All IsKeyByte key
unfolding has_legal_bytes
has_legal_bytes_iff [] = (λ h. tt, λ h. refl)
has_legal_bytes_iff (x ∷ key) = ground (arith, has_legal_bytes_iff key)

All-append_right : (c : ℕ) (w t : Bytes) → Lacks c (w ++ c ∷ t) → ⊥
All-append_right c [] t h = h.0 refl
All-append_right c (x ∷ w) t h = All-append_right c w t h.1

is_found_iff : (c : ℕ) (w : Bytes) → (is_found (find_text (c ∷ []) w) ≡ false) ↔ Lacks c w
is_found_iff c w = elim (find_text-Located c w) [
  | inl (lacks, e) ↦ (λ h. lacks, λ h. ap is_found e)
  | inr (u, t, lacks, e, found) ↦ (
    λ h. absurd (ground (arith, ap is_found found)),
    λ h. absurd (All-append_right c u t (subst (Lacks c) e h)),
  )
]

has_lone_wildcards_iff : (ws : List Bytes) → (has_lone_wildcards ws ≡ true) ↔ All IsPlainOrAlone ws
unfolding has_lone_wildcards
has_lone_wildcards_iff [] = (λ h. tt, λ h. refl)
has_lone_wildcards_iff (w ∷ ws) = (
  λ h. (
    elim (Bool-cases (ltb 1 (length w))) [
      | inl long ↦ inr (
        ground (arith, is_found_iff b'*' w),
        ground (arith, is_found_iff b'*' w, is_found_iff b'#' w),
      )
      | inr short ↦ inl (ground arith)
    ],
    ground (arith, has_lone_wildcards_iff ws),
  ),
  λ h. ground (arith, is_found_iff b'*' w, is_found_iff b'#' w, has_lone_wildcards_iff ws),
)

-- The loop on a longer list, one place further on.
has_no_clash-cons :
    (w : Bytes) (ws : List Bytes) (rounds i : ℕ)
    → has_no_clash (w ∷ ws) rounds (suc (suc i)) ≡ has_no_clash ws rounds (suc i)
unfolding has_no_clash
has_no_clash-cons w ws zero i = refl
has_no_clash-cons w ws (suc rounds) i =
    let e : suc (suc i) - 1 ≡ suc i = omega arith in
    let e' : suc i - 1 ≡ i = omega arith in
    let s : suc (suc i) + 1 ≡ suc (suc (suc i)) = omega arith in
    let s' : suc i + 1 ≡ suc (suc i) = omega arith in
    rw (e, e', s, s', has_no_clash-cons w ws rounds (suc i))

has_no_clash_iff :
    (a : Bytes) (ws : List Bytes)
    → (has_no_clash (a ∷ ws) (length ws) 1 ≡ true) ↔ HasNoClash (a ∷ ws)
unfolding has_no_clash
has_no_clash_iff a [] = (λ h. tt, λ h. refl)
has_no_clash_iff a (b ∷ ws) = ground (
  arith,
  has_no_clash-cons a (b ∷ ws) (length ws) 0,
  has_no_clash_iff b ws,
  bytes_eq_iff b hash,
  bytes_eq_iff b star,
  bytes_eq_iff a hash,
  bytes_eq_iff a star,
)

has_no_clash_all : (ws : List Bytes) → (has_no_clash ws (length ws - 1) 1 ≡ true) ↔ HasNoClash ws
has_no_clash_all [] = unfold has_no_clash in (λ h. tt, λ h. refl)
has_no_clash_all (a ∷ ws) =
    let e : length (a ∷ ws) - 1 ≡ length ws = omega arith in rw e (has_no_clash_iff a ws)

-- `isLegalBindingkey` accepts exactly the keys of letters, digits, `_`, `.`, `*` and `#` in which
-- every wildcard is a word of its own, and no `#` is next to another wildcard.
pub is_legal_binding_key_iff :
    (key : Bytes)
    → (is_legal_binding_key key ≡ true)
      ↔ (All IsKeyByte key × All IsPlainOrAlone (split key dot []) × HasNoClash (split key dot []))
unfolding is_legal_binding_key
is_legal_binding_key_iff key = ground (
  arith,
  has_legal_bytes_iff key,
  has_lone_wildcards_iff (split key dot []),
  has_no_clash_all (split key dot []),
)
