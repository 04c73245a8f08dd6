-- ===== src/Router/Pattern.antt =====
-- What a topic pattern means: `*` is one word, `#` is any number of words, all else is itself.
use mathlib.Core.List.{reverse, reverse-cons, reverse-reverse}
use bitmq.Base.{
  ◌≡◌, ◌≢◌, refl, inl, inr, Bool, true, false, ◌||◌, List, [], ◌∷◌, ◌++◌, append-nil, Bytes,
  bytes_eq, bytes_eq_iff, if◌then◌else◌, Bool-cases, All, arith, subst,
}
use bitmq.Router.{hash, star}

pub data Matches : List Bytes → List Bytes → Type 0 where
  done : Matches [] []
  word : {w : Bytes} {b r : List Bytes} → Matches b r → Matches (w ∷ b) (w ∷ r)
  any : {w : Bytes} {b r : List Bytes} → Matches b r → Matches (star ∷ b) (w ∷ r)
  leave : {b r : List Bytes} → Matches b r → Matches (hash ∷ b) r
  take : {w : Bytes} {b r : List Bytes} → Matches (hash ∷ b) r → Matches (hash ∷ b) (w ∷ r)

pub Matches-append : {b c r s : List Bytes} → Matches b r → Matches c s → Matches (b ++ c) (r ++ s)
Matches-append done n = n
Matches-append (word m) n = word (Matches-append m n)
Matches-append (any m) n = any (Matches-append m n)
Matches-append (leave m) n = leave (Matches-append m n)
Matches-append (take m) n = take (Matches-append m n)

-- A pattern that ends in `#`.
abbrev EndsInHash : List Bytes → Type 0
EndsInHash [] = ⊥
EndsInHash (x ∷ []) = x ≡ hash
EndsInHash (x ∷ y ∷ c) = EndsInHash (y ∷ c)

pub any_words : (r : List Bytes) → Matches (hash ∷ []) r
any_words [] = leave done
any_words (w ∷ r) = take (any_words r)

absorb : (w : Bytes) {c r : List Bytes} → Matches c r → EndsInHash c → Matches c (r ++ w ∷ [])
absorb w done e = absurd e
absorb w (word {w = x} {b = []} {r} m) e = rw e (any_words (hash ∷ r ++ w ∷ []))
absorb w (word {b = y ∷ b} m) e = word (absorb w m e)
absorb w (any {w = x} {b = []} {r} m) e = rw e (any_words (x ∷ r ++ w ∷ []))
absorb w (any {b = y ∷ b} m) e = any (absorb w m e)
absorb w (leave {b = []} {r} m) e = any_words (r ++ w ∷ [])
absorb w (leave {b = y ∷ b} m) e = leave (absorb w m e)
absorb w (take {w = x} {b = []} {r} m) e = any_words (x ∷ r ++ w ∷ [])
absorb w (take {b = y ∷ b} m) e = take (absorb w m e)

concat-EndsInHash : (b : List Bytes) → EndsInHash (b ++ hash ∷ [])
concat-EndsInHash [] = refl
concat-EndsInHash (x ∷ []) = refl
concat-EndsInHash (x ∷ y ∷ b) = concat-EndsInHash (y ∷ b)

-- A match read from the right.
pub Matches-reverse : {b r : List Bytes} → Matches b r → Matches (reverse b) (reverse r)
Matches-reverse done = done
Matches-reverse (word {w} {b} {r} m) =
    rw (reverse-cons w b, reverse-cons w r) (Matches-append (Matches-reverse m) (word done))
Matches-reverse (any {w} {b} {r} m) =
    rw (reverse-cons star b, reverse-cons w r) (Matches-append (Matches-reverse m) (any done))
Matches-reverse (leave {b} {r} m) = rw (reverse-cons hash b) (
    subst (Matches (reverse b ++ hash ∷ [])) (append-nil (reverse r))
      (Matches-append (Matches-reverse m) (leave done)))
Matches-reverse (take {w} {b} {r} m) =
    rw (reverse-cons hash b, reverse-cons w r)
      (absorb w (rw (reverse-cons hash b) at (Matches-reverse m)) (concat-EndsInHash (reverse b)))

pub reverse-Matches : (b r : List Bytes) → Matches (reverse b) (reverse r) → Matches b r
reverse-Matches b r m =
    subst (λ c. Matches c r) (reverse-reverse b)
      (subst (Matches (reverse (reverse b))) (reverse-reverse r) (Matches-reverse m))

-- The table's recurrence on the words from the last one on.
unfoldable pub accepts : List Bytes → List Bytes → Bool
accepts [] [] = true
accepts [] (w ∷ ws) = false
accepts (p ∷ ps) [] = if bytes_eq p hash then accepts ps [] else false
accepts (p ∷ ps) (w ∷ ws) =
    let step = accepts ps ws in
    let skip = accepts ps (w ∷ ws) in
    let stay = accepts (p ∷ ps) ws in
    if bytes_eq p w || bytes_eq p star
    then step
    else if bytes_eq p hash
    then skip || stay
    else false

pub accepts-Matches : (ps ws : List Bytes) → accepts ps ws ≡ true → Matches ps ws
unfolding accepts
accepts-Matches [] [] h = done
accepts-Matches [] (w ∷ ws) h = absurd (ground arith)
accepts-Matches (p ∷ ps) [] h =
    let e : p ≡ hash = ground (arith, bytes_eq_iff p hash) in
    rw e (leave (accepts-Matches ps [] (ground arith)))
accepts-Matches (p ∷ ps) (w ∷ ws) h = elim (Bool-cases (bytes_eq p w)) [
  | inl e ↦ rw ((bytes_eq_iff p w).0 e) (word (accepts-Matches ps ws (ground arith)))
  | inr n ↦ elim (Bool-cases (bytes_eq p star)) [
    | inl e ↦ rw ((bytes_eq_iff p star).0 e) (any (accepts-Matches ps ws (ground arith)))
    | inr n' ↦
        let e : p ≡ hash = ground (arith, bytes_eq_iff p hash) in
        elim (Bool-cases (accepts ps (w ∷ ws))) [
          | inl skip ↦ rw e (leave (accepts-Matches ps (w ∷ ws) skip))
          | inr no_skip ↦ rw e (take (rw e at (accepts-Matches (p ∷ ps) ws (ground arith))))
        ]
  ]
]

-- No word of the text is a lone `#`.
abbrev pub HasNoHash : List Bytes → Type 0
HasNoHash = All (λ w. w ≢ hash)

pub Matches-accepts : {ps ws : List Bytes} → Matches ps ws → HasNoHash ws → accepts ps ws ≡ true
unfolding accepts
Matches-accepts done h = refl
Matches-accepts (word {w} m) h = ground (arith, bytes_eq_iff w w, Matches-accepts m h.1)
Matches-accepts (any m) h = ground (arith, bytes_eq_iff star star, Matches-accepts m h.1)
Matches-accepts (leave {r = []} m) h = ground (arith, bytes_eq_iff hash hash, Matches-accepts m h)
Matches-accepts (leave {r = w ∷ r} m) h = ground (
  arith,
  bytes_eq_iff hash hash,
  bytes_eq_iff hash w,
  bytes_eq_iff hash star,
  Matches-accepts m h,
)
Matches-accepts (take {w} m) h = ground (
  arith,
  bytes_eq_iff hash hash,
  bytes_eq_iff hash w,
  bytes_eq_iff hash star,
  Matches-accepts m h.1,
)
