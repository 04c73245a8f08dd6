-- ===== src/Uuid/Distinct.antt =====
-- The identifiers of `UUIDHelper::uuid` and their counters.
use bitmq.Base.{
  ℕ, suc, ◌+◌, ◌*◌, ◌/◌, ◌%◌, ◌^◌, ◌<◌, ◌≡◌, refl, ap, List, [], ◌∷◌, ◌++◌, Bytes, codes, arith,
  length,
}
use bitmq.Uuid.{hex_digit, hex_byte, random_part, counter_part, uuid}

hex_digit-injective : (a b : ℕ) → a < 16 → b < 16 → hex_digit a ≡ hex_digit b → a ≡ b
hex_digit-injective a b la lb h = ground arith

pair_eq {ℓ} :
    {A : Type ℓ} {x x' y y' : A} {s t : List A}
    → x ∷ y ∷ s ≡ x' ∷ y' ∷ t
    → (x ≡ x') × (y ≡ y') × (s ≡ t)
pair_eq h = (cc, cc, cc)

strip :
    (a b : ℕ) (s t : Bytes)
    → a < 256
    → b < 256
    → hex_byte a ++ s ≡ hex_byte b ++ t
    → (a ≡ b) × (s ≡ t)
strip a b s t la lb h =
    let (hi, lo, rest) = pair_eq h in
    let p = hex_digit-injective (a / 16) (b / 16) (omega arith) (omega arith) hi in
    let q = hex_digit-injective (a % 16) (b % 16) (omega arith) (omega arith) lo in
    (omega arith, rest)

longer {ℓ} : {A : Type ℓ} (d s t : List A) → length s ≡ length t → length (d ++ s) ≡ length (d ++ t)
longer [] s t h = h
longer (x ∷ d) s t h = ap suc (longer d s t h)

length-random_part :
    (ns ms : List ℕ) (i : ℕ)
    → length ns ≡ length ms
    → length (random_part ns i) ≡ length (random_part ms i)
unfolding random_part
length-random_part [] [] i h = refl
length-random_part [] (m ∷ ms) i h = omega arith
length-random_part (n ∷ ns) [] i h = omega arith
length-random_part (n ∷ ns) (m ∷ ms) i h =
    ap (λ l. suc (suc l))
      (longer _ (random_part ns (i + 1)) (random_part ms (i + 1))
        (length-random_part ns ms (i + 1) (omega arith)))

same_tail {ℓ} :
    {A : Type ℓ} (xs ys s t : List A) → length xs ≡ length ys → xs ++ s ≡ ys ++ t → s ≡ t
same_tail [] [] s t e h = h
same_tail [] (y ∷ ys) s t e h = cc
same_tail (x ∷ xs) [] s t e h = cc
same_tail (x ∷ xs) (y ∷ ys) s t e h = same_tail xs ys s t (omega arith) cc

counter_part-injective :
    (a b : ℕ) → a < 2 ^ 64 → b < 2 ^ 64 → counter_part 8 a ≡ counter_part 8 b → a ≡ b
unfolding counter_part
counter_part-injective a b la lb h =
    let (e7, h7) =
      strip (a / 2 ^ (7 * 8) % 256) (b / 2 ^ (7 * 8) % 256) _ _ (omega arith) (omega arith) h in
    let (e6, h6) =
      strip (a / 2 ^ (6 * 8) % 256) (b / 2 ^ (6 * 8) % 256) _ _ (omega arith) (omega arith) h7 in
    let h5' = same_tail (codes "-") (codes "-") _ _ refl h6 in
    let (e5, h5) =
      strip (a / 2 ^ (5 * 8) % 256) (b / 2 ^ (5 * 8) % 256) _ _ (omega arith) (omega arith) h5' in
    let (e4, h4) =
      strip (a / 2 ^ (4 * 8) % 256) (b / 2 ^ (4 * 8) % 256) _ _ (omega arith) (omega arith) h5 in
    let (e3, h3) =
      strip (a / 2 ^ (3 * 8) % 256) (b / 2 ^ (3 * 8) % 256) _ _ (omega arith) (omega arith) h4 in
    let (e2, h2) =
      strip (a / 2 ^ (2 * 8) % 256) (b / 2 ^ (2 * 8) % 256) _ _ (omega arith) (omega arith) h3 in
    let (e1, h1) =
      strip (a / 2 ^ (1 * 8) % 256) (b / 2 ^ (1 * 8) % 256) _ _ (omega arith) (omega arith) h2 in
    let (e0, h0) =
      strip (a / 2 ^ (0 * 8) % 256) (b / 2 ^ (0 * 8) % 256) _ _ (omega arith) (omega arith) h1 in
    omega arith

-- Two identifiers that are equal come of equal counters below 2 ^ 64, whatever the random numbers
-- are, if there are as many of them.
pub uuid-injective :
    (ns ms : List ℕ) (a b : ℕ)
    → length ns ≡ length ms
    → a < 2 ^ 64
    → b < 2 ^ 64
    → uuid ns a ≡ uuid ms b
    → a ≡ b
unfolding uuid
uuid-injective ns ms a b l la lb h =
    counter_part-injective a b la lb
      (same_tail (random_part ns 0) (random_part ms 0) _ _ (length-random_part ns ms 0 l) h)
