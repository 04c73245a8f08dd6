-- ===== src/Dict/Laws.antt =====
-- What a client needs of the maps: each operation seen through `find`, and through the size.
use bitmq.Base.{
  suc, ◌≡◌, refl, true, Option, none, some, [], ◌∷◌, ◌++◌, Key, ◌==◌, if◌then◌else◌, length, arith,
}
use bitmq.Dict.Defs.{Dict, find, emplace, assign, erase}

-- The value that an insertion leaves behind a key.
abbrev pub kept {ℓ} : {V : Type ℓ} → Option V → V → Option V
kept none v = some v
kept (some w) v = some w

pub same_self {ℓ} : {K : Type ℓ} ⦃e : Key K⦄ (k : K) → (k == k) ≡ true
same_self ⦃e⦄ k = (e.same_iff k k).1 refl

module _ {ℓ κ} {K : Type ℓ} ⦃e : Key K⦄ {V : Type κ} where
  pub find-emplace :
      (k j : K) (v : V) (m : Dict K V)
      → find j (emplace k v m) ≡ (if k == j then kept (find k m) v else find j m)
  unfolding find emplace
  find-emplace k j v [] = refl
  find-emplace k j v ((i, w) ∷ m) =
      ground (arith, e.same_iff k j, e.same_iff i k, e.same_iff i j, find-emplace k j v m)

  pub find-assign :
      (k j : K) (v : V) (m : Dict K V)
      → find j (assign k v m) ≡ (if k == j then some v else find j m)
  unfolding find assign
  find-assign k j v [] = refl
  find-assign k j v ((i, w) ∷ m) =
      ground (arith, e.same_iff k j, e.same_iff i k, e.same_iff i j, find-assign k j v m)

  pub find-erase :
      (k j : K) (m : Dict K V) → find j (erase k m) ≡ (if k == j then none else find j m)
  unfolding find erase
  find-erase k j [] = ground arith
  find-erase k j ((i, w) ∷ m) =
      ground (arith, e.same_iff k j, e.same_iff i k, e.same_iff i j, find-erase k j m)

  -- No key stands twice, as in any `unordered_map`.
  abbrev pub HasDistinctKeys : Dict K V → Type κ
  HasDistinctKeys [] = Unit
  HasDistinctKeys ((k, v) ∷ m) = (find k m ≡ none) × HasDistinctKeys m

  pub emplace-HasDistinctKeys :
      (k : K) (v : V) (m : Dict K V) → HasDistinctKeys m → HasDistinctKeys (emplace k v m)
  unfolding emplace find
  emplace-HasDistinctKeys k v [] h = (refl, tt)
  emplace-HasDistinctKeys k v ((i, w) ∷ m) h =
      ground
        (arith, e.same_iff i k, e.same_iff k i, emplace-HasDistinctKeys k v m, find-emplace k i v m)

  pub erase-HasDistinctKeys :
      (k : K) (m : Dict K V) → HasDistinctKeys m → HasDistinctKeys (erase k m)
  unfolding erase find
  erase-HasDistinctKeys k [] h = tt
  erase-HasDistinctKeys k ((i, w) ∷ m) h =
      ground (arith, erase-HasDistinctKeys k m, find-erase k i m)

  pub assign-HasDistinctKeys :
      (k : K) (v : V) (m : Dict K V) → HasDistinctKeys m → HasDistinctKeys (assign k v m)
  unfolding assign find
  assign-HasDistinctKeys k v [] h = (refl, tt)
  assign-HasDistinctKeys k v ((i, w) ∷ m) h =
      ground
        (arith, e.same_iff i k, e.same_iff k i, assign-HasDistinctKeys k v m, find-assign k i v m)

  pub emplace_fresh :
      (k : K) (v : V) (m : Dict K V) → find k m ≡ none → emplace k v m ≡ m ++ (k, v) ∷ []
  unfolding emplace find
  emplace_fresh k v [] h = refl
  emplace_fresh k v ((i, w) ∷ m) h = ground (arith, emplace_fresh k v m)

  pub assign_fresh :
      (k : K) (v : V) (m : Dict K V) → find k m ≡ none → assign k v m ≡ m ++ (k, v) ∷ []
  unfolding assign find
  assign_fresh k v [] h = refl
  assign_fresh k v ((i, w) ∷ m) h = ground (arith, assign_fresh k v m)

  pub emplace_known : (k : K) (v w : V) (m : Dict K V) → find k m ≡ some w → emplace k v m ≡ m
  unfolding emplace find
  emplace_known k v w [] h = cc
  emplace_known k v w ((i, u) ∷ m) h = ground (arith, emplace_known k v w m)

  pub erase_fresh : (k : K) (m : Dict K V) → find k m ≡ none → erase k m ≡ m
  unfolding erase find
  erase_fresh k [] h = refl
  erase_fresh k ((i, u) ∷ m) h = ground (arith, erase_fresh k m)

  pub length-erase :
      (k : K) (v : V) (m : Dict K V)
      → HasDistinctKeys m
      → find k m ≡ some v
      → suc (length (erase k m)) ≡ length m
  unfolding erase find
  length-erase k v [] h f = cc
  length-erase k v ((i, u) ∷ m) h f =
      ground (arith, e.same_iff i k, erase_fresh k m, length-erase k v m)

pub ruleset dict_laws = (find-emplace, find-assign, find-erase)
