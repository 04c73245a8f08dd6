-- ===== src/Consumer/Turns.antt =====
-- The round of `QueueConsumer::choose`: who gets the next message, and when each consumer gets one.
use native.Mathlib.Nat.{mod-add-mod, mod-eq_of_lt, add-mod_right, mod-lt}
use bitmq.Base.{
  ℕ, zero, suc, ◌≡◌, ◌+◌, ◌-◌, ◌%◌, ◌<◌, refl, List, ◌∷◌, length, get_elem?, arith, ltb, Bool-cases,
  inl, inr, sym, ◌∙◌,
}
use bitmq.Message.{size_mod}
use bitmq.Consumer.{Consumer, QueueConsumer, choose_from}

land : (s i n k m : ℕ) → s % n + k ≡ m → m % n ≡ i → (s + k) % n ≡ i
land s i n k m e h = sym (mod-add-mod s n k) ∙ (rw e h)

-- A distance from any start to a place on a circle.
turn_to : (s i n : ℕ) → i < n → (k : ℕ) × (k < n) × ((s + k) % n ≡ i)
turn_to s i n h =
    let r = mod-lt s {m = n} (omega arith) in
    elim (Bool-cases (ltb i (s % n))) [
      | inl e ↦ (
        i + n - s % n,
        ground arith,
        land s i n (i + n - s % n) (i + n) (omega arith) (add-mod_right i n ∙ mod-eq_of_lt h),
      )
      | inr e ↦ (i - s % n, ground arith, land s i n (i - s % n) i (ground arith) (mod-eq_of_lt h))
    ]

module _ {C : Type 0} where
  -- The queue after a number of choices, and the choice then.
  unfoldable pub after : ℕ → QueueConsumer C → QueueConsumer C
  unfolding choose_from
  after zero q = q
  after (suc k) q = (choose_from (after k q)).1

  pub after_step :
      (k : ℕ) (q q' : QueueConsumer C) (c : Consumer C) (cs : List (Consumer C))
      → (q'.consumers ≡ c ∷ cs) × (q'.rr_seq ≡ q.rr_seq + k)
      → q.rr_seq + suc k < size_mod
      → ((choose_from q').1.consumers ≡ c ∷ cs) × ((choose_from q').1.rr_seq ≡ q.rr_seq + suc k)
  unfolding choose_from
  after_step k q q' c cs e h = ground arith

  pub after_lem :
      (k : ℕ) (q : QueueConsumer C) (c : Consumer C) (cs : List (Consumer C))
      → q.consumers ≡ c ∷ cs
      → q.rr_seq + k < size_mod
      → ((after k q).consumers ≡ c ∷ cs) × ((after k q).rr_seq ≡ q.rr_seq + k)
  unfolding after
  after_lem zero q c cs e h = (e, omega arith)
  after_lem (suc k) q c cs e h =
      after_step k q (after k q) c cs (after_lem k q c cs e (omega arith)) h

  -- The choice does not fail while there are consumers, and goes by turns.
  chosen :
      (q' : QueueConsumer C) (c : Consumer C) (cs : List (Consumer C)) (i : ℕ)
      → q'.consumers ≡ c ∷ cs
      → q'.rr_seq % length (c ∷ cs) ≡ i
      → (choose_from q').0 ≡ get_elem? (c ∷ cs) i
  unfolding choose_from
  chosen q' c cs i e h = rw (e, h) refl

  -- From any state in which the counter does not reach its end within the round, every consumer of the
  -- queue is chosen within as many choices as there are consumers.
  pub choose_in_turn :
      (q : QueueConsumer C) (c : Consumer C) (cs : List (Consumer C)) (i : ℕ)
      → q.consumers ≡ c ∷ cs
      → i < length (c ∷ cs)
      → q.rr_seq + length (c ∷ cs) < size_mod
      → (k : ℕ) × (k < length (c ∷ cs)) × ((choose_from (after k q)).0 ≡ get_elem? (c ∷ cs) i)
  choose_in_turn q c cs i e h bound =
      let (k, less, meets) = turn_to q.rr_seq i (length (c ∷ cs)) h in
      let (same, seq) = after_lem k q c cs e (omega arith) in
      (k, less, chosen (after k q) c cs i same (rw seq meets))
