-- ===== src/Router/Table.antt =====
-- The table that `route` of mqserver/mq_route.hpp fills, and its recurrence.
use bitmq.Base.{
  ℕ, zero, suc, ◌+◌, ◌-◌, ◌≤◌, ◌<◌, ◌≡◌, refl, ◌⊎◌, inl, inr, Bool, true, false, ◌||◌, List, [],
  ◌∷◌, Bytes, leb, bytes_eq, if◌then◌else◌, length, Bool-cases, arith, subst,
}
use bitmq.Router.{
  hash, star, word_at, Table, put, blank, mark_leading, fill_cell, fill_row, fill_rows,
}

module _ (bkeys rkeys : List Bytes) where
  unfoldable pub cell : ℕ → ℕ → Bool
  cell zero zero = true
  cell zero (suc j) = false
  cell (suc i) zero = if bytes_eq (word_at bkeys i) hash then cell i zero else false
  cell (suc i) (suc j) =
      let step = cell i j in
      let skip = cell i (suc j) in
      let stay = cell (suc i) j in
      if bytes_eq (word_at bkeys i) (word_at rkeys j) || bytes_eq (word_at bkeys i) star
      then step
      else if bytes_eq (word_at bkeys i) hash
      then skip || stay
      else false

  -- Rows up to `i` are done, row `i + 1` up to column `j`; the rest is as it was at the start.
  record Progress (i j : ℕ) (dp : Table) : Type 0 where
    above : (a c : ℕ) → a ≤ i → c ≤ length rkeys → dp a c ≡ cell a c
    here : (c : ℕ) → c ≤ j → dp (suc i) c ≡ cell (suc i) c
    ahead : (c : ℕ) → j < c → dp (suc i) c ≡ false
    below : (a c : ℕ) → suc i < a → 0 < c → dp a c ≡ false
    column : (a : ℕ) → dp a 0 ≡ cell a 0

  pred_suc : (i : ℕ) → suc i - 1 ≡ i
  pred_suc i = omega arith

  -- The value that the round leaves at its place is the one of the recurrence.
  fill_cell_here :
      (i j : ℕ) (dp : Table)
      → suc j ≤ length rkeys
      → Progress i j dp
      → fill_cell bkeys rkeys (suc i) (suc j) dp (suc i) (suc j) ≡ cell (suc i) (suc j)
  unfolding fill_cell cell
  fill_cell_here i j dp h p =
      rw (pred_suc i, pred_suc j)
        (ground (arith, p.above i j, p.above i (suc j), p.here j, p.ahead (suc j)))

  fill_cell_other :
      (i j a c : ℕ) (dp : Table)
      → (a < i) ⊎ (i < a) ⊎ (c < j) ⊎ (j < c)
      → fill_cell bkeys rkeys i j dp a c ≡ dp a c
  unfolding fill_cell
  fill_cell_other i j a c dp h = ground arith

  fill_cell-Progress :
      (i j : ℕ) (dp : Table)
      → suc j ≤ length rkeys
      → Progress i j dp
      → Progress i (suc j) (fill_cell bkeys rkeys (suc i) (suc j) dp)
  fill_cell-Progress i j dp h p = record {
    above = λ a c ha hc. ground (arith, fill_cell_other (suc i) (suc j) a c dp, p.above a c);
    here = λ c hc.
        ground (
          arith,
          fill_cell_other (suc i) (suc j) (suc i) c dp,
          p.here c,
          fill_cell_here i j dp h p,
        );
    ahead = λ c hc. ground (arith, fill_cell_other (suc i) (suc j) (suc i) c dp, p.ahead c);
    below = λ a c ha hc. ground (arith, fill_cell_other (suc i) (suc j) a c dp, p.below a c);
    column = λ a. ground (arith, fill_cell_other (suc i) (suc j) a 0 dp, p.column a);
  }

  fill_row-Progress :
      (rounds i j : ℕ) (dp : Table)
      → j + rounds ≡ length rkeys
      → Progress i j dp
      → Progress i (length rkeys) (fill_row bkeys rkeys (suc i) rounds (suc j) dp)
  unfolding fill_row
  fill_row-Progress zero i j dp e p =
      let e' : j ≡ length rkeys = omega arith in subst (λ k. Progress i k dp) e' p
  fill_row-Progress (suc rounds) i j dp e p =
      let e' : suc j + 1 ≡ suc (suc j) = omega arith in
      rw e' (
        fill_row-Progress rounds i (suc j) _ (omega arith)
          (fill_cell-Progress i j dp (omega arith) p))

  -- The next row starts with its first column alone.
  next_row-Progress : (i : ℕ) (dp : Table) → Progress i (length rkeys) dp → Progress (suc i) 0 dp
  next_row-Progress i dp p = record {
    above = λ a c ha hc. ground (arith, p.above a c, p.here c);
    here = λ c hc. ground (arith, p.column (suc (suc i)));
    ahead = λ c hc. p.below (suc (suc i)) c (omega arith) hc;
    below = λ a c ha hc. p.below a c (omega arith) hc;
    column = p.column;
  }

  fill_rows-cell :
      (rounds i : ℕ) (dp : Table)
      → Progress i 0 dp
      → (a c : ℕ) → a ≤ i + rounds
      → c ≤ length rkeys
      → fill_rows bkeys rkeys rounds (suc i) dp a c ≡ cell a c
  unfolding fill_rows
  fill_rows-cell zero i dp p a c ha hc = p.above a c (omega arith) hc
  fill_rows-cell (suc rounds) i dp p a c ha hc =
      let e' : suc i + 1 ≡ suc (suc i) = omega arith in
      rw e' (
        fill_rows-cell rounds (suc i) _
          (next_row-Progress i _ (fill_row-Progress (length rkeys) i 0 dp (omega arith) p)) a c
          (omega arith) hc)

  -- The first column is done up to row `k`, and all else is as `blank` left it.
  record Started (k : ℕ) (dp : Table) : Type 0 where
    marked : (a : ℕ) → a ≤ k → dp a 0 ≡ cell a 0
    unmarked : (a : ℕ) → k < a → dp a 0 ≡ false
    right : (a c : ℕ) → 0 < c → dp a c ≡ false

  cell-dead : (k d : ℕ) → cell k 0 ≡ false → cell (d + k) 0 ≡ false
  unfolding cell
  cell-dead k zero h = let e : 0 + k ≡ k = omega arith in rw e h
  cell-dead k (suc d) h =
      let e : suc d + k ≡ suc (d + k) = omega arith in rw e (ground (arith, cell-dead k d h))

  cell-dead_from : (k a : ℕ) → cell k 0 ≡ false → k ≤ a → cell a 0 ≡ false
  cell-dead_from k a h le = let e : (a - k) + k ≡ a = omega arith in rw e at (cell-dead k (a - k) h)

  word_at_end : (ws : List Bytes) (i : ℕ) → length ws ≤ i → word_at ws i ≡ []
  word_at_end [] i h = refl
  word_at_end (w ∷ ws) zero h = absurd (omega arith)
  word_at_end (w ∷ ws) (suc i) h = word_at_end ws i (omega arith)

  cell_break : (k : ℕ) → bytes_eq (word_at bkeys k) hash ≡ false → cell (suc k) 0 ≡ false
  unfolding cell
  cell_break k h = ground arith

  Started-column :
      (k : ℕ) (dp : Table) → Started k dp → cell (suc k) 0 ≡ false → (a : ℕ) → dp a 0 ≡ cell a 0
  Started-column k dp s h a = elim (Bool-cases (leb a k)) [
    | inl le ↦ s.marked a (ground arith)
    | inr gt ↦ ground (arith, s.unmarked a, cell-dead_from (suc k) a h)
  ]

  mark-Started :
      (k : ℕ) (dp : Table)
      → Started k dp
      → bytes_eq (word_at bkeys k) hash ≡ true
      → Started (suc k) (put dp (suc k) 0 (dp k 0))
  unfolding cell
  mark-Started k dp s h = record {
    marked = λ a ha. ground (arith, s.marked a, s.marked k);
    unmarked = λ a ha. ground (arith, s.unmarked a);
    right = λ a c hc. ground (arith, s.right a c);
  }

  mark_leading_step :
      (rounds k : ℕ) (dp : Table)
      → mark_leading bkeys rkeys (suc rounds) (suc k) dp ≡ (
          if bytes_eq (word_at bkeys k) hash
          then mark_leading bkeys rkeys rounds (suc (suc k)) (put dp (suc k) 0 (dp k 0))
          else dp)
  unfolding mark_leading
  mark_leading_step rounds k dp =
      let e : suc k + 1 ≡ suc (suc k) = omega arith in rw (pred_suc k, e)

  mark_leading-column :
      (rounds k : ℕ) (dp : Table)
      → k + rounds ≡ length bkeys
      → Started k dp
      → ((a : ℕ) → mark_leading bkeys rkeys rounds (suc k) dp a 0 ≡ cell a 0)
        × ((a c : ℕ) → 0 < c → mark_leading bkeys rkeys rounds (suc k) dp a c ≡ false)
  mark_leading-column zero k dp e s =
      let past = word_at_end bkeys k (omega arith) in
      let miss : bytes_eq (word_at bkeys k) hash ≡ false = rw past (unfold bytes_eq in refl) in
      unfold mark_leading in (Started-column k dp s (cell_break k miss), s.right)
  mark_leading-column (suc rounds) k dp e s = elim (Bool-cases (bytes_eq (word_at bkeys k) hash)) [
    | inl h ↦
        rw (mark_leading_step rounds k dp, h)
          (mark_leading-column rounds (suc k) _ (omega arith) (mark-Started k dp s h))
    | inr h ↦
        rw (mark_leading_step rounds k dp, h) (Started-column k dp s (cell_break k h), s.right)
  ]

  initial-Started : Started 0 (put blank 0 0 true)
  unfolding cell
  initial-Started = record {
    marked = λ a ha. let e : a ≡ 0 = omega arith in rw e;
    unmarked = λ a ha. ground arith;
    right = λ a c hc. ground arith;
  }

  first_row :
      (dp : Table)
      → ((a : ℕ) → dp a 0 ≡ cell a 0)
      → ((a c : ℕ) → 0 < c → dp a c ≡ false)
      → (c : ℕ) → dp 0 c ≡ cell 0 c
  unfolding cell
  first_row dp column right zero = column 0
  first_row dp column right (suc c) = right 0 (suc c) (omega arith)

  opening-Progress :
      (dp : Table)
      → ((a : ℕ) → dp a 0 ≡ cell a 0)
      → ((a c : ℕ) → 0 < c → dp a c ≡ false)
      → Progress 0 0 dp
  opening-Progress dp column right = record {
    above = λ a c ha hc. let e : a ≡ 0 = omega arith in rw e (first_row dp column right c);
    here = λ c hc. let e : c ≡ 0 = omega arith in rw e (column 1);
    ahead = λ c hc. right 1 c (omega arith);
    below = λ a c ha hc. right a c hc;
    column = column;
  }

  -- The table of `route` holds the recurrence in every place.
  pub table-cell :
      (a c : ℕ)
      → a ≤ length bkeys
      → c ≤ length rkeys
      → fill_rows bkeys rkeys
          (length bkeys)
          1
          (mark_leading bkeys rkeys (length bkeys) 1 (put blank 0 0 true))
          a
          c
        ≡ cell a c
  table-cell a c ha hc =
      let done = mark_leading-column (length bkeys) 0 _ (omega arith) initial-Started in
      fill_rows-cell (length bkeys) 0 _ (opening-Progress _ done.0 done.1) a c (omega arith) hc
