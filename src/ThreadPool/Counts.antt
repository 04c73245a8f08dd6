-- ===== src/ThreadPool/Counts.antt =====
-- How many threads sleep, are at work and have left, before and after a step.
use native.Mathlib.Nat.{add_comm}
use bitmq.Base.{
  ℕ, suc, ◌+◌, ◌<◌, ◌≡◌, ◌⊎◌, refl, ap, true, false, List, [], ◌∷◌, length, arith, inl, inr,
}
use bitmq.ThreadPool.{Pool, Worker, checking, asleep, gone, running, wait, leave, next}
use bitmq.ThreadPool.Steps.{
  Move, sleeps, leaves, takes, ends, Goes, here, there, Wakes, first, later, wake_all, count,
  is_asleep, is_gone, is_active,
}
use bitmq.ThreadPool.Order.{next-run}

module _ {T : Type 0} where
  is_one : (w : Worker T) → is_active w + (is_asleep w + is_gone w) ≡ 1
  is_one checking = refl
  is_one asleep = refl
  is_one gone = refl
  is_one (running task) = refl

  -- Every thread is at one place.
  pub count-length :
      (ws : List (Worker T))
      → count is_active ws + (count is_asleep ws + count is_gone ws) ≡ length ws
  count-length [] = refl
  count-length (w ∷ ws) = omega (arith, is_one w, count-length ws)

  -- What one thread's going changes of the counts.
  pub record Effect (p p' : Pool T) (a a' z z' g g' : ℕ) : Type 0 where
    pub changed :
        ((p.taskpool ≡ [])
          × (p'.taskpool ≡ [])
          × (p'.stop ≡ p.stop)
          × (((p.stop ≡ false) × (z' ≡ suc z) × (g' ≡ g))
              ⊎ ((p.stop ≡ true) × (z' ≡ z) × (g' ≡ suc g))))
        ⊎ ((p'.stop ≡ p.stop)
            × (a' ≡ a)
            × (z' ≡ z)
            × (g' ≡ g)
            × (0 < a)
            × ((p'.taskpool ≡ p.taskpool) ⊎ ((task : T) × (p.taskpool ≡ task ∷ p'.taskpool))))

  pub next-wait : (p : Pool T) → next p ≡ wait → (p.taskpool ≡ []) × (p.stop ≡ false)
  unfolding next
  next-wait p h = ground arith

  pub next-leave : (p : Pool T) → next p ≡ leave → (p.taskpool ≡ []) × (p.stop ≡ true)
  unfolding next
  next-leave p h = ground arith

  Move-Effect :
      {p p' : Pool T} {w w' : Worker T} {ts : List T}
      → Move p w ts p' w'
      → Effect p p'
          (is_active w)
          (is_active w')
          (is_asleep w)
          (is_asleep w')
          (is_gone w)
          (is_gone w')
  Move-Effect {p} (sleeps h) =
      let (e, n) = next-wait p h in record { changed = inl (e, e, refl, inl (n, refl, refl)) }
  Move-Effect {p} (leaves h) =
      let (e, n) = next-leave p h in record { changed = inl (e, e, refl, inr (n, refl, refl)) }
  Move-Effect {p} (takes task p' h) =
      let (e, n) = next-run p p' task h in
      record { changed = inr (n, refl, refl, refl, omega arith, inr (task, e)) }
  Move-Effect (ends task) = record { changed = inr (refl, refl, refl, refl, omega arith, inl refl) }

  -- The same change beside other threads.
  Effect-beside :
      (p p' : Pool T) (a a' z z' g g' k l m : ℕ)
      → Effect p p' a a' z z' g g'
      → Effect p p' (k + a) (k + a') (l + z) (l + z') (m + g) (m + g')
  Effect-beside p p' a a' z z' g g' k l m c = elim c.changed [
    | inl (e, e', s, inl (n, z1, g1)) ↦ record {
      changed = inl (e, e', s, inl (n, omega arith, omega arith));
    }
    | inl (e, e', s, inr (n, z1, g1)) ↦ record {
      changed = inl (e, e', s, inr (n, omega arith, omega arith));
    }
    | inr (s, a1, z1, g1, some_active, t) ↦ record {
      changed = inr (s, omega arith, omega arith, omega arith, omega arith, t);
    }
  ]

  Effect-swap :
      (p p' : Pool T) (a a' z z' g g' k l m : ℕ)
      → Effect p p' (k + a) (k + a') (l + z) (l + z') (m + g) (m + g')
      → Effect p p' (a + k) (a' + k) (z + l) (z' + l) (g + m) (g' + m)
  Effect-swap p p' a a' z z' g g' k l m e =
      rw (add_comm a k, add_comm a' k, add_comm z l, add_comm z' l, add_comm g m, add_comm g' m) e

  pub Goes-Effect :
      {p p' : Pool T} {ws ws' : List (Worker T)} {ts : List T}
      → Goes p ws ts p' ws'
      → Effect p p'
          (count is_active ws)
          (count is_active ws')
          (count is_asleep ws)
          (count is_asleep ws')
          (count is_gone ws)
          (count is_gone ws')
  Goes-Effect {p} {p'} (here {w} {w'} {ws} m) =
      Effect-swap p p' _ _ _ _ _ _ (count is_active ws) (count is_asleep ws) (count is_gone ws) (
        Effect-beside p p' _ _ _ _ _ _ (count is_active ws) (count is_asleep ws) (count is_gone ws)
          (Move-Effect m))
  Goes-Effect {p} {p'} (there {w} g) =
      Effect-beside p p' _ _ _ _ _ _ (is_active w) (is_asleep w) (is_gone w) (Goes-Effect g)

  pub Goes-length :
      {p p' : Pool T} {ws ws' : List (Worker T)} {ts : List T}
      → Goes p ws ts p' ws'
      → length ws' ≡ length ws
  Goes-length (here m) = refl
  Goes-length (there g) = ap suc (Goes-length g)

  -- Waking changes no thread that is not asleep.
  pub Wakes-count :
      {ws ws' : List (Worker T)}
      → Wakes ws ws'
      → (count is_active ws' ≡ suc (count is_active ws))
        × (count is_asleep ws ≡ suc (count is_asleep ws'))
        × (count is_gone ws' ≡ count is_gone ws)
  Wakes-count first = (omega arith, omega arith, omega arith)
  Wakes-count (later h) = let (a, z, g) = Wakes-count h in (omega arith, omega arith, omega arith)

  pub wake_all-count :
      (ws : List (Worker T))
      → (count is_active (wake_all ws) ≡ count is_active ws + count is_asleep ws)
        × (count is_asleep (wake_all ws) ≡ 0)
        × (count is_gone (wake_all ws) ≡ count is_gone ws)
  wake_all-count [] = (refl, refl, refl)
  wake_all-count (checking ∷ ws) =
      let (a, z, g) = wake_all-count ws in (omega arith, omega arith, omega arith)
  wake_all-count (asleep ∷ ws) =
      let (a, z, g) = wake_all-count ws in (omega arith, omega arith, omega arith)
  wake_all-count (gone ∷ ws) =
      let (a, z, g) = wake_all-count ws in (omega arith, omega arith, omega arith)
  wake_all-count (running task ∷ ws) =
      let (a, z, g) = wake_all-count ws in (omega arith, omega arith, omega arith)
