-- ===== src/ThreadPool/Drain.antt =====
-- What happens to the threads once `stop` has notified them all: they empty the queue and return, so that
-- `join` does.
use bitmq.Base.{
  ℕ, zero, suc, ◌+◌, ◌*◌, ◌<◌, ◌≤◌, ◌≡◌, ◌⊎◌, refl, sym, ap, ◌∙◌, true, false, List, [], ◌∷◌, ◌++◌,
  length, arith, inl, inr, append-nil,
}
use bitmq.ThreadPool.{
  ℤ, Pool, Worker, checking, asleep, gone, running, Turn, wait, leave, run, next,
}
use bitmq.ThreadPool.Steps.{
  System, Move, sleeps, leaves, takes, ends, Goes, here, there, count, is_asleep, is_gone,
  is_active, Step, pushes, stops, notifies, notifies_nobody, notifies_all, wakes_itself, goes,
  Reach,
}
use bitmq.ThreadPool.Order.{next-run, push-some, set_stop-some, Reach-taskpool}
use bitmq.ThreadPool.Counts.{next-wait, Wakes-count, count-length}
use bitmq.ThreadPool.Wakeups.{IsAwakeIn, Reach-IsAwake}

zero-cases : (n : ℕ) → (n ≡ 0) ⊎ (0 < n)
zero-cases zero = inl refl
zero-cases (suc n) = inr (omega arith)

module _ {T : Type 0} where
  -- `stop` was called, has notified all, and nobody sleeps.
  pub record IsStopped (s : System T) : Type 0 where
    pub is_set : s.pool.stop ≡ true
    pub is_notified : s.to_notify_all ≡ false
    pub none_asleep : count is_asleep s.workers ≡ 0

  -- What a thread has still to do at most, the tasks in the queue aside.
  abbrev pub weight : Worker T → ℕ
  weight checking = 1
  weight (running task) = 2
  weight asleep = 0
  weight gone = 0

  -- What the pool has still to do at most.
  abbrev pub left_to_do : System T → ℕ
  left_to_do s = 2 * length s.pool.taskpool + count weight s.workers + s.to_notify

  -- `n` steps one after the other.
  pub data Run (s : System T) : ℕ → System T → Type 0 where
    done : Run s zero s
    then_ :
        (n : ℕ) (ps ts : List T) (s' s'' : System T)
        → Run s n s'
        → Step s' ps ts s''
        → Run s (suc n) s''

  Move-weight :
      {p p' : Pool T} {w w' : Worker T} {ts : List T}
      → p.stop ≡ true
      → Move p w ts p' w'
      → (p'.stop ≡ true)
        × (is_asleep w' ≡ is_asleep w)
        × (2 * length p'.taskpool + weight w' < 2 * length p.taskpool + weight w)
  Move-weight {p} t (sleeps h) = ground (arith, next-wait p h)
  Move-weight t (leaves h) = (t, refl, omega arith)
  Move-weight {p} t (takes task p' h) =
      let (e, n) = next-run p p' task h in (n ∙ t, refl, omega (arith, ap length e))
  Move-weight t (ends task) = (t, refl, omega arith)

  Goes-weight :
      {p p' : Pool T} {ws ws' : List (Worker T)} {ts : List T}
      → p.stop ≡ true
      → Goes p ws ts p' ws'
      → (p'.stop ≡ true)
        × (count is_asleep ws' ≡ count is_asleep ws)
        × (2 * length p'.taskpool + count weight ws' < 2 * length p.taskpool + count weight ws)
  Goes-weight t (here m) =
      let (s, z, l) = Move-weight t m in (s, omega (arith, z), omega (arith, l))
  Goes-weight t (there g) =
      let (s, z, l) = Goes-weight t g in (s, omega (arith, z), omega (arith, l))

  Step-left_to_do :
      (s s' : System T) (ps ts : List T)
      → Step s ps ts s'
      → IsStopped s
      → IsStopped s' × (left_to_do s' < left_to_do s)
  Step-left_to_do s s' ps ts (pushes task p' h) i =
      let (q, e, f) = push-some task s.pool p' h in ground (arith, i.is_set)
  Step-left_to_do s s' ps ts (stops p' h) i =
      let (q, t, f) = set_stop-some s.pool p' h in ground (arith, i.is_set)
  Step-left_to_do s s' ps ts (notifies n ws e h) i =
      let (a, z, g) = Wakes-count h in ground (arith, i.none_asleep)
  Step-left_to_do s s' ps ts (notifies_nobody n e z0) i = (
    record { is_set = i.is_set; is_notified = i.is_notified; none_asleep = i.none_asleep },
    omega arith,
  )
  Step-left_to_do s s' ps ts (notifies_all h) i = ground (arith, i.is_notified)
  Step-left_to_do s s' ps ts (wakes_itself ws h) i =
      let (a, z, g) = Wakes-count h in ground (arith, i.none_asleep)
  Step-left_to_do s s' ps ts (goes _ p' ws h) i =
      let (t, z, l) = Goes-weight i.is_set h in
      (
        record { is_set = t; is_notified = i.is_notified; none_asleep = z ∙ i.none_asleep },
        omega (arith, l),
      )

  -- Once `stop` has notified all and nobody sleeps, however the steps of the threads and of the callers are
  -- interleaved, there are at most twice as many as there are tasks in the queue, and one for each thread
  -- about to look, two for each at a task, and one for each notification to come; and it stays so.
  pub Run-left_to_do :
      (s s' : System T) (n : ℕ)
      → IsStopped s
      → Run s n s'
      → IsStopped s' × (n + left_to_do s' ≤ left_to_do s)
  Run-left_to_do s s' n i done = (i, omega arith)
  Run-left_to_do s s' n' i (then_ n ps ts s1 s2 r step) =
      let (i1, l1) = Run-left_to_do s s1 n i r in
      let (i2, l2) = Step-left_to_do s1 s' ps ts step i1 in (i2, omega (arith, l1, l2))

  checking-Move :
      (p : Pool T) → (ts : List T) × (p' : Pool T) × (w : Worker T) × Move p checking ts p' w
  checking-Move p = turn (next p) refl
    where
      turn :
          (found : Turn T)
          → next p ≡ found
          → (ts : List T) × (p' : Pool T) × (w : Worker T) × Move p checking ts p' w
      turn wait e = ([], p, asleep, sleeps e)
      turn leave e = ([], p, gone, leaves e)
      turn (run task p') e = (task ∷ [], p', running task, takes task p' e)

  -- A thread that is about to look or at a task can go on.
  active-Goes :
      (p : Pool T) (ws : List (Worker T))
      → 0 < count is_active ws
      → (ts : List T) × (p' : Pool T) × (ws' : List (Worker T)) × Goes p ws ts p' ws'
  active-Goes p [] h = elim h [ ]
  active-Goes p (checking ∷ ws) h = let (ts, p', w, m) = checking-Move p in (ts, p', w ∷ ws, here m)
  active-Goes p (running task ∷ ws) h = ([], p, checking ∷ ws, here (ends task))
  active-Goes p (asleep ∷ ws) h =
      let (ts, p', ws', g) = active-Goes p ws (omega (arith, h)) in (ts, p', asleep ∷ ws', there g)
  active-Goes p (gone ∷ ws) h =
      let (ts, p', ws', g) = active-Goes p ws (omega (arith, h)) in (ts, p', gone ∷ ws', there g)

  -- Reached with `stop` set and all notified, a state is a stopped one.
  pub Reach-IsStopped :
      (thr_count : ℤ) (pushed taken : List T) (s : System T)
      → Reach thr_count pushed taken s
      → s.pool.stop ≡ true
      → s.to_notify_all ≡ false
      → IsStopped s
  Reach-IsStopped thr_count pushed taken s r t n =
      let i = Reach-IsAwake thr_count pushed taken s r in
      record {
        is_set = t;
        is_notified = n;
        none_asleep = elim i.stopped [
          | inl f ↦ ground arith
          | inr (inl a) ↦ ground arith
          | inr (inr z) ↦ z
        ];
      }

  -- When no thread is active, all have left, and the queue is empty.
  idle-all_gone :
      (s : System T)
      → IsAwakeIn s
      → IsStopped s
      → count is_active s.workers ≡ 0
      → (count is_gone s.workers ≡ length s.workers) × (s.pool.taskpool ≡ [])
  idle-all_gone s i k e = (
    omega (arith, count-length s.workers, k.none_asleep),
    elim i.left [ inl g ↦ ground (arith, i.some_thread, k.none_asleep) | inr (_, q) ↦ q ],
  )

  -- In every state that a pool comes to with `stop` set, all notified and no notification to come: a thread
  -- can go on, or all threads have returned, and the tasks taken are those pushed, in that order.
  pub stopped-drains :
      (thr_count : ℤ) (pushed taken : List T) (s : System T)
      → Reach thr_count pushed taken s
      → s.pool.stop ≡ true
      → s.to_notify_all ≡ false
      → ((ts : List T) × (p' : Pool T) × (ws : List (Worker T)) × Goes s.pool s.workers ts p' ws)
        ⊎ ((count is_gone s.workers ≡ length s.workers) × (taken ≡ pushed))
  stopped-drains thr_count pushed taken s r t n =
      let k = Reach-IsStopped thr_count pushed taken s r t n in
      elim (zero-cases (count is_active s.workers)) [
        | inr l ↦ inl (active-Goes s.pool s.workers l)
        | inl e ↦
            let (g, q) = idle-all_gone s (Reach-IsAwake thr_count pushed taken s r) k e in
            inr (
              g,
              sym (append-nil taken)
                  ∙ ap (λ x. taken ++ x) (sym q)
                  ∙ Reach-taskpool thr_count pushed taken s r,
            )
      ]
