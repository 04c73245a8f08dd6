-- ===== src/ThreadPool/Wakeups.antt =====
-- The threads that sleep, and the notifications.
use bitmq.Base.{
  ℕ, zero, suc, ◌+◌, ◌<◌, ◌≡◌, ◌⊎◌, refl, sym, ◌∙◌, Bool, true, false, List, [], replicate, arith,
  inl, inr,
}
use bitmq.ThreadPool.{ℤ, Pool, Worker, checking, start_threads, thread_count}
use bitmq.ThreadPool.Steps.{
  System, count, is_asleep, is_gone, is_active, Step, pushes, stops, notifies, notifies_nobody,
  notifies_all, wakes_itself, goes, Reach, start, after, initial,
}
use bitmq.ThreadPool.Order.{push-some, set_stop-some}
use bitmq.ThreadPool.Counts.{
  count-length, Effect, Goes-Effect, Goes-length, Wakes-count, wake_all-count,
}

map_stopped :
    {stop stop' all : Bool} {z z' : ℕ}
    → (stop ≡ false) ⊎ (all ≡ true) ⊎ (z ≡ 0)
    → stop' ≡ stop
    → z' ≡ z
    → (stop' ≡ false) ⊎ (all ≡ true) ⊎ (z' ≡ 0)
map_stopped (inl f) s e = inl (s ∙ f)
map_stopped (inr (inl t)) s e = inr (inl t)
map_stopped (inr (inr n)) s e = inr (inr (e ∙ n))

thread_count-positive : (n : ℤ) → 0 < thread_count n
unfolding thread_count
thread_count-positive n = ground arith

module _ {T : Type 0} where
  -- What holds between the counts, the queue and the notifications.
  pub record IsAwake (stop all : Bool) (tasks : List T) (a z g n : ℕ) : Type 0 where
    pub some_thread : 0 < a + (z + g)
    pub left : (g ≡ 0) ⊎ ((stop ≡ true) × (tasks ≡ []))
    pub served : (tasks ≡ []) ⊎ (0 < a + n)
    pub stopped : (stop ≡ false) ⊎ (all ≡ true) ⊎ (z ≡ 0)

  abbrev pub IsAwakeIn : System T → Type 0
  IsAwakeIn s =
      IsAwake s.pool.stop s.to_notify_all s.pool.taskpool (count is_active s.workers)
        (count is_asleep s.workers) (count is_gone s.workers) s.to_notify

  goes-IsAwake :
      (p p' : Pool T) (all : Bool) (a a' z z' g g' n : ℕ)
      → IsAwake p.stop all p.taskpool a z g n
      → Effect p p' a a' z z' g g'
      → a' + (z' + g') ≡ a + (z + g)
      → IsAwake p'.stop all p'.taskpool a' z' g' n
  goes-IsAwake p p' all a a' z z' g g' n i e same = record {
    some_thread = omega (arith, i.some_thread);
    left = elim e.changed [
      | inl (e, e', s, inl (f, z1, g1)) ↦ elim i.left [
        | inl g0 ↦ inl (g1 ∙ g0)
        | inr (t, _) ↦ ground arith
      ]
      | inl (e, e', s, inr (t, z1, g1)) ↦ inr (s ∙ t, e')
      | inr (s, a1, z1, g1, active, inl q) ↦ elim i.left [
        | inl g0 ↦ inl (g1 ∙ g0)
        | inr (t, e) ↦ inr (s ∙ t, q ∙ e)
      ]
      | inr (s, a1, z1, g1, active, inr (task, q)) ↦ elim i.left [
        | inl g0 ↦ inl (g1 ∙ g0)
        | inr (t, e) ↦ ground arith
      ]
    ];
    served = elim e.changed [
      | inl (e, e', _, _) ↦ inl e'
      | inr (s, a1, z1, g1, active, _) ↦ inr (omega (arith, a1, active))
    ];
    stopped = elim e.changed [
      | inl (e, e', s, inl (f, _, _)) ↦ inl (s ∙ f)
      | inl (e, e', s, inr (t, z1, _)) ↦ map_stopped i.stopped s z1
      | inr (s, a1, z1, _, _, _) ↦ map_stopped i.stopped s z1
    ];
  }

  Step-IsAwake : (s s' : System T) (ps ts : List T) → Step s ps ts s' → IsAwakeIn s → IsAwakeIn s'
  Step-IsAwake s s' ps ts (pushes task p' h) i =
      let (q, e, f) = push-some task s.pool p' h in
      record {
        some_thread = i.some_thread;
        left = elim i.left [ inl g0 ↦ inl g0 | inr (t, _) ↦ ground arith ];
        served = inr (omega arith);
        stopped = inl (e ∙ f);
      }
  Step-IsAwake s s' ps ts (stops p' h) i =
      let (q, t, _) = set_stop-some s.pool p' h in
      record {
        some_thread = i.some_thread;
        left = elim i.left [ inl g0 ↦ inl g0 | inr (_, e) ↦ inr (t, q ∙ e) ];
        served = elim i.served [ inl e ↦ inl (q ∙ e) | inr l ↦ inr l ];
        stopped = inr (inl refl);
      }
  Step-IsAwake s s' ps ts (notifies n ws e h) i =
      let (a, z, g) = Wakes-count h in
      record {
        some_thread = omega (arith, i.some_thread);
        left = elim i.left [ inl g0 ↦ inl (g ∙ g0) | inr r ↦ inr r ];
        served = elim i.served [ inl q ↦ inl q | inr l ↦ inr (omega (arith, l)) ];
        stopped = elim i.stopped [
          | inl f ↦ inl f
          | inr (inl t) ↦ inr (inl t)
          | inr (inr z0) ↦ inr (inr (omega arith))
        ];
      }
  Step-IsAwake s s' ps ts (notifies_nobody n e z0) i = record {
    some_thread = i.some_thread;
    left = i.left;
    served = elim i.left [ inl g0 ↦ inr (omega (arith, i.some_thread)) | inr (_, q) ↦ inl q ];
    stopped = inr (inr z0);
  }
  Step-IsAwake s s' ps ts (notifies_all h) i =
      let (a, z, g) = wake_all-count s.workers in
      record {
        some_thread = omega (arith, i.some_thread);
        left = elim i.left [ inl g0 ↦ inl (g ∙ g0) | inr r ↦ inr r ];
        served = elim i.served [ inl q ↦ inl q | inr l ↦ inr (omega (arith, l)) ];
        stopped = inr (inr z);
      }
  Step-IsAwake s s' ps ts (wakes_itself ws h) i =
      let (a, z, g) = Wakes-count h in
      record {
        some_thread = omega (arith, i.some_thread);
        left = elim i.left [ inl g0 ↦ inl (g ∙ g0) | inr r ↦ inr r ];
        served = elim i.served [ inl q ↦ inl q | inr l ↦ inr (omega (arith, l)) ];
        stopped = elim i.stopped [
          | inl f ↦ inl f
          | inr (inl t) ↦ inr (inl t)
          | inr (inr z0) ↦ inr (inr (omega arith))
        ];
      }
  Step-IsAwake s s' ps ts (goes _ p' ws h) i =
      goes-IsAwake s.pool p' s.to_notify_all _ _ _ _ _ _ s.to_notify i (Goes-Effect h)
        (count-length ws ∙ Goes-length h ∙ sym (count-length s.workers))

  replicate-all : (f : Worker T → ℕ) (w : Worker T) (n : ℕ) → f w ≡ 1 → count f (replicate n w) ≡ n
  replicate-all f w zero h = refl
  replicate-all f w (suc n) h = omega (arith, h, replicate-all f w n h)

  replicate-none : (f : Worker T → ℕ) (w : Worker T) (n : ℕ) → f w ≡ 0 → count f (replicate n w) ≡ 0
  replicate-none f w zero h = refl
  replicate-none f w (suc n) h = omega (arith, h, replicate-none f w n h)

  start-IsAwake : (thr_count : ℤ) → IsAwakeIn (initial {T = T} thr_count)
  unfolding start_threads
  start-IsAwake thr_count =
      let a = replicate-all is_active checking (thread_count thr_count) refl in
      record {
        some_thread = omega (arith, thread_count-positive thr_count, a);
        left = inl (replicate-none is_gone checking (thread_count thr_count) refl);
        served = inl refl;
        stopped = inl refl;
      }

  -- In every state that a pool comes to: it has a thread; a thread has left only if `stop` was called and
  -- no task was in the queue; if a task is in the queue, a thread is at work or is about to look, or a
  -- notification is to come, so no push goes unnoticed; and once `stop` has notified all, nobody sleeps.
  pub Reach-IsAwake :
      (thr_count : ℤ) (pushed taken : List T) (s : System T)
      → Reach thr_count pushed taken s
      → IsAwakeIn s
  Reach-IsAwake thr_count pushed taken s start = start-IsAwake thr_count
  Reach-IsAwake thr_count pushed' taken' s' (after pushed taken ps ts s s'' r step) =
      Step-IsAwake s s' ps ts step (Reach-IsAwake thr_count pushed taken s r)
