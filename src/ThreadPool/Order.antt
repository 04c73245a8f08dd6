-- ===== src/ThreadPool/Order.antt =====
-- Which tasks are taken, and in which order.
use bitmq.Base.{
  ◌≡◌, refl, sym, ap, ◌∙◌, true, false, some, List, [], ◌∷◌, ◌++◌, append_assoc, append-nil, arith,
}
use bitmq.ThreadPool.{ℤ, Pool, Worker, run, push, set_stop, next}
use bitmq.ThreadPool.Steps.{
  System, Move, sleeps, leaves, takes, ends, Goes, here, there, Step, pushes, stops, notifies,
  notifies_nobody, notifies_all, wakes_itself, goes, Reach, start, after,
}

module _ {T : Type 0} where
  -- What a turn leaves in the pool.
  pub next-run :
      (p p' : Pool T) (task : T)
      → next p ≡ run task p'
      → (p.taskpool ≡ task ∷ p'.taskpool) × (p'.stop ≡ p.stop)
  unfolding next
  next-run p p' task h = ground arith

  pub Move-taskpool :
      {p p' : Pool T} {w w' : Worker T} {ts : List T}
      → Move p w ts p' w'
      → (p.taskpool ≡ ts ++ p'.taskpool) × (p'.stop ≡ p.stop)
  Move-taskpool (sleeps h) = (refl, refl)
  Move-taskpool (leaves h) = (refl, refl)
  Move-taskpool {p} (takes task p' h) = next-run p p' task h
  Move-taskpool (ends task) = (refl, refl)

  pub Goes-taskpool :
      {p p' : Pool T} {ws ws' : List (Worker T)} {ts : List T}
      → Goes p ws ts p' ws'
      → (p.taskpool ≡ ts ++ p'.taskpool) × (p'.stop ≡ p.stop)
  Goes-taskpool (here m) = Move-taskpool m
  Goes-taskpool (there g) = Goes-taskpool g

  pub push-some :
      (task : T) (p p' : Pool T)
      → push task p ≡ some p'
      → (p'.taskpool ≡ p.taskpool ++ task ∷ []) × (p'.stop ≡ p.stop) × (p.stop ≡ false)
  unfolding push
  push-some task p p' h = ground arith

  pub set_stop-some :
      (p p' : Pool T)
      → set_stop p ≡ some p'
      → (p'.taskpool ≡ p.taskpool) × (p'.stop ≡ true) × (p.stop ≡ false)
  unfolding set_stop
  set_stop-some p p' h = ground arith

  -- Each step keeps the account of the tasks.
  Step-taskpool :
      (s s' : System T) (ps ts : List T)
      → Step s ps ts s'
      → s.pool.taskpool ++ ps ≡ ts ++ s'.pool.taskpool
  Step-taskpool s s' ps ts (pushes task p' h) = sym (push-some task s.pool p' h).0
  Step-taskpool s s' ps ts (stops p' h) = append-nil _ ∙ sym (set_stop-some s.pool p' h).0
  Step-taskpool s s' ps ts (notifies n ws e h) = append-nil _
  Step-taskpool s s' ps ts (notifies_nobody n e h) = append-nil _
  Step-taskpool s s' ps ts (notifies_all h) = append-nil _
  Step-taskpool s s' ps ts (wakes_itself ws h) = append-nil _
  Step-taskpool s s' ps ts' (goes ts p' ws h) = append-nil _ ∙ (Goes-taskpool h).0

  -- In every state that a pool comes to, the tasks taken so far and then those in the queue are the
  -- tasks pushed so far: each one is taken at most once, none is lost, and they are taken in the order
  -- in which they were pushed.
  pub Reach-taskpool :
      (thr_count : ℤ) (pushed taken : List T) (s : System T)
      → Reach thr_count pushed taken s
      → taken ++ s.pool.taskpool ≡ pushed
  Reach-taskpool thr_count pushed taken s start = refl
  Reach-taskpool thr_count pushed' taken' s' (after pushed taken ps ts s s'' r step) =
      append_assoc taken ts s'.pool.taskpool
      ∙ ap (λ x. taken ++ x) (sym (Step-taskpool s s' ps ts step))
      ∙ sym (append_assoc taken s.pool.taskpool ps)
      ∙ ap (λ x. x ++ ps) (Reach-taskpool thr_count pushed taken s r)
