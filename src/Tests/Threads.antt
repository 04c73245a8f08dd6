-- ===== src/Tests/Threads.antt =====
-- The threads of mqcommon/mq_threadpool.hpp at work.
use bitmq.Base.{ℕ, ◌+◌, ◌≤◌, ◌≡◌, ◌⊎◌, refl, true, false, List, [], ◌∷◌, ◌++◌, length}
use bitmq.ThreadPool.{pos, Pool, Worker, checking, running, push, set_stop, next, start_threads}
use bitmq.ThreadPool.Steps.{
  System, takes, Goes, here, pushes, stops, notifies_all, goes, Reach, start, after, initial, count,
  is_gone,
}
use bitmq.ThreadPool.Order.{Reach-taskpool}
use bitmq.ThreadPool.Wakeups.{IsAwakeIn, Reach-IsAwake}
use bitmq.ThreadPool.Drain.{IsStopped, Run, done, then_, left_to_do, Run-left_to_do, stopped-drains}

-- One thread; task 7 is pushed; the thread has not looked yet.
abbrev pushed_one : System ℕ
pushed_one = record {
  pool = record { stop = false; taskpool = 7 ∷ [] };
  workers = checking ∷ [];
  to_notify = 1;
  to_notify_all = false;
}

-- `stop` was called, and has notified.
abbrev stopping : System ℕ
stopping = record {
  pool = record { stop = true; taskpool = 7 ∷ [] };
  workers = checking ∷ [];
  to_notify = 1;
  to_notify_all = false;
}

abbrev to_stop : System ℕ
to_stop = record stopping { to_notify_all = true }

abbrev took : System ℕ
took = record {
  pool = record { stop = true; taskpool = [] };
  workers = running 7 ∷ [];
  to_notify = 1;
  to_notify_all = false;
}

pushed_one-Reach : Reach (pos 0) (7 ∷ []) [] pushed_one
unfolding start_threads push
pushed_one-Reach =
    after [] [] (7 ∷ []) [] (initial (pos 0)) pushed_one start (pushes 7 pushed_one.pool refl)

stopping-Reach : Reach (pos 0) (7 ∷ []) [] stopping
unfolding set_stop
stopping-Reach =
    after (7 ∷ []) [] [] [] to_stop stopping
      (after (7 ∷ []) [] [] [] pushed_one to_stop pushed_one-Reach (stops stopping.pool refl))
      (notifies_all refl)

took-Reach : Reach (pos 0) (7 ∷ []) (7 ∷ []) took
unfolding next
took-Reach =
    after (7 ∷ []) [] [] (7 ∷ []) stopping took stopping-Reach
      (goes (7 ∷ []) took.pool took.workers (here (takes 7 took.pool refl)))

Reach-taskpool_example : (7 ∷ []) ++ took.pool.taskpool ≡ 7 ∷ []
Reach-taskpool_example = Reach-taskpool (pos 0) (7 ∷ []) (7 ∷ []) took took-Reach

Reach-IsAwake_example : IsAwakeIn pushed_one
Reach-IsAwake_example = Reach-IsAwake (pos 0) (7 ∷ []) [] pushed_one pushed_one-Reach

stopping-IsStopped : IsStopped stopping
stopping-IsStopped = record { is_set = refl; is_notified = refl; none_asleep = refl }

took-Run : Run stopping 1 took
unfolding next
took-Run =
    then_ 0 [] (7 ∷ []) stopping took done
      (goes (7 ∷ []) took.pool took.workers (here (takes 7 took.pool refl)))

Run-left_to_do_example : IsStopped took × (1 + left_to_do took ≤ left_to_do stopping)
Run-left_to_do_example = Run-left_to_do stopping took 1 stopping-IsStopped took-Run

stopped-drains_example :
    ((ts : List ℕ) × (p' : Pool ℕ) × (ws : List (Worker ℕ)) × Goes took.pool took.workers ts p' ws)
    ⊎ ((count is_gone took.workers ≡ length took.workers) × (◌≡◌ {A = List ℕ} (7 ∷ []) (7 ∷ [])))
stopped-drains_example = stopped-drains (pos 0) (7 ∷ []) (7 ∷ []) took took-Reach refl refl
