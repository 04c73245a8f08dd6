-- ===== src/ThreadPool.antt =====
-- mqcommon/mq_threadpool.hpp: the queue of tasks and the threads that serve it. A task is a value of a
-- type of the client's; what it does when it runs is the client's.
pub mod Steps
pub mod Order
pub mod Counts
pub mod Wakeups
pub mod Drain
use bitmq.Base.{
  ℕ, zero, suc, ◌+◌, Bool, true, false, not, ◌&&◌, ◌||◌, Option, none, some, List, [], ◌∷◌, ◌++◌,
  if◌then◌else◌, replicate,
}

-- An `int`
pub data ℤ : Type 0 where
  pos negsuc : ℕ → ℤ

-- What the mutex guards.
pub record Pool (T : Type 0) : Type 0 where
  pub stop : Bool
  pub taskpool : List T

-- Where a thread stands in `entry`: before it takes the lock, inside `wait`, at a task, or returned.
pub data Worker (T : Type 0) : Type 0 where
  checking asleep gone : Worker T
  running : T → Worker T

-- What a thread finds when it holds the lock.
pub data Turn (T : Type 0) : Type 0 where
  wait leave : Turn T
  run : T → Pool T → Turn T

unfoldable pub thread_count : ℤ → ℕ
thread_count (pos zero) = 1
thread_count (pos (suc n)) = suc n
thread_count (negsuc n) = 1

module _ {T : Type 0} where
  abbrev pub is_empty : List T → Bool
  is_empty [] = true
  is_empty (task ∷ tasks) = false

  -- The constructor.
  abbrev pub new_pool : Pool T
  new_pool = record { stop = false; taskpool = [] }

  unfoldable pub start_threads : ℤ → List (Worker T)
  unfolding thread_count
  start_threads thr_count = replicate (thread_count thr_count) checking

  -- The guarded part of `push`. `none` is the exception.
  unfoldable pub push : T → Pool T → Option (Pool T)
  push task p = if p.stop then none else some (record p { taskpool = p.taskpool ++ task ∷ [] })

  -- The guarded part of `stop`: `none` where an earlier call was first.
  unfoldable pub set_stop : Pool T → Option (Pool T)
  set_stop p = if p.stop then none else some (record p { stop = true })

  -- The guarded part of a round of `entry`: the predicate of `wait`, and what follows it.
  unfoldable pub next : Pool T → Turn T
  next p = elim p.taskpool [
    | [] ↦ if p.stop then leave else wait
    | task ∷ tasks ↦ run task (record p { taskpool = tasks })
  ]
