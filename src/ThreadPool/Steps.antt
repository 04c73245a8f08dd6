-- ===== src/ThreadPool/Steps.antt =====
-- The threads of a pool and its callers, interleaved in any order. A caller leaves the lock before it
-- notifies: what is still to be notified is part of the state.
use bitmq.Base.{ℕ, suc, ◌+◌, ◌≡◌, Bool, true, false, some, List, [], ◌∷◌, ◌++◌}
use bitmq.ThreadPool.{
  ℤ, Pool, Worker, checking, asleep, gone, running, wait, leave, run, new_pool, start_threads, push,
  set_stop, next,
}

pub record System (T : Type 0) : Type 0 where
  pub pool : Pool T
  pub workers : List (Worker T)
  -- the calls of `notify_one` and of `notify_all` that are to come
  pub to_notify : ℕ
  pub to_notify_all : Bool

module _ {T : Type 0} where
  -- One thread goes on: it takes the lock and sleeps, leaves or takes a task; or it ends its task.
  pub data Move (p : Pool T) : Worker T → List T → Pool T → Worker T → Type 0 where
    sleeps : next p ≡ wait → Move p checking [] p asleep
    leaves : next p ≡ leave → Move p checking [] p gone
    takes :
        (task : T) (p' : Pool T)
        → next p ≡ run task p'
        → Move p checking (task ∷ []) p' (running task)
    ends : (task : T) → Move p (running task) [] p checking

  -- One of the threads goes on; the list is what it takes.
  pub data Goes (p : Pool T) : List (Worker T) → List T → Pool T → List (Worker T) → Type 0 where
    here :
        {w w' : Worker T} {ws : List (Worker T)} {ts : List T} {p' : Pool T}
        → Move p w ts p' w'
        → Goes p (w ∷ ws) ts p' (w' ∷ ws)
    there :
        {w : Worker T} {ws ws' : List (Worker T)} {ts : List T} {p' : Pool T}
        → Goes p ws ts p' ws'
        → Goes p (w ∷ ws) ts p' (w ∷ ws')

  -- One sleeper wakes, by a notification or by itself.
  pub data Wakes : List (Worker T) → List (Worker T) → Type 0 where
    first : {ws : List (Worker T)} → Wakes (asleep ∷ ws) (checking ∷ ws)
    later : {w : Worker T} {ws ws' : List (Worker T)} → Wakes ws ws' → Wakes (w ∷ ws) (w ∷ ws')

  abbrev pub wake : Worker T → Worker T
  wake asleep = checking
  wake checking = checking
  wake gone = gone
  wake (running task) = running task

  abbrev pub wake_all : List (Worker T) → List (Worker T)
  wake_all [] = []
  wake_all (w ∷ ws) = wake w ∷ wake_all ws

  -- The number of threads at a place.
  abbrev pub count : (Worker T → ℕ) → List (Worker T) → ℕ
  count f [] = 0
  count f (w ∷ ws) = f w + count f ws

  abbrev pub is_asleep : Worker T → ℕ
  is_asleep asleep = 1
  is_asleep _ = 0

  abbrev pub is_gone : Worker T → ℕ
  is_gone gone = 1
  is_gone _ = 0

  -- It holds the lock, is about to, or is at a task.
  abbrev pub is_active : Worker T → ℕ
  is_active checking = 1
  is_active (running task) = 1
  is_active _ = 0

  -- A step, with what is pushed and what is taken by it.
  pub data Step (s : System T) : List T → List T → System T → Type 0 where
    pushes :
        (task : T) (p' : Pool T)
        → push task s.pool ≡ some p'
        → Step s (task ∷ []) [] (record s { pool = p'; to_notify = suc s.to_notify })
    stops :
        (p' : Pool T)
        → set_stop s.pool ≡ some p'
        → Step s [] [] (record s { pool = p'; to_notify_all = true })
    notifies :
        (n : ℕ) (ws : List (Worker T))
        → s.to_notify ≡ suc n
        → Wakes s.workers ws
        → Step s [] [] (record s { workers = ws; to_notify = n })
    notifies_nobody :
        (n : ℕ)
        → s.to_notify ≡ suc n
        → count is_asleep s.workers ≡ 0
        → Step s [] [] (record s { to_notify = n })
    notifies_all :
        s.to_notify_all ≡ true
        → Step s [] [] (record s { workers = wake_all s.workers; to_notify_all = false })
    wakes_itself :
        (ws : List (Worker T)) → Wakes s.workers ws → Step s [] [] (record s { workers = ws })
    goes :
        (ts : List T) (p' : Pool T) (ws : List (Worker T))
        → Goes s.pool s.workers ts p' ws
        → Step s [] ts (record s { pool = p'; workers = ws })

  abbrev pub initial : ℤ → System T
  initial thr_count = record {
    pool = new_pool;
    workers = start_threads thr_count;
    to_notify = 0;
    to_notify_all = false;
  }

  -- The tasks pushed so far, the tasks taken so far, and the state then.
  pub data Reach (thr_count : ℤ) : List T → List T → System T → Type 0 where
    start : Reach thr_count [] [] (initial thr_count)
    after :
        (pushed taken ps ts : List T) (s s' : System T)
        → Reach thr_count pushed taken s
        → Step s ps ts s'
        → Reach thr_count (pushed ++ ps) (taken ++ ts) s'
