-- ===== src/ThreadPool.antt =====
-- The thread pool: src/threadpool.h and src/threadpool.cpp.
-- A job `J` is the function and its argument. Whatever a thread does with the mutex held is one step,
-- from the lock to the unlock or to `pthread_cond_wait`, which gives the mutex up; threads interleave
-- between these steps in any order. `pthread_cond_signal` wakes one of the threads that sleep, if
-- there is one, and a thread may also wake by itself. Creating the mutex, the condition or a thread
-- may fail, so that the number of threads that run is any.
pub mod Runs
mod Tests
use custom_redis.Base.{ℕ, ◌≡◌, List, [], ◌∷◌, ◌++◌, All, replicate}

-- Where a thread is in `work`: before the lock, in `pthread_cond_wait`, behind the unlock with a job
-- that it has taken, or in `work.f(work.arg)`. The call stands behind the unlock, so threads that
-- hold jobs may begin them in any order.
pub data Phase {ℓ} (J : Type ℓ) : Type ℓ where
  locking sleeping : Phase J
  holding running : J → Phase J

pub record ThreadPool {ℓ} (J : Type ℓ) : Type ℓ where
  pub threads : List (Phase J)
  pub queue : List J

unfoldable pub IsAwake {ℓ} : {J : Type ℓ} → Phase J → Type 0
IsAwake locking = Unit
IsAwake sleeping = ⊥
IsAwake (holding job) = Unit
IsAwake (running job) = Unit

unfoldable pub threadpool_init {ℓ} : {J : Type ℓ} → ℕ → ThreadPool J
threadpool_init thread_cnt = record { threads = replicate thread_cnt locking; queue = [] }

-- One step, with the jobs that it hands in and the jobs that it takes out of the queue.
pub data Step {ℓ} {J : Type ℓ} : ThreadPool J → List J → List J → ThreadPool J → Type ℓ where
  -- `threadpool_produce`, whose signal wakes a thread.
  produce_waking :
      (before after : List (Phase J)) (queue : List J) (job : J)
      → Step
          (record { threads = before ++ (sleeping ∷ after); queue = queue })
          (job ∷ [])
          []
          (record { threads = before ++ (locking ∷ after); queue = queue ++ (job ∷ []) })
  -- `threadpool_produce`, when no thread sleeps.
  produce :
      (threads : List (Phase J)) (queue : List J) (job : J)
      → All IsAwake threads
      → Step
          (record { threads = threads; queue = queue })
          (job ∷ [])
          []
          (record { threads = threads; queue = queue ++ (job ∷ []) })
  -- `pthread_cond_wait` returns.
  wake :
      (before after : List (Phase J)) (queue : List J)
      → Step
          (record { threads = before ++ (sleeping ∷ after); queue = queue })
          []
          []
          (record { threads = before ++ (locking ∷ after); queue = queue })
  -- The queue is empty.
  wait :
      (before after : List (Phase J))
      → Step
          (record { threads = before ++ (locking ∷ after); queue = [] })
          []
          []
          (record { threads = before ++ (sleeping ∷ after); queue = [] })
  -- The front of the queue is taken.
  take_job :
      (before after : List (Phase J)) (job : J) (queue : List J)
      → Step
          (record { threads = before ++ (locking ∷ after); queue = job ∷ queue })
          []
          (job ∷ [])
          (record { threads = before ++ (holding job ∷ after); queue = queue })
  -- `work.f(work.arg)` is called.
  begin :
      (before after : List (Phase J)) (job : J) (queue : List J)
      → Step
          (record { threads = before ++ (holding job ∷ after); queue = queue })
          []
          []
          (record { threads = before ++ (running job ∷ after); queue = queue })
  -- `work.f(work.arg)` returns.
  finish :
      (before after : List (Phase J)) (job : J) (queue : List J)
      → Step
          (record { threads = before ++ (running job ∷ after); queue = queue })
          []
          []
          (record { threads = before ++ (locking ∷ after); queue = queue })

-- The states that the pool reaches, with all jobs handed in and all jobs taken, in order.
pub data Reaches {ℓ} {J : Type ℓ} (thread_cnt : ℕ) : List J → List J → ThreadPool J → Type ℓ where
  start : Reaches thread_cnt [] [] (threadpool_init thread_cnt)
  step :
      {handed taken handed' taken' : List J} {tp tp' : ThreadPool J}
      → Reaches thread_cnt handed taken tp
      → Step tp handed' taken' tp'
      → Reaches thread_cnt (handed ++ handed') (taken ++ taken') tp'
