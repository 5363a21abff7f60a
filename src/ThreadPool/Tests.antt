-- ===== src/ThreadPool/Tests.antt =====
-- The thread pool of src/threadpool.cpp with two threads: a job is handed in, taken and done, and both
-- threads go to sleep.
use custom_redis.Base.{ℕ, ◌≡◌, List, [], ◌∷◌, ◌++◌, arith, All}
use custom_redis.ThreadPool.{
  locking, sleeping, holding, ThreadPool, IsAwake, threadpool_init, produce, wait, take_job, begin,
  finish, Reaches, start, step,
}
use custom_redis.ThreadPool.Runs.{IsAsleep, taken-order, asleep-queue}

abbrev one_job : List ℕ
one_job = 7 ∷ []

taken : Reaches 2 one_job one_job (record { threads = holding 7 ∷ locking ∷ []; queue = [] })
unfolding threadpool_init IsAwake
taken =
    step (step start (produce (locking ∷ locking ∷ []) [] 7 (tt, (tt, tt))))
      (take_job [] (locking ∷ []) 7 [])

abbrev at_rest : ThreadPool ℕ
at_rest = record { threads = sleeping ∷ sleeping ∷ []; queue = [] }

rested : Reaches 2 one_job one_job at_rest
rested =
    step
      (step (step (step taken (begin [] (locking ∷ []) 7 [])) (finish [] (locking ∷ []) 7 []))
        (wait [] (locking ∷ [])))
      (wait (sleeping ∷ []) [])

taken-order_example : one_job ++ [] ≡ one_job
taken-order_example =
    taken-order 2 one_job one_job (record { threads = holding 7 ∷ locking ∷ []; queue = [] }) taken

sleepers : All IsAsleep at_rest.threads
unfolding IsAwake
sleepers = ((λ a. a), ((λ a. a), tt))

asleep-queue_example : at_rest.queue ≡ []
asleep-queue_example = asleep-queue 2 one_job one_job at_rest (omega arith) rested sleepers
