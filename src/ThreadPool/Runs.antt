-- ===== src/ThreadPool/Runs.antt =====
-- What holds in every state that the thread pool of src/threadpool.cpp reaches.
use mathlib.Core.List.{append_assoc, append-nil}
use custom_redis.Base.{
  ℕ, suc, ◌<◌, ◌≡◌, refl, sym, ap, ◌∙◌, List, [], ◌∷◌, ◌++◌, arith, All, length, length-replicate,
}
use custom_redis.ThreadPool.{
  Phase, locking, sleeping, holding, running, ThreadPool, IsAwake, threadpool_init, Step,
  produce_waking, produce, wake, wait, take_job, begin, finish, Reaches, start, step,
}

module _ {ℓ} {J : Type ℓ} where
  Step-order :
      {handed' taken' : List J} {tp tp' : ThreadPool J} (handed taken : List J)
      → Step tp handed' taken' tp'
      → taken ++ tp.queue ≡ handed
      → (taken ++ taken') ++ tp'.queue ≡ handed ++ handed'
  Step-order handed taken (produce_waking before after queue job) e =
      rw (append-nil, ← e) (sym (append_assoc taken queue (job ∷ [])))
  Step-order handed taken (produce threads queue job awake) e =
      rw (append-nil, ← e) (sym (append_assoc taken queue (job ∷ [])))
  Step-order handed taken (wake before after queue) e = rw (append-nil, append-nil) e
  Step-order handed taken (wait before after) e =
      rw (append-nil, append-nil, append-nil) (sym (append-nil taken) ∙ e)
  Step-order handed taken (take_job before after job queue) e =
      append_assoc taken (job ∷ []) queue ∙ e ∙ sym (append-nil handed)
  Step-order handed taken (begin before after job queue) e = rw (append-nil, append-nil) e
  Step-order handed taken (finish before after job queue) e = rw (append-nil, append-nil) e

  -- In every state that the pool reaches, however the threads interleave, the jobs that threads
  -- have taken, in the order in which they were taken, followed by those in the queue, are the
  -- jobs that were handed in, in the same order: none is lost, taken twice or overtaken in the
  -- queue. Nothing is said of the order in which taken jobs are begun, since a thread calls a job
  -- behind the unlock.
  pub taken-order :
      (thread_cnt : ℕ) (handed taken : List J) (tp : ThreadPool J)
      → Reaches thread_cnt handed taken tp
      → taken ++ tp.queue ≡ handed
  unfolding threadpool_init
  taken-order thread_cnt handed taken tp start = refl
  taken-order thread_cnt handed taken tp (step {handed = h} {taken = s} r t) =
      Step-order h s t (taken-order thread_cnt h s _ r)

  abbrev pub IsAsleep : Phase J → Type 0
  IsAsleep phase = ¬ IsAwake phase

  All-middle :
      (P : Phase J → Type 0) (before after : List (Phase J)) (x : Phase J)
      → All P (before ++ (x ∷ after))
      → P x
  All-middle P [] after x a = a.0
  All-middle P (y ∷ before) after x a = All-middle P before after x a.1

  length-replaced :
      (before after : List (Phase J)) (x y : Phase J)
      → length (before ++ (x ∷ after)) ≡ length (before ++ (y ∷ after))
  length-replaced [] after x y = refl
  length-replaced (z ∷ before) after x y = ap suc (length-replaced before after x y)

  Step-length :
      {handed taken : List J} {tp tp' : ThreadPool J}
      → Step tp handed taken tp'
      → length tp'.threads ≡ length tp.threads
  Step-length (produce_waking before after queue job) =
      length-replaced before after locking sleeping
  Step-length (produce threads queue job awake) = refl
  Step-length (wake before after queue) = length-replaced before after locking sleeping
  Step-length (wait before after) = length-replaced before after sleeping locking
  Step-length (take_job before after job queue) = length-replaced before after (holding job) locking
  Step-length (begin before after job queue) =
      length-replaced before after (running job) (holding job)
  Step-length (finish before after job queue) = length-replaced before after locking (running job)

  length-threads :
      (thread_cnt : ℕ) (handed taken : List J) (tp : ThreadPool J)
      → Reaches thread_cnt handed taken tp
      → length tp.threads ≡ thread_cnt
  unfolding threadpool_init
  length-threads thread_cnt handed taken tp start = length-replicate thread_cnt locking
  length-threads thread_cnt handed taken tp (step r t) =
      Step-length t ∙ length-threads thread_cnt _ _ _ r

  both :
      (threads : List (Phase J)) → 0 < length threads → All IsAwake threads → ¬ All IsAsleep threads
  both [] lt a b = omega arith
  both (x ∷ threads) lt a b = b.0 a.0

  Step-rest :
      {handed taken : List J} {tp tp' : ThreadPool J}
      → Step tp handed taken tp'
      → 0 < length tp.threads
      → All IsAsleep tp'.threads
      → tp'.queue ≡ []
  unfolding IsAwake
  Step-rest (produce_waking before after queue job) lt a =
      absurd (All-middle IsAsleep before after locking a tt)
  Step-rest (produce threads queue job awake) lt a = absurd (both threads lt awake a)
  Step-rest (wake before after queue) lt a = absurd (All-middle IsAsleep before after locking a tt)
  Step-rest (wait before after) lt a = refl
  Step-rest (take_job before after job queue) lt a =
      absurd (All-middle IsAsleep before after (holding job) a tt)
  Step-rest (begin before after job queue) lt a =
      absurd (All-middle IsAsleep before after (running job) a tt)
  Step-rest (finish before after job queue) lt a =
      absurd (All-middle IsAsleep before after locking a tt)

  -- When a pool of at least one thread reaches a state in which all threads wait for the
  -- condition, the queue is empty: no job is left without a thread that is to look for it.
  pub asleep-queue :
      (thread_cnt : ℕ) (handed taken : List J) (tp : ThreadPool J)
      → 0 < thread_cnt
      → Reaches thread_cnt handed taken tp
      → All IsAsleep tp.threads
      → tp.queue ≡ []
  unfolding threadpool_init
  asleep-queue thread_cnt handed taken tp lt start a = refl
  asleep-queue thread_cnt handed taken tp lt (step {tp = before} r t) a =
      Step-rest t (omega (arith, length-threads thread_cnt _ _ before r)) a
