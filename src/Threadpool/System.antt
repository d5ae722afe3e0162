-- ===== src/Threadpool/System.antt =====
-- The workers and the main thread over one pool, interleaved in any order. The mutex makes what
-- stands between its lock and its unlock one step.
use sshnack.Base.{ℕ, ◌≡◌, false, List, [], ◌∷◌, ◌++◌, if◌then◌else◌, map}
use sshnack.Threadpool.Pool.{
  Pool, Turn, waits, takes, leaves, worker_turn, worker_done, tpool_add_work, tpool_stop, must_wait,
}

-- Where `tpool_worker` stands: before the lock at the head of its loop, in the wait for `work_cond`,
-- at its job, or after its end.
pub data Worker (J : Type 0) : Type 0 where
  ready asleep gone : Worker J
  running : J → Worker J

-- Where the main thread stands: outside of the pool's functions, before the test in `tpool_wait`, in
-- its wait for `working_cond`, or behind `tpool_destroy`. `tpool_wait` is called by itself or by
-- `tpool_destroy`.
pub data Caller : Type 0 where
  from_outside from_destroy : Caller

pub data Main : Type 0 where
  serving freed : Main
  testing sleeping : Caller → Main

-- With what has happened: the jobs that were added, those that were started, and those that
-- `tpool_destroy` threw away.
pub record System (J : Type 0) : Type 0 where
  pub pool : Pool J
  pub workers : List (Worker J)
  pub main : Main
  pub added : List J
  pub started : List J
  pub dropped : List J

-- The main thread is woken from `working_cond`.
abbrev pub signalled : Main → Main
signalled (sleeping c) = testing c
signalled m = m

-- Where `tpool_wait` returns to.
abbrev pub returned : Caller → Main
returned from_outside = serving
returned from_destroy = freed

module _ {J : Type 0} where
  -- A worker is woken from `work_cond`.
  abbrev pub woken : Worker J → Worker J
  woken asleep = ready
  woken w = w

  abbrev pub taken_turn : Turn J → List (Worker J) → List (Worker J) → System J → System J
  taken_turn waits pre post s = record s { workers = pre ++ asleep ∷ post }
  taken_turn (takes job p) pre post s = record s {
    pool = p;
    workers = pre ++ running job ∷ post;
    started = s.started ++ job ∷ [];
  }
  taken_turn (leaves p) pre post s = record s {
    pool = p;
    workers = pre ++ gone ∷ post;
    main = signalled s.main;
  }

  abbrev pub after_turn : List (Worker J) → List (Worker J) → System J → System J
  after_turn pre post s = taken_turn (worker_turn s.pool) pre post s

  abbrev pub after_done : List (Worker J) → List (Worker J) → System J → System J
  after_done pre post s =
      let (p, signal) = worker_done s.pool in
      record s {
        pool = p;
        workers = pre ++ ready ∷ post;
        main = if signal then signalled s.main else s.main;
      }

  abbrev pub after_add : J → System J → System J
  after_add job s = record s {
    pool = tpool_add_work job s.pool;
    workers = map woken s.workers;
    added = s.added ++ job ∷ [];
  }

  abbrev pub after_destroy : System J → System J
  after_destroy s = record s {
    pool = tpool_stop s.pool;
    workers = map woken s.workers;
    main = testing from_destroy;
    dropped = s.dropped ++ s.pool.work;
  }

  abbrev pub after_test : Caller → System J → System J
  after_test c s = record s { main = if must_wait s.pool then sleeping c else returned c }

  -- The steps of the threads. The main thread adds work, waits for it, and destroys the pool, as `main`
  -- of server.c does; the workers add none.
  pub data Step (s t : System J) : Type 0 where
    turn :
        (pre post : List (Worker J))
        → s.workers ≡ pre ++ ready ∷ post
        → t ≡ after_turn pre post s
        → Step s t
    done :
        (pre post : List (Worker J)) (job : J)
        → s.workers ≡ pre ++ running job ∷ post
        → t ≡ after_done pre post s
        → Step s t
    add : (job : J) → s.main ≡ serving → t ≡ after_add job s → Step s t
    wait : s.main ≡ serving → t ≡ record s { main = testing from_outside } → Step s t
    destroy : s.main ≡ serving → t ≡ after_destroy s → Step s t
    test : (c : Caller) → s.main ≡ testing c → t ≡ after_test c s → Step s t

  -- A wait may also end by itself.
  pub data Spurious (s t : System J) : Type 0 where
    worker_wakes :
        (pre post : List (Worker J))
        → s.workers ≡ pre ++ asleep ∷ post
        → t ≡ record s { workers = pre ++ ready ∷ post }
        → Spurious s t
    main_wakes :
        (c : Caller) → s.main ≡ sleeping c → t ≡ record s { main = testing c } → Spurious s t

  abbrev pub all_ready : ℕ → List (Worker J)
  all_ready ℕ.zero = []
  all_ready (ℕ.suc n) = ready ∷ all_ready n

  -- The pool as `tpool_create` leaves it, with `n` workers.
  abbrev pub created : ℕ → System J
  created n = record {
    pool = record { work = []; working_cnt = 0; thread_cnt = n; stop = false };
    workers = all_ready n;
    main = serving;
    added = [];
    started = [];
    dropped = [];
  }

  pub data Reach (n : ℕ) : System J → Type 0 where
    start : Reach n (created n)
    later : {s t : System J} → Reach n s → Step s t → Reach n t
    woke : {s t : System J} → Reach n s → Spurious s t → Reach n t
