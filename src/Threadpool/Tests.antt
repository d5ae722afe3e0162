-- ===== src/Threadpool/Tests.antt =====
-- A pool of two workers, and the theorems at it.
use sshnack.Base.{
  ℕ, ◌≡◌, ◌≢◌, ◌⊎◌, ◌==◌, if◌then◌else◌, refl, true, false, none, some, [], ◌∷◌, ◌++◌, arith,
}
use sshnack.Threadpool.Queue.{
  Ptr, Store, WorkList, refused, crashed, queued, add_work, tpool_work_get,
}
use sshnack.Threadpool.Queue.Laws.{
  Cells, IsQueue, IsFree, GetsFirst, Holds, jobs, work_list_refines,
}
use sshnack.Threadpool.Pool.{Calls, tpool_add_work, worker_turn, tpool_stop}
use sshnack.Threadpool.System.{
  System, Step, turn, add, destroy, created, Reach, start, later, ready, freed, after_add,
  after_turn, after_destroy,
}
use sshnack.Threadpool.Invariant.{Inv}
use sshnack.Threadpool.Steps.{Reach-Inv}
use sshnack.Threadpool.Shutdown.{Nearer, shutdown_ends}

-- Jobs 7 and 9 at the addresses 16 and 32.
abbrev store : Store ℕ
store a =
    if a == 16
    then some (record { job = 7; next = 32 })
    else if a == 32
    then some (record { job = 9; next = 0 })
    else none

abbrev list : WorkList
list = record { work_first = 16; work_last = 32 }

abbrev cells : Cells ℕ
cells = (16, 7) ∷ (32, 9) ∷ []

list-IsQueue : IsQueue store list cells
list-IsQueue = record {
  first = refl;
  last = λ _. refl;
  linked = (
    λ e. omega (arith, e),
    refl,
    (λ e. omega (arith, e), tt),
    (λ e. omega (arith, e), refl, tt, tt),
  );
}

work_list_refines_example :
    GetsFirst store (jobs cells) (tpool_work_get list store)
    × ((fresh : Ptr) → add_work fresh none list store ≡ refused)
    × ((job : ℕ) → add_work 0 (some job) list store ≡ crashed)
    × ((fresh : Ptr) (job : ℕ)
        → fresh ≢ 0
        → IsFree fresh cells
        → (out : WorkList × Store ℕ) × (add_work fresh (some job) list store ≡ queued out)
          × Holds out (jobs cells ++ job ∷ []))
work_list_refines_example = work_list_refines store list cells list-IsQueue

-- The third thread does not start.
abbrev calls : Calls
calls = record {
  calloc_ok = true;
  mutex_ok = true;
  work_cond_ok = true;
  working_cond_ok = true;
  thread_ok = λ i. if i == 2 then false else true;
}

abbrev busy : System ℕ
busy = after_turn [] (ready ∷ []) (after_add 7 (created 2))

busy_reached : Reach 2 busy
unfolding tpool_add_work worker_turn
busy_reached = later (later start (add 7 refl refl)) (turn [] (ready ∷ []) refl refl)

Reach-Inv_example : Inv busy
Reach-Inv_example = Reach-Inv 2 busy (omega arith) busy_reached

abbrev stopping : System ℕ
stopping = after_destroy busy

stopping_reached : Reach 2 stopping
unfolding tpool_add_work worker_turn tpool_stop
stopping_reached = later busy_reached (destroy refl refl)

stopping_stop : stopping.pool.stop ≡ true
unfolding tpool_stop
stopping_stop = refl

shutdown_ends_example :
    ((stopping.main ≡ freed) ⊎ ((t : System ℕ) × Step stopping t))
    × ((t : System ℕ) → Step stopping t → Nearer stopping t)
shutdown_ends_example = shutdown_ends 2 stopping (omega arith) stopping_reached stopping_stop
