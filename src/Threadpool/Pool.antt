-- ===== src/Threadpool/Pool.antt =====
-- `struct tpool` and what the functions of threadpool.c do to it between one lock of the mutex and
-- the unlock, or the wait, that follows. The list of work is a list of jobs here, in the order that
-- Queue/Laws gives it. A `size_t` has 64 bits.
pub mod Laws
use sshnack.Base.{
  ℕ, ◌+◌, ◌-◌, ◌%◌, ◌^◌, ◌==◌, Bool, true, false, Option, none, some, List, [], ◌∷◌, ◌++◌,
  if◌then◌else◌, not, ◌&&◌, ◌||◌,
}

pub record Pool (J : Type 0) : Type 0 where
  pub work : List J
  pub working_cnt : ℕ
  pub thread_cnt : ℕ
  pub stop : Bool

abbrev pub incr : ℕ → ℕ
incr n = (n + 1) % 2 ^ 64

abbrev pub decr : ℕ → ℕ
decr n = (n + (2 ^ 64 - 1)) % 2 ^ 64

-- What a worker does at the head of its loop, with the pool after it: it waits for `work_cond`, or
-- takes a job, or leaves and signals `working_cond`.
pub data Turn (J : Type 0) : Type 0 where
  waits : Turn J
  takes : J → Pool J → Turn J
  leaves : Pool J → Turn J

module _ {J : Type 0} where
  abbrev pub no_work : Pool J → Bool
  no_work p = elim p.work [ [] ↦ true | _ ∷ _ ↦ false ]

  unfoldable pub worker_turn : Pool J → Turn J
  worker_turn p =
      if p.stop then leaves (record p { thread_cnt = decr p.thread_cnt }) else elim p.work [
        | [] ↦ waits
        | job ∷ rest ↦ takes job (record p { work = rest; working_cnt = incr p.working_cnt })
      ]

  -- After the job, and whether `working_cond` is signalled then.
  unfoldable pub worker_done : Pool J → Pool J × Bool
  worker_done p =
      let p' = record p { working_cnt = decr p.working_cnt } in
      (p', not p'.stop && p'.working_cnt == 0 && no_work p')

  -- `tpool_add_work`, which broadcasts `work_cond`.
  unfoldable pub tpool_add_work : J → Pool J → Pool J
  tpool_add_work job p = record p { work = p.work ++ job ∷ [] }

  -- `tpool_destroy` up to its `tpool_wait`; it broadcasts `work_cond`.
  unfoldable pub tpool_stop : Pool J → Pool J
  tpool_stop p = record p { work = []; stop = true }

  -- The test of `tpool_wait`: whether it goes on waiting for `working_cond`.
  unfoldable pub must_wait : Pool J → Bool
  must_wait p =
      not (no_work p) || not p.stop && not (p.working_cnt == 0) || p.stop && not (p.thread_cnt == 0)

-- How the calls of `tpool_create` end: the `calloc`, and the return codes of the functions of
-- pthread, by the number of the thread for `pthread_create`.
pub record Calls : Type 0 where
  pub calloc_ok : Bool
  pub mutex_ok : Bool
  pub work_cond_ok : Bool
  pub working_cond_ok : Bool
  pub thread_ok : ℕ → Bool

-- What is allocated, initialised and running.
pub record Held : Type 0 where
  pub memory : Bool
  pub mutex : Bool
  pub work_cond : Bool
  pub working_cond : Bool
  pub threads : ℕ

abbrev pub nothing_held : Held
nothing_held = record {
  memory = false;
  mutex = false;
  work_cond = false;
  working_cond = false;
  threads = 0;
}

-- The loop of `tpool_create` over the threads from `i` on, `left` of them: `none` where all have
-- started, else the number of those that have.
unfoldable pub start_threads : Calls → ℕ → ℕ → Option ℕ
start_threads calls i ℕ.zero = none
start_threads calls i (ℕ.suc left) =
    let more = start_threads calls (i + 1) left in if calls.thread_ok i then more else some i

-- `tpool_destroy` as `tpool_create` calls it: it waits until the `thread_cnt` workers have left, and
-- gives everything back.
abbrev pub destroyed : Held → ℕ → Held
destroyed held thread_cnt = record nothing_held { threads = held.threads - thread_cnt }

unfoldable pub tpool_create : {J : Type 0} → Calls → ℕ → Option (Pool J) × Held
unfolding start_threads
tpool_create calls num =
    let num = if num == 0 then 2 else num in
    let held = record nothing_held { memory = true } in
    if not calls.calloc_ok
    then (none, nothing_held)
    else if not calls.mutex_ok
    then (none, record held { memory = false })
    else let held = record held { mutex = true } in
      if not calls.work_cond_ok
      then (none, record held { memory = false; mutex = false })
      else let held = record held { work_cond = true } in
        if not calls.working_cond_ok
        then (none, record held { memory = false; mutex = false; work_cond = false })
        else let held = record held { working_cond = true } in
          elim (start_threads calls 0 num) [
            | none ↦ (
              some (record { work = []; working_cnt = 0; thread_cnt = num; stop = false }),
              record held { threads = num },
            )
            | some i ↦ (none, destroyed (record held { threads = i }) i)
          ]
