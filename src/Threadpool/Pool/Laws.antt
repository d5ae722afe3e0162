-- ===== src/Threadpool/Pool/Laws.antt =====
-- What `tpool_create` gives, and gives back.
use sshnack.Base.{
  ℕ, ◌≡◌, ◌⊎◌, ◌==◌, if◌then◌else◌, true, false, none, some, arith, Option-cases, inl, inr, [],
}
use sshnack.Threadpool.Pool.{Calls, nothing_held, start_threads, tpool_create}

-- The number of workers; 0 stands for 2.
abbrev pub workers : ℕ → ℕ
workers num = if num == 0 then 2 else num

-- Whatever the calls return: `tpool_create` gives a pool that is empty and not stopped, with the
-- wanted number of workers, which have all been started, and all it needs, or it gives NULL and holds
-- nothing any more.
pub tpool_create_lem :
    (J : Type 0) (calls : Calls) (num : ℕ)
    → let out = tpool_create {J = J} calls num in
      (out ≡ (
        some (record { work = []; working_cnt = 0; thread_cnt = workers num; stop = false }),
        record {
          memory = true;
          mutex = true;
          work_cond = true;
          working_cond = true;
          threads = workers num;
        },
      ))
      ⊎ (out ≡ (none, nothing_held))
unfolding tpool_create
tpool_create_lem J calls num = elim (Option-cases (start_threads calls 0 (workers num))) [
  | inl e ↦ ground (arith, e)
  | inr (i, e) ↦ ground (arith, e)
]
