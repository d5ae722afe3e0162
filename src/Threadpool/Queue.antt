-- ===== src/Threadpool/Queue.antt =====
-- The linked list of work in server/src/threadpool/threadpool.c, in a store of nodes. An address is
-- a number, and NULL is 0; a job is a function with its argument.
pub mod Laws
use sshnack.Base.{ℕ, ◌==◌, Bool, Option, none, some, if◌then◌else◌}

abbrev pub Ptr : Type 0
Ptr = ℕ

-- `struct tpool_work`
pub record WorkNode (J : Type 0) : Type 0 where
  pub job : J
  pub next : Ptr

abbrev pub Store : Type 0 → Type 0
Store J = Ptr → Option (WorkNode J)

-- `work_first` and `work_last` of `struct tpool`.
pub record WorkList : Type 0 where
  pub work_first : Ptr
  pub work_last : Ptr

-- How a call of the allocating function ends.
pub data Added (A : Type 0) : Type 0 where
  refused : Added A  -- `return false`
  crashed : Added A  -- a write through NULL
  queued : A → Added A

module _ {J : Type 0} where
  unfoldable pub write : Ptr → Option (WorkNode J) → Store J → Store J
  write a n h b = if b == a then n else h b

  -- `a->next = p`
  unfoldable pub set_next : Ptr → Ptr → Store J → Store J
  unfolding write
  set_next a p h = elim (h a) [ none ↦ h | some n ↦ write a (some (record n { next = p })) h ]

  abbrev pub new_node : J → WorkNode J
  new_node job = record { job = job; next = 0 }

  -- `tpool_work_create`, by the address that `malloc` gave. The function may be NULL; where the address
  -- is NULL, the node is written all the same.
  abbrev pub tpool_work_create : Ptr → Option J → Added (WorkNode J)
  tpool_work_create fresh none = refused
  tpool_work_create fresh (some job) = if fresh == 0 then crashed else queued (new_node job)

  -- The new node at the end of the list.
  unfoldable pub append_work : Ptr → WorkNode J → WorkList → Store J → WorkList × Store J
  unfolding write set_next
  append_work fresh n q h =
      let h' = write fresh (some n) h in
      if q.work_first == 0
      then (record { work_first = fresh; work_last = fresh }, h')
      else (record q { work_last = fresh }, set_next q.work_last fresh h')

  -- `tpool_add_work`
  unfoldable pub add_work : Ptr → Option J → WorkList → Store J → Added (WorkList × Store J)
  unfolding append_work
  add_work fresh job q h = elim (tpool_work_create fresh job) [
    | refused ↦ refused
    | crashed ↦ crashed
    | queued n ↦ queued (append_work fresh n q h)
  ]

  abbrev pub unlink : WorkNode J → WorkList → WorkList
  unlink n q =
      if n.next == 0
      then record { work_first = 0; work_last = 0 }
      else record q { work_first = n.next }

  -- `tpool_work_get`: the job of the first node. The worker frees the node when the job is done.
  unfoldable pub tpool_work_get : WorkList → Store J → Option J × WorkList
  tpool_work_get q h =
      if q.work_first == 0
      then (none, q)
      else elim (h q.work_first) [ none ↦ (none, q) | some n ↦ (some n.job, unlink n q) ]
