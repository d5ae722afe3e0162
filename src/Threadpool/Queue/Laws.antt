-- ===== src/Threadpool/Queue/Laws.antt =====
-- The linked list holds its jobs in the order in which they were added.
use sshnack.Base.{
  none, ap, ◌==◌, refl, map, sym, ◌∙◌, Option-cases, inl, inr, ◌≡◌, ◌≢◌, Option, some, List, [],
  ◌∷◌, arith, ◌++◌, false,
}
use sshnack.Threadpool.Queue.{
  new_node, refused, crashed, queued, Ptr, WorkNode, Store, WorkList, write, set_next, append_work,
  tpool_work_get, add_work,
}

-- A cell of the list is its address with its job.
abbrev pub Cells : Type 0 → Type 0
Cells J = List (Ptr × J)

module _ {J : Type 0} where
  abbrev pub head_of : Cells J → Ptr
  head_of [] = 0
  head_of ((a, _) ∷ _) = a

  abbrev pub last_of : Ptr → Cells J → Ptr
  last_of a [] = a
  last_of _ ((b, _) ∷ cs) = last_of b cs

  -- No cell stands at this address.
  abbrev pub IsFree : Ptr → Cells J → Type 0
  IsFree a [] = Unit
  IsFree a ((b, _) ∷ cs) = (a ≢ b) × IsFree a cs

  -- The nodes in the store, each linked to the next one, at addresses of their own.
  abbrev pub Linked : Store J → Cells J → Type 0
  Linked h [] = Unit
  Linked h ((a, j) ∷ cs) =
      (a ≢ 0) × (h a ≡ some (record { job = j; next = head_of cs })) × IsFree a cs × Linked h cs

  pub record IsQueue (h : Store J) (q : WorkList) (cs : Cells J) : Type 0 where
    pub first : q.work_first ≡ head_of cs
    pub last : q.work_first ≢ 0 → q.work_last ≡ last_of 0 cs
    pub linked : Linked h cs

  -- A write elsewhere.
  write-Linked :
      (a : Ptr) (n : Option (WorkNode J)) (h : Store J) (cs : Cells J)
      → IsFree a cs
      → Linked h cs
      → Linked (write a n h) cs
  unfolding write
  write-Linked a n h [] f l = tt
  write-Linked a n h ((b, j) ∷ cs) f l = ground (arith, write-Linked a n h cs f.1 l.3)

  set_next_other : (a p b : Ptr) (h : Store J) → b ≢ a → set_next a p h b ≡ h b
  unfolding set_next write
  set_next_other a p b h n = elim (Option-cases (h a)) [
    | inl e ↦ rw (e, set_next) refl
    | inr (c, e) ↦ rw (e, set_next) (ground arith)
  ]

  set_next_here :
      (a p : Ptr) (h : Store J) (n : WorkNode J)
      → h a ≡ some n
      → set_next a p h a ≡ some (record n { next = p })
  unfolding set_next write
  set_next_here a p h n e = rw (e, set_next) (ground arith)

  last_not_free : (a b : Ptr) (cs : Cells J) → a ≢ b → IsFree a cs → a ≢ last_of b cs
  last_not_free a b [] n f = n
  last_not_free a b ((c, k) ∷ cs) n f = last_not_free a c cs f.0 f.1

  IsFree-append :
      (a b : Ptr) (j : J) (cs : Cells J) → a ≢ b → IsFree a cs → IsFree a (cs ++ (b, j) ∷ [])
  IsFree-append a b j [] n f = (n, tt)
  IsFree-append a b j ((c, k) ∷ cs) n f = (f.0, IsFree-append a b j cs n f.1)

  -- The last node is linked to a new one.
  link-Linked :
      (h : Store J) (a : Ptr) (j : J) (cs : Cells J) (fresh : Ptr) (job : J)
      → fresh ≢ 0
      → h fresh ≡ some (record { job = job; next = 0 })
      → IsFree fresh ((a, j) ∷ cs)
      → Linked h ((a, j) ∷ cs)
      → Linked (set_next (last_of a cs) fresh h) ((a, j) ∷ cs ++ (fresh, job) ∷ [])
  link-Linked h a j [] fresh job n e f l = (
    l.0,
    set_next_here a fresh h (record { job = j; next = 0 }) l.1,
    (λ q. f.0 (sym q), tt),
    (n, set_next_other a fresh fresh h f.0 ∙ e, tt, tt),
  )
  link-Linked h a j ((b, k) ∷ cs) fresh job n e f l = (
    l.0,
    set_next_other (last_of b cs) fresh a h (last_not_free a b cs l.2.0 l.2.1) ∙ l.1,
    IsFree-append a fresh job ((b, k) ∷ cs) (λ q. f.0 (sym q)) l.2,
    link-Linked h b k cs fresh job n e f.1 l.3,
  )

  last_of-append : (b a : Ptr) (j : J) (cs : Cells J) → last_of b (cs ++ (a, j) ∷ []) ≡ a
  last_of-append b a j [] = refl
  last_of-append b a j ((c, k) ∷ cs) = last_of-append c a j cs

  -- `append_work` puts the job at the end, if its address is free.
  append_work-IsQueue :
      (h : Store J) (q : WorkList) (cs : Cells J) (fresh : Ptr) (job : J)
      → fresh ≢ 0
      → IsFree fresh cs
      → IsQueue h q cs
      → IsQueue
          (append_work fresh (new_node job) q h).1
          (append_work fresh (new_node job) q h).0
          (cs ++ (fresh, job) ∷ [])
  unfolding append_work write
  append_work-IsQueue h q [] fresh job n f i =
      rw (i.first, append_work)
        (record { first = refl; last = λ _. refl; linked = (n, ground arith, tt, tt) })
  append_work-IsQueue h q ((a, j) ∷ cs) fresh job n f i =
      let filled : (q.work_first == 0) ≡ false = ground (arith, i.first, i.linked.0) in
      let last : q.work_last ≡ last_of a cs = i.last (λ z. i.linked.0 (sym i.first ∙ z)) in
      rw (filled, last, append_work)
        (record {
          first = i.first;
          last = λ _. sym (last_of-append a fresh job cs);
          linked =
              link-Linked (write fresh (some (record { job = job; next = 0 })) h) a j cs fresh job n
                (ground arith) f
                (write-Linked fresh (some (record { job = job; next = 0 })) h ((a, j) ∷ cs) f
                  i.linked);
        })

  -- What `tpool_work_get` leaves is the rest of the list.
  tpool_work_get-IsQueue :
      (h : Store J) (q : WorkList) (a : Ptr) (j : J) (cs : Cells J)
      → IsQueue h q ((a, j) ∷ cs)
      → ((tpool_work_get q h).0 ≡ some j) × IsQueue h (tpool_work_get q h).1 cs
  unfolding tpool_work_get
  tpool_work_get-IsQueue h q a j [] i =
      let filled : (q.work_first == 0) ≡ false = ground (arith, i.first, i.linked.0) in
      let found : h q.work_first ≡ some (record { job = j; next = 0 }) = rw i.first i.linked.1 in
      rw (filled, found, tpool_work_get)
        (refl, record { first = refl; last = λ z. absurd (z refl); linked = tt })
  tpool_work_get-IsQueue h q a j ((b, k) ∷ cs) i =
      let filled : (q.work_first == 0) ≡ false = ground (arith, i.first, i.linked.0) in
      let found : h q.work_first ≡ some (record { job = j; next = b }) = rw i.first i.linked.1 in
      let more : (b == 0) ≡ false = ground (arith, i.linked.3.0) in
      rw (filled, found, more, tpool_work_get)
        (
          refl,
          record {
            first = refl;
            last = λ _. i.last (λ z. i.linked.0 (sym i.first ∙ z));
            linked = i.linked.3;
          },
        )

  -- The jobs of a list.
  abbrev pub jobs : Cells J → List J
  jobs = map (λ c. c.1)

  jobs-append : (cs ds : Cells J) → jobs (cs ++ ds) ≡ jobs cs ++ jobs ds
  jobs-append [] ds = refl
  jobs-append (c ∷ cs) ds = ap (◌∷◌ c.1) (jobs-append cs ds)

  -- What a list means: the jobs that wait, in their order, and that the address is not in use.
  abbrev pub Holds : WorkList × Store J → List J → Type 0
  Holds (q, h) xs = (cs : Cells J) × IsQueue h q cs × (jobs cs ≡ xs)

  abbrev pub GetsFirst : Store J → List J → Option J × WorkList → Type 0
  GetsFirst h [] (o, q) = (o ≡ none) × Holds (q, h) []
  GetsFirst h (x ∷ xs) (o, q) = (o ≡ some x) × Holds (q, h) xs

  tpool_work_get_nothing :
      (h : Store J) (q : WorkList) → q.work_first ≡ 0 → tpool_work_get q h ≡ (none, q)
  unfolding tpool_work_get
  tpool_work_get_nothing h q e = ground arith

  get-GetsFirst :
      (h : Store J) (q : WorkList) (cs : Cells J)
      → IsQueue h q cs
      → GetsFirst h (jobs cs) (tpool_work_get q h)
  get-GetsFirst h q [] i =
      let nothing : tpool_work_get q h ≡ (none, q) = tpool_work_get_nothing h q i.first in
      rw nothing (refl, ([], i, refl))
  get-GetsFirst h q ((a, j) ∷ cs) i =
      let got = tpool_work_get-IsQueue h q a j cs i in (got.0, (cs, got.1, refl))

  -- The linked list is a queue: `tpool_work_get` takes the job that was added first, or none from an
  -- empty list, and `tpool_add_work` puts the new one behind all others, if `malloc` gave an address
  -- that is not in use; it refuses a NULL function, and where `malloc` gives NULL it writes through it.
  pub work_list_refines :
      (h : Store J) (q : WorkList) (cs : Cells J)
      → IsQueue h q cs
      → GetsFirst h (jobs cs) (tpool_work_get q h)
        × ((fresh : Ptr) → add_work fresh none q h ≡ refused)
        × ((job : J) → add_work 0 (some job) q h ≡ crashed)
        × ((fresh : Ptr) (job : J)
            → fresh ≢ 0
            → IsFree fresh cs
            → (out : WorkList × Store J) × (add_work fresh (some job) q h ≡ queued out)
              × Holds out (jobs cs ++ job ∷ []))
  unfolding add_work
  work_list_refines h q cs i = (
    get-GetsFirst h q cs i,
    λ fresh. refl,
    λ job. refl,
    λ fresh job n f. (
      append_work fresh (new_node job) q h,
      (ground arith),
      (
        cs ++ (fresh, job) ∷ [],
        append_work-IsQueue h q cs fresh job n f i,
        jobs-append cs ((fresh, job) ∷ []),
      ),
    ),
  )
