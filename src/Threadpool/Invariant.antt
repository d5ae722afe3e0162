-- ===== src/Threadpool/Invariant.antt =====
-- What is true of the pool, its workers and the main thread at all times.
use sshnack.Base.{
  ℕ, ◌≡◌, ◌+◌, ◌<◌, ◌^◌, ◌⊎◌, inl, inr, Bool, true, false, List, [], ◌∷◌, ◌++◌, arith, refl,
  append_assoc, sym, ◌∙◌, if◌then◌else◌,
}
use sshnack.Threadpool.Pool.{Pool, must_wait, worker_turn, incr, decr}
use sshnack.Threadpool.System.{
  Worker, ready, asleep, gone, running, from_outside, from_destroy, Main, serving, freed, testing,
  sleeping, System, signalled, after_turn,
}
use sshnack.Threadpool.Counts.{at_job, alive, dozing, total, total_split, total_move, working_alive}

module _ {J : Type 0} where
  -- Whether the pool is stopped, by where the main thread stands; it sleeps only while it has to wait,
  -- and it has freed the pool only when no worker is left.
  abbrev pub Stands : Main → Pool J → Type 0
  Stands serving p = p.stop ≡ false
  Stands freed p = (p.stop ≡ true) × (p.thread_cnt ≡ 0)
  Stands (testing from_outside) p = p.stop ≡ false
  Stands (testing from_destroy) p = p.stop ≡ true
  Stands (sleeping from_outside) p = (p.stop ≡ false) × (must_wait p ≡ true)
  Stands (sleeping from_destroy) p = (p.stop ≡ true) × (must_wait p ≡ true)

  -- Before the pool is stopped all jobs that were added have been started or wait, in their order;
  -- then some have been thrown away and none waits.
  abbrev pub Kept : System J → Type 0
  Kept s =
      if s.pool.stop
      then (s.pool.work ≡ []) × (s.added ≡ s.started ++ s.dropped)
      else (s.dropped ≡ []) × (s.added ≡ s.started ++ s.pool.work)

  -- Nobody sleeps while there is something to do.
  abbrev pub Awake : System J → Type 0
  Awake s = (total dozing s.workers ≡ 0) ⊎ ((s.pool.work ≡ []) × (s.pool.stop ≡ false))

  pub record Inv (s : System J) : Type 0 where
    pub working : s.pool.working_cnt ≡ total at_job s.workers
    pub threads : s.pool.thread_cnt ≡ total alive s.workers
    pub small : total alive s.workers < 2 ^ 64
    pub kept : Kept s
    pub awake : Awake s
    pub stands : Stands s.main s.pool

  -- A state by its parts.
  abbrev pub state :
      List J → ℕ → ℕ → Bool → List (Worker J) → Main → List J → List J → List J → System J
  state work working threads stop ws m added started dropped = record {
    pool = record { work = work; working_cnt = working; thread_cnt = threads; stop = stop };
    workers = ws;
    main = m;
    added = added;
    started = started;
    dropped = dropped;
  }

  -- Of the worker at its place `pre ++ w ∷ post`.
  module _ (working threads : ℕ) (pre post : List (Worker J)) (added started dropped : List J) where
    abbrev at_place : List J → Bool → Worker J → Main → System J
    at_place work stop w m =
        state work working threads stop (pre ++ w ∷ post) m added started dropped

    leaves-Stands :
        (work : List J) (m : Main)
        → Inv (at_place work true ready m)
        → Stands
            (signalled m)
            (record { work = work; working_cnt = working; thread_cnt = decr threads; stop = true })
    leaves-Stands work serving i = absurd (ground (arith, i.stands))
    leaves-Stands work freed i =
        absurd (omega (arith, i.threads, i.stands.1, total_split alive pre ready post))
    leaves-Stands work (testing from_outside) i = absurd (ground (arith, i.stands))
    leaves-Stands work (testing from_destroy) i = refl
    leaves-Stands work (sleeping from_outside) i = absurd (ground (arith, i.stands.0))
    leaves-Stands work (sleeping from_destroy) i = refl

    turn_leaves :
        (work : List J) (m : Main)
        → Inv (at_place work true ready m)
        → Inv (after_turn pre post (at_place work true ready m))
    unfolding worker_turn
    turn_leaves work m i = record {
      working = omega (arith, total_move at_job pre post ready gone, i.working);
      threads = omega (arith, total_move alive pre post ready gone, i.threads, i.small);
      small = omega (arith, total_move alive pre post ready gone, i.small);
      kept = i.kept;
      awake = inl (ground (arith, total_move dozing pre post ready gone, i.awake));
      stands = leaves-Stands work m i;
    }

    turn_waits :
        (m : Main)
        → Inv (at_place [] false ready m)
        → Inv (after_turn pre post (at_place [] false ready m))
    unfolding worker_turn
    turn_waits m i = record {
      working = omega (arith, total_move at_job pre post ready asleep, i.working);
      threads = omega (arith, total_move alive pre post ready asleep, i.threads);
      small = omega (arith, total_move alive pre post ready asleep, i.small);
      kept = i.kept;
      awake = inr (refl, refl);
      stands = i.stands;
    }

    -- The number of workers at a job is less than 2 ^ 64 even with one more.
    room :
        working ≡ total at_job (pre ++ ready ∷ post)
        → total alive (pre ++ ready ∷ post) < 2 ^ 64
        → working + 1 < 2 ^ 64
    room w h = omega (
      arith,
      total_split at_job pre ready post,
      total_split alive pre ready post,
      working_alive pre,
      working_alive post,
    )

    takes-Stands :
        (job : J) (rest : List J) (m : Main)
        → Inv (at_place (job ∷ rest) false ready m)
        → Stands m
            (record { work = rest; working_cnt = incr working; thread_cnt = threads; stop = false })
    unfolding must_wait
    takes-Stands job rest serving i = i.stands
    takes-Stands job rest freed i = absurd (ground (arith, i.stands.0))
    takes-Stands job rest (testing from_outside) i = i.stands
    takes-Stands job rest (testing from_destroy) i = i.stands
    takes-Stands job rest (sleeping from_outside) i = (refl, ground (arith, room i.working i.small))
    takes-Stands job rest (sleeping from_destroy) i = absurd (ground (arith, i.stands.0))

    turn_takes :
        (job : J) (rest : List J) (m : Main)
        → Inv (at_place (job ∷ rest) false ready m)
        → Inv (after_turn pre post (at_place (job ∷ rest) false ready m))
    unfolding worker_turn
    turn_takes job rest m i = record {
      working = omega (
        arith,
        total_move at_job pre post ready (running job),
        i.working,
        room i.working i.small,
      );
      threads = omega (arith, total_move alive pre post ready (running job), i.threads);
      small = omega (arith, total_move alive pre post ready (running job), i.small);
      kept = (i.kept.0, i.kept.1 ∙ sym (append_assoc started (job ∷ []) rest));
      awake = inl (ground (arith, total_move dozing pre post ready (running job), i.awake));
      stands = takes-Stands job rest m i;
    }

    pub turn-Inv :
        (work : List J) (stop : Bool) (m : Main)
        → Inv (at_place work stop ready m)
        → Inv (after_turn pre post (at_place work stop ready m))
    turn-Inv work true m i = turn_leaves work m i
    turn-Inv [] false m i = turn_waits m i
    turn-Inv (job ∷ rest) false m i = turn_takes job rest m i
