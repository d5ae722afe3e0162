-- ===== src/Threadpool/Steps.antt =====
-- Every step keeps the invariant.
use sshnack.Base.{
  ℕ, ◌≡◌, ◌<◌, ◌^◌, inl, inr, Bool, true, false, List, [], ◌∷◌, ◌++◌, arith, refl, append_assoc,
  sym, ap, ◌∙◌, not, ◌&&◌, ◌==◌, if◌then◌else◌, Bool-cases,
}
use mathlib.Core.Path.{subst}
use sshnack.Threadpool.Pool.{
  Turn, waits, takes, leaves, worker_turn, Pool, must_wait, worker_done, tpool_add_work, tpool_stop,
  decr, no_work,
}
use sshnack.Threadpool.System.{
  taken_turn, Worker, ready, asleep, running, Caller, from_outside, from_destroy, Main, serving,
  freed, testing, sleeping, System, signalled, returned, after_done, after_add, after_destroy, Step,
  turn, done, add, wait, destroy, test, Spurious, worker_wakes, main_wakes, created, Reach, start,
  later, woke,
}
use sshnack.Threadpool.Counts.{
  total-all_ready, at_job, alive, dozing, total_split, total_move, total-woken, working_alive,
}
use sshnack.Threadpool.Invariant.{turn-Inv, Stands, Inv, state}

module _ {J : Type 0} where
  -- After the job of a worker.
  abbrev after_job : List J → ℕ → ℕ → Bool → Pool J
  after_job work working threads stop = record {
    work = work;
    working_cnt = decr working;
    thread_cnt = threads;
    stop = stop;
  }

  done-Stands :
      (work : List J) (working threads : ℕ) (stop : Bool) (m : Main)
      → Stands m (record { work = work; working_cnt = working; thread_cnt = threads; stop = stop })
      → let p = after_job work working threads stop in
        Stands (if not stop && decr working == 0 && no_work p then signalled m else m) p
  unfolding must_wait
  done-Stands work working threads true serving h = h
  done-Stands work working threads true freed h = h
  done-Stands work working threads true (testing from_outside) h = h
  done-Stands work working threads true (testing from_destroy) h = h
  done-Stands work working threads true (sleeping from_outside) h = absurd (ground (arith, h.0))
  done-Stands work working threads true (sleeping from_destroy) h = (refl, ground (arith, h.1))
  done-Stands work working threads false serving h = ground (arith, h)
  done-Stands work working threads false freed h = absurd (ground (arith, h.0))
  done-Stands work working threads false (testing from_outside) h = ground (arith, h)
  done-Stands work working threads false (testing from_destroy) h = absurd (ground (arith, h))
  done-Stands work working threads false (sleeping from_outside) h = ground (arith, h.1)
  done-Stands work working threads false (sleeping from_destroy) h = absurd (ground (arith, h.0))

  module _ (work : List J) (working threads : ℕ) (stop : Bool) (pre post : List (Worker J))
      (m : Main) (added started dropped : List J) where
    abbrev at_place : Worker J → System J
    at_place w = state work working threads stop (pre ++ w ∷ post) m added started dropped

    done-Inv :
        (job : J)
        → Inv (at_place (running job))
        → Inv (after_done pre post (at_place (running job)))
    unfolding worker_done
    done-Inv job i = record {
      working = omega (
        arith,
        total_move at_job pre post (running job) ready,
        total_split at_job pre (running job) post,
        i.working,
        i.small,
        working_alive (pre ++ running job ∷ post),
      );
      threads = omega (arith, total_move alive pre post (running job) ready, i.threads);
      small = omega (arith, total_move alive pre post (running job) ready, i.small);
      kept = i.kept;
      awake = ground (arith, total_move dozing pre post (running job) ready, i.awake);
      stands = done-Stands work working threads stop m i.stands;
    }

    wakes-Inv : Inv (at_place asleep) → Inv (at_place ready)
    wakes-Inv i = record {
      working = omega (arith, total_move at_job pre post asleep ready, i.working);
      threads = omega (arith, total_move alive pre post asleep ready, i.threads);
      small = omega (arith, total_move alive pre post asleep ready, i.small);
      kept = i.kept;
      awake = ground (arith, total_move dozing pre post asleep ready, i.awake);
      stands = i.stands;
    }

  module _ (working threads : ℕ) (ws : List (Worker J)) (added started dropped : List J) where
    add-Inv :
        (work : List J) (stop : Bool) (job : J)
        → Inv (state work working threads stop ws serving added started dropped)
        → Inv (after_add job (state work working threads stop ws serving added started dropped))
    unfolding tpool_add_work
    add-Inv work true job i = absurd (ground (arith, i.stands))
    add-Inv work false job i = record {
      working = omega (arith, total-woken ws, i.working);
      threads = omega (arith, total-woken ws, i.threads);
      small = omega (arith, total-woken ws, i.small);
      kept = (i.kept.0, ap (λ l. l ++ job ∷ []) i.kept.1 ∙ append_assoc started work (job ∷ []));
      awake = inl (total-woken ws).2;
      stands = refl;
    }

    destroy-Inv :
        (work : List J) (stop : Bool)
        → Inv (state work working threads stop ws serving added started dropped)
        → Inv (after_destroy (state work working threads stop ws serving added started dropped))
    unfolding tpool_stop
    destroy-Inv work true i = absurd (ground (arith, i.stands))
    destroy-Inv work false i = record {
      working = omega (arith, total-woken ws, i.working);
      threads = omega (arith, total-woken ws, i.threads);
      small = omega (arith, total-woken ws, i.small);
      kept = (refl, rw i.kept.0 i.kept.1);
      awake = inl (total-woken ws).2;
      stands = refl;
    }

  -- Another place of the main thread.
  main_at : (s : System J) (m : Main) → Stands m s.pool → Inv s → Inv (record s { main = m })
  main_at s m h i = record {
    working = i.working;
    threads = i.threads;
    small = i.small;
    kept = i.kept;
    awake = i.awake;
    stands = h;
  }

  tested-Stands :
      (c : Caller) (p : Pool J)
      → Stands (testing c) p
      → Stands (if must_wait p then sleeping c else returned c) p
  unfolding must_wait
  tested-Stands from_outside p h = elim (Bool-cases (must_wait p)) [
    | inl e ↦ rw e (h, e)
    | inr e ↦ rw e h
  ]
  tested-Stands from_destroy p h = elim (Bool-cases (must_wait p)) [
    | inl e ↦ rw e (h, e)
    | inr e ↦ rw e (h, ground (arith, h, e))
  ]

  -- Of a state of which a part is known.
  workers_are :
      (s : System J) {ws : List (Worker J)}
      → s.workers ≡ ws
      → Inv s
      → Inv (record s { workers = ws })
  workers_are s e i = subst (λ ws. Inv (record s { workers = ws })) e i

  main_is : (s : System J) {m : Main} → s.main ≡ m → Inv s → Inv (record s { main = m })
  main_is s e i = subst (λ m. Inv (record s { main = m })) e i

  becomes : {s t : System J} → t ≡ s → Inv s → Inv t
  becomes e i = subst Inv (sym e) i

  taken_turn_lem :
      (tn : Turn J) (pre post ws : List (Worker J)) (s : System J)
      → taken_turn tn pre post s ≡ taken_turn tn pre post (record s { workers = ws })
  taken_turn_lem waits pre post ws s = refl
  taken_turn_lem (takes job p) pre post ws s = refl
  taken_turn_lem (leaves p) pre post ws s = refl

  Step-Inv : {s t : System J} → Step s t → Inv s → Inv t
  Step-Inv {s} (turn pre post e q) i =
      becomes (q ∙ taken_turn_lem (worker_turn s.pool) pre post (pre ++ ready ∷ post) s) (
        turn-Inv s.pool.working_cnt s.pool.thread_cnt pre post s.added s.started s.dropped
          s.pool.work s.pool.stop s.main (workers_are s e i))
  Step-Inv {s} (done pre post job e q) i = becomes q (
      done-Inv s.pool.work s.pool.working_cnt s.pool.thread_cnt s.pool.stop pre post s.main s.added
        s.started s.dropped job (workers_are s e i))
  Step-Inv {s} (add job e q) i = becomes q (
      subst (λ m. Inv (record (after_add job s) { main = m })) (sym e)
        (add-Inv s.pool.working_cnt s.pool.thread_cnt s.workers s.added s.started s.dropped
          s.pool.work s.pool.stop job (main_is s e i)))
  Step-Inv {s} (wait e q) i = becomes q (main_at s (testing from_outside) (main_is s e i).stands i)
  Step-Inv {s} (destroy e q) i = becomes q (
      destroy-Inv s.pool.working_cnt s.pool.thread_cnt s.workers s.added s.started s.dropped
        s.pool.work s.pool.stop (main_is s e i))
  Step-Inv {s} (test c e q) i =
      becomes q (main_at s _ (tested-Stands c s.pool (main_is s e i).stands) i)

  Spurious-Inv : {s t : System J} → Spurious s t → Inv s → Inv t
  Spurious-Inv {s} (worker_wakes pre post e q) i = becomes q (
      wakes-Inv s.pool.work s.pool.working_cnt s.pool.thread_cnt s.pool.stop pre post s.main s.added
        s.started s.dropped (workers_are s e i))
  Spurious-Inv {s} (main_wakes from_outside e q) i =
      becomes q (main_at s (testing from_outside) (main_is s e i).stands.0 i)
  Spurious-Inv {s} (main_wakes from_destroy e q) i =
      becomes q (main_at s (testing from_destroy) (main_is s e i).stands.0 i)

  created-Inv : (n : ℕ) → n < 2 ^ 64 → Inv (created {J = J} n)
  created-Inv n h = record {
    working = omega (arith, total-all_ready J n);
    threads = omega (arith, total-all_ready J n);
    small = omega (arith, total-all_ready J n);
    kept = (refl, refl);
    awake = inl (total-all_ready J n).2;
    stands = refl;
  }

  -- At all times, whatever the threads do in whatever order, and whenever a wait ends by itself:
  -- `working_cnt` and `thread_cnt` are the numbers of the workers that are at a job and that have not
  -- left; the jobs that were added were started in their order, and each of them once, or wait in that
  -- order, until `tpool_destroy` throws those away that wait; no worker sleeps while there is work or
  -- the pool is stopped; the main thread sleeps only while it has to wait; and it has freed the pool
  -- only when no worker is left. There are fewer than 2 ^ 64 workers.
  pub Reach-Inv : (n : ℕ) (s : System J) → n < 2 ^ 64 → Reach n s → Inv s
  Reach-Inv n s h start = created-Inv n h
  Reach-Inv n s h (later {s = u} r st) = Step-Inv st (Reach-Inv n u h r)
  Reach-Inv n s h (woke {s = u} r st) = Spurious-Inv st (Reach-Inv n u h r)
