-- ===== src/Threadpool/Shutdown.antt =====
-- `tpool_destroy` comes to its end.
use sshnack.Base.{
  ℕ, ◌≡◌, ◌+◌, ◌<◌, ◌≤◌, ◌^◌, ◌⊎◌, inl, inr, Bool, true, false, List, [], ◌∷◌, ◌++◌, arith, refl,
  sym, ap, if◌then◌else◌,
}
use mathlib.Core.Path.{subst}
use sshnack.Threadpool.Pool.{must_wait, worker_turn, worker_done}
use sshnack.Threadpool.System.{
  Worker, ready, asleep, gone, running, Caller, from_outside, from_destroy, Main, serving, freed,
  testing, sleeping, System, signalled, returned, after_turn, after_done, after_test, Step, turn,
  done, add, wait, destroy, test, Reach,
}
use sshnack.Threadpool.Counts.{alive, dozing, total, total_move}
use sshnack.Threadpool.Invariant.{Stands, Inv}
use sshnack.Threadpool.Steps.{Reach-Inv}

abbrev pub main_weight : Main → ℕ
main_weight (testing _) = 1
main_weight _ = 0

signalled_weight : (m : Main) → main_weight (signalled m) ≤ main_weight m + 1
signalled_weight serving = omega arith
signalled_weight freed = omega arith
signalled_weight (testing c) = omega arith
signalled_weight (sleeping c) = omega arith

tested_weight : (b : Bool) (c : Caller) → main_weight (if b then sleeping c else returned c) ≡ 0
tested_weight true c = refl
tested_weight false from_outside = refl
tested_weight false from_destroy = refl

module _ {J : Type 0} where
  abbrev pub weight : Worker J → ℕ
  weight gone = 0
  weight (running _) = 5
  weight _ = 3

  -- A bound on the steps that are left.
  abbrev pub work_left : System J → ℕ
  work_left s = total weight s.workers + main_weight s.main

  -- A worker that is neither asleep nor gone.
  pub data Busy (ws : List (Worker J)) : Type 0 where
    at_head : (pre post : List (Worker J)) → ws ≡ pre ++ ready ∷ post → Busy ws
    at_work : (pre post : List (Worker J)) (job : J) → ws ≡ pre ++ running job ∷ post → Busy ws

  behind : (w : Worker J) (ws : List (Worker J)) → Busy ws → Busy (w ∷ ws)
  behind w ws (at_head pre post e) = at_head (w ∷ pre) post (ap (◌∷◌ w) e)
  behind w ws (at_work pre post job e) = at_work (w ∷ pre) post job (ap (◌∷◌ w) e)

  some-Busy : (ws : List (Worker J)) → total dozing ws ≡ 0 → 0 < total alive ws → Busy ws
  unfolding total
  some-Busy [] d h = elim h [ ]
  some-Busy (ready ∷ ws) d h = at_head [] ws refl
  some-Busy (running job ∷ ws) d h = at_work [] ws job refl
  some-Busy (asleep ∷ ws) d h = absurd (omega (arith, d))
  some-Busy (gone ∷ ws) d h = behind gone ws (some-Busy ws (omega (arith, d)) (omega (arith, h)))

  busy_step : (s : System J) → Busy s.workers → (t : System J) × Step s t
  busy_step s (at_head pre post e) = (after_turn pre post s, turn pre post e refl)
  busy_step s (at_work pre post job e) = (after_done pre post s, done pre post job e refl)

  stopped_alive :
      (s : System J)
      → Inv s
      → s.pool.stop ≡ true
      → must_wait s.pool ≡ true
      → 0 < total alive s.workers
  unfolding must_wait
  stopped_alive s i h w = ground (arith, i.threads, i.kept, h, w)

  stopped_awake : (s : System J) → Inv s → s.pool.stop ≡ true → total dozing s.workers ≡ 0
  stopped_awake s i h = ground (arith, i.awake, h)

  progress :
      (s : System J) (m : Main)
      → s.main ≡ m
      → Stands m s.pool
      → Inv s
      → s.pool.stop ≡ true
      → (s.main ≡ freed) ⊎ ((t : System J) × Step s t)
  progress s serving e st i h = absurd (ground (arith, st, h))
  progress s freed e st i h = inl e
  progress s (testing c) e st i h = inr (after_test c s, test c e refl)
  progress s (sleeping from_outside) e st i h = absurd (ground (arith, st.0, h))
  progress s (sleeping from_destroy) e st i h =
      inr (busy_step s (some-Busy s.workers (stopped_awake s i h) (stopped_alive s i h st.1)))

  not_serving : (s : System J) → Inv s → s.pool.stop ≡ true → s.main ≡ serving → ⊥
  not_serving s i h e =
      let running_pool : s.pool.stop ≡ false = (subst (λ m. Stands m s.pool) e i.stands) in
      ground (arith, running_pool, h)

  -- What a step makes of a stopped state.
  abbrev pub Nearer : System J → System J → Type 0
  Nearer s t = (work_left t < work_left s) × (t.pool.stop ≡ true)

  Nearer-is : (s : System J) {t u : System J} → t ≡ u → Nearer s u → Nearer s t
  Nearer-is s e h = subst (λ x. Nearer s x) (sym e) h

  leaves_turn :
      (s : System J) (pre post : List (Worker J))
      → s.workers ≡ pre ++ ready ∷ post
      → s.pool.stop ≡ true
      → Nearer s (after_turn pre post s)
  unfolding worker_turn
  leaves_turn s pre post e h =
      let less : total weight s.workers ≡ total weight (pre ++ gone ∷ post) + 3 =
        rw e (omega (arith, total_move weight pre post ready gone)) in
      rw (h, worker_turn) (omega (arith, less, signalled_weight s.main), refl)

  done-Nearer :
      (s : System J) (pre post : List (Worker J)) (job : J)
      → s.workers ≡ pre ++ running job ∷ post
      → s.pool.stop ≡ true
      → Nearer s (after_done pre post s)
  unfolding worker_done
  done-Nearer s pre post job e h =
      let less : total weight s.workers ≡ total weight (pre ++ ready ∷ post) + 2 =
        rw e (omega (arith, total_move weight pre post (running job) ready)) in
      rw (h, worker_done) (omega (arith, less), refl)

  step-Nearer : {s t : System J} → Inv s → s.pool.stop ≡ true → Step s t → Nearer s t
  step-Nearer {s} i h (turn pre post e q) = Nearer-is s q (leaves_turn s pre post e h)
  step-Nearer {s} i h (done pre post job e q) = Nearer-is s q (done-Nearer s pre post job e h)
  step-Nearer {s} i h (add job e q) = absurd (not_serving s i h e)
  step-Nearer {s} i h (wait e q) = absurd (not_serving s i h e)
  step-Nearer {s} i h (destroy e q) = absurd (not_serving s i h e)
  step-Nearer {s} i h (test c e q) =
      let before : main_weight s.main ≡ 1 = rw e refl in
      Nearer-is s q (omega (arith, before, tested_weight (must_wait s.pool) c), h)

  -- Once `tpool_destroy` has stopped the pool, it comes to its end, whatever order the threads run in:
  -- in every state that is reached then the pool is freed or some thread can take a step, and every
  -- step of a thread, waits that end by themselves left aside, brings the bound `work_left` nearer to
  -- 0 and leaves the pool stopped. There are fewer than 2 ^ 64 workers, and every job returns.
  pub shutdown_ends :
      (n : ℕ) (s : System J)
      → n < 2 ^ 64
      → Reach n s
      → s.pool.stop ≡ true
      → ((s.main ≡ freed) ⊎ ((t : System J) × Step s t)) × ((t : System J) → Step s t → Nearer s t)
  shutdown_ends n s b r h =
      let i = Reach-Inv n s b r in (progress s s.main refl i.stands i h, λ t st. step-Nearer i h st)
