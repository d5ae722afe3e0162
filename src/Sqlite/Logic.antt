-- ===== src/Sqlite/Logic.antt =====
-- Weakest preconditions for programs over SQLite: what must hold of the view so that the result and
-- the view at the end are as wanted, whatever the library does within its laws.
use sshnack.Base.{ℕ, ◌≡◌, ◌≢◌, inl, inr, Bool, true, false, Option, none, some, [], ◌∷◌, sym, refl}
use sshnack.Tables.{Tables}
use sshnack.Tables.Statements.{Sql, Effect, effect}
use mathlib.Core.Path.{subst}
use sshnack.Sqlite.{
  Command, begin, commit, rollback, Step, row, done, error, Prog, ret, exec, prepare, step,
  finalize, View, rolled_back, Failed, begun, committed, opened, finalized, with_tables, Execs,
  Prepares, Steps, Sqlite, IsSqlite, run, Ending, fetch, Fetches, broken, all_rows, goes_through,
  left,
}

module _ {A : Type 0} where
  unfoldable pub Wp : Prog A → (A → View → Type 0) → View → Type 0
  Wp (ret a) Q v = Q a v
  Wp (exec begin k) Q v = elim v.saved [
    | none ↦ Wp (k true) Q (begun v) × Wp (k false) Q v
    | some _ ↦ Wp (k false) Q v
  ]
  Wp (exec commit k) Q v = elim v.saved [
    | none ↦ Wp (k false) Q v
    | some _ ↦ Wp (k true) Q (committed v) × Wp (k false) Q v × Wp (k false) Q (rolled_back v)
  ]
  Wp (exec rollback k) Q v = elim v.saved [
    | none ↦ Wp (k false) Q v
    | some _ ↦ Wp (k true) Q (rolled_back v) × (v.pending ≢ 0 → Wp (k false) Q v)
  ]
  Wp (prepare sql k) Q v =
      Wp (k true) Q (opened v) × Wp (k false) Q v × Wp (k false) Q (rolled_back v)
  Wp (step sql k) Q v =
      Wp (k error) Q v
      × Wp (k error) Q (rolled_back v)
      × (elim (effect v.foreign_keys sql v.tables) [
        | none ↦ Unit
        | some ([], t) ↦ Wp (k done) Q (with_tables v t)
        | some (r ∷ _, t) ↦ Wp (k (row r)) Q (with_tables v t)
      ])
  Wp (fetch sql goes_on k) Q v =
      Wp (k broken) Q v
      × Wp (k broken) Q (rolled_back v)
      × (elim (effect v.foreign_keys sql v.tables) [
        | none ↦ Unit
        | some (rs, t) ↦
            (goes_through goes_on 0 rs ≡ true → Wp (k (all_rows rs)) Q (with_tables v t))
            × (goes_through goes_on 0 rs ≡ false → Wp (k left) Q (with_tables v t))
      ])
  Wp (finalize m) Q v = Wp m Q (finalized v)

module _ {A : Type 0} (Q : A → View → Type 0) where
  -- A fact about the view that a law gives.
  at_view : (m : Prog A) {v w : View} → w ≡ v → Wp m Q v → Wp m Q w
  at_view m e h = subst (λ u. Wp m Q u) (sym e) h

  at_failure : (m : Prog A) {v w : View} → Failed v w → Wp m Q v × Wp m Q (rolled_back v) → Wp m Q w
  at_failure m (inl e) h = at_view m e h.0
  at_failure m (inr e) h = at_view m e h.1

  abbrev view_of : Tables → Option Tables → ℕ → Bool → View
  view_of t s p f = record { tables = t; saved = s; pending = p; foreign_keys = f }

  Wp-exec :
      (c : Command) (k : Bool → Prog A) (t : Tables) (s : Option Tables) (p : ℕ) (f : Bool)
      (b : Bool) (w : View)
      → Execs c s (view_of t s p f) b w
      → Wp (exec c k) Q (view_of t s p f)
      → Wp (k b) Q w
  unfolding Wp
  Wp-exec begin k t none p f true w e h = at_view (k true) e h.0
  Wp-exec begin k t none p f false w e h = at_view (k false) e h.1
  Wp-exec begin k t (some u) p f true w e h = absurd e
  Wp-exec begin k t (some u) p f false w e h = at_view (k false) e h
  Wp-exec commit k t none p f true w e h = absurd e
  Wp-exec commit k t none p f false w (inl e) h = at_view (k false) e h
  Wp-exec commit k t none p f false w (inr e) h = at_view (k false) e h
  Wp-exec commit k t (some u) p f true w e h = at_view (k true) e h.0
  Wp-exec commit k t (some u) p f false w e h = at_failure (k false) e (h.1, h.2)
  Wp-exec rollback k t none p f true w e h = absurd e
  Wp-exec rollback k t none p f false w e h = at_view (k false) e h
  Wp-exec rollback k t (some u) p f true w e h = at_view (k true) e h.0
  Wp-exec rollback k t (some u) p f false w e h = at_view (k false) e.0 (h.1 e.1)

  Wp-prepare :
      (sql : Sql) (k : Bool → Prog A) (v : View) (b : Bool) (w : View)
      → Prepares v b w
      → Wp (prepare sql k) Q v
      → Wp (k b) Q w
  unfolding Wp
  Wp-prepare sql k v true w e h = at_view (k true) e h.0
  Wp-prepare sql k v false w e h = at_failure (k false) e (h.1, h.2)

  Wp-step :
      (sql : Sql) (k : Step → Prog A) (v : View) (ef : Effect) (s : Step) (w : View)
      → ef ≡ effect v.foreign_keys sql v.tables
      → Steps ef v s w
      → Wp (step sql k) Q v
      → Wp (k s) Q w
  unfolding Wp
  Wp-step sql k v none error w q e h = at_failure (k error) e (h.0, h.1)
  Wp-step sql k v none done w q e h = absurd e
  Wp-step sql k v none (row r) w q e h = absurd e
  Wp-step sql k v (some ([], t)) done w q e h = at_view (k done) e (rw (← q) at h.2)
  Wp-step sql k v (some ([], t)) error w q e h = at_failure (k error) e (h.0, h.1)
  Wp-step sql k v (some ([], t)) (row r) w q e h = absurd e
  Wp-step sql k v (some (r ∷ rs, t)) done w q e h = absurd e
  Wp-step sql k v (some (r ∷ rs, t)) error w q e h = at_failure (k error) e (h.0, h.1)
  Wp-step sql k v (some (r ∷ rs, t)) (row r') w q e h =
      rw e.0 (at_view (k (row r)) e.1 (rw (← q) at h.2))

  Wp-fetch :
      (sql : Sql) (goes_on : ℕ → Bool) (k : Ending → Prog A) (v : View) (ef : Effect) (s : Ending)
      (w : View)
      → ef ≡ effect v.foreign_keys sql v.tables
      → Fetches ef goes_on v s w
      → Wp (fetch sql goes_on k) Q v
      → Wp (k s) Q w
  unfolding Wp
  Wp-fetch sql goes_on k v none (all_rows got) w q e h = absurd e
  Wp-fetch sql goes_on k v none left w q e h = absurd e
  Wp-fetch sql goes_on k v none broken w q e h = at_failure (k broken) e (h.0, h.1)
  Wp-fetch sql goes_on k v (some (rs, t)) broken w q e h = at_failure (k broken) e (h.0, h.1)
  Wp-fetch sql goes_on k v (some (rs, t)) (all_rows got) w q (all, eg, ew) h =
      let step = (rw (← q) at h.2).0 in rw eg (at_view (k (all_rows rs)) ew (step all))
  Wp-fetch sql goes_on k v (some (rs, t)) left w q (leaves, ew) h =
      let step = (rw (← q) at h.2).1 in at_view (k left) ew (step leaves)

-- The weakest precondition is sound for every library that keeps the laws.
module _ (e : Sqlite) (laws : IsSqlite e) {A : Type 0} (Q : A → View → Type 0) where
  open laws use {view, exec_law, prepare_law, step_law, fetch_law, finalize_law}

  pub Wp-sound : (m : Prog A) (d : e.Db) → Wp m Q (view d) → Q (run e m d).0 (view (run e m d).1)
  unfolding run
  Wp-sound (ret a) d h = unfold Wp in h
  Wp-sound (exec c k) d h =
      let (b, d') = e.exec_db c d in
      Wp-sound (k b) d' (
        Wp-exec Q c k (view d).tables (view d).saved (view d).pending (view d).foreign_keys b _
          (exec_law c d) h)
  Wp-sound (prepare sql k) d h =
      let (b, d') = e.prepare_db sql d in
      Wp-sound (k b) d' (Wp-prepare Q sql k (view d) b _ (prepare_law sql d) h)
  Wp-sound (step sql k) d h =
      let (s, d') = e.step_db sql d in
      Wp-sound (k s) d' (Wp-step Q sql k (view d) _ s _ refl (step_law sql d) h)
  Wp-sound (fetch sql goes_on k) d h =
      let (s, d') = e.fetch_db sql goes_on d in
      Wp-sound (k s) d' (Wp-fetch Q sql goes_on k (view d) _ s _ refl (fetch_law sql goes_on d) h)
  Wp-sound (finalize m) d h =
      Wp-sound m (e.finalize_db d) (at_view Q m (finalize_law d) (unfold Wp in h))
