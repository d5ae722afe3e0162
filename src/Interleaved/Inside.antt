-- ===== src/Interleaved/Inside.antt =====
-- One call of the worker that has the transaction open.
use sshnack.Base.{◌≡◌, refl, sym, none, some, Bool, true, false, [], ◌∷◌}
use mathlib.Core.Path.{subst}
use sshnack.Tables.{Tables}
use sshnack.Tables.Range.{InRange}
use sshnack.Tables.Statements.{effect, Effect}
use sshnack.Sqlite.{
  View, Sqlite, IsSqlite, Prog, ret, exec, prepare, step, fetch, finalize, Command, begin, commit,
  rollback, Step, row, done, error, Execs, Prepares, Steps, with_tables, rolled_back,
}
use sshnack.Ledger.{IsBalanced}
use sshnack.Interleaved.{advance, IsSteady}
use sshnack.Interleaved.Safe.{Safe, After}

-- What a call inside the transaction over the tables `s` leads to.
pub data Inside {A : Type 0} (s : Tables) (m : Prog A) (v : View) : Type 0 where
  goes_on : v.saved ≡ some s → Safe (some v.tables) m → Inside s m v
  ends : v.saved ≡ none → IsBalanced v.tables → Safe none m → Inside s m v

module _ {A : Type 0} (s : Tables) (v : View) (sv : v.saved ≡ some s) where
  within : (m : Prog A) (v' : View) → v' ≡ v → Safe (some v.tables) m → Inside s m v'
  within m v' q h = subst (Inside s m) {x = v} (sym q) (goes_on sv h)

  wrote :
      (t : Tables) (m : Prog A) (v' : View) → v' ≡ with_tables v t → Safe (some t) m → Inside s m v'
  wrote t m v' q h = subst (Inside s m) {x = with_tables v t} (sym q) (goes_on sv h)

  exec-Inside :
      (c : Command) (k : Bool → Prog A) (b : Bool) (v' : View)
      → Execs c (some s) v b v'
      → (b ≡ false → v' ≡ v)
      → IsBalanced s
      → Safe (some v.tables) (exec c k)
      → Inside s (k b) v'
  unfolding Safe
  exec-Inside begin k true v' law steady bs h = absurd law
  exec-Inside begin k false v' law steady bs h = within (k false) v' law h
  exec-Inside commit k true v' law steady bs h =
      subst (Inside s (k true)) (sym law) (ends refl h.0 h.1)
  exec-Inside commit k false v' law steady bs h = within (k false) v' (steady refl) h.2
  exec-Inside rollback k true v' law steady bs h =
      subst (Inside s (k true)) (sym (rw (sv, rolled_back) at law)) (ends refl bs h.0)
  exec-Inside rollback k false v' law steady bs h = within (k false) v' (steady refl) h.1

  prepare-Inside :
      (k : Bool → Prog A) (b : Bool) (v' : View)
      → Prepares v b v'
      → (b ≡ false → v' ≡ v)
      → Safe (some v.tables) (k true) × Safe (some v.tables) (k false)
      → Inside s (k b) v'
  prepare-Inside k true v' law steady h = subst (Inside s (k true)) (sym law) (goes_on sv h.0)
  prepare-Inside k false v' law steady h = within (k false) v' (steady refl) h.1

  step-Inside :
      (k : Step → Prog A) (ef : Effect) (r : Step) (v' : View)
      → Steps ef v r v'
      → (r ≡ error → v' ≡ v)
      → Safe (some v.tables) (k error)
      → After ef (λ x t. Safe (some t) (k x))
      → Inside s (k r) v'
  step-Inside k none error v' law steady he ha = within (k error) v' (steady refl) he
  step-Inside k (some (rs, t)) error v' law steady he ha = within (k error) v' (steady refl) he
  step-Inside k none done v' law steady he ha = absurd law
  step-Inside k none (row x) v' law steady he ha = absurd law
  step-Inside k (some ([], t)) done v' law steady he ha = wrote t (k done) v' law ha
  step-Inside k (some ([], t)) (row x) v' law steady he ha = absurd law
  step-Inside k (some (x ∷ rs, t)) done v' law steady he ha = absurd law
  step-Inside k (some (x ∷ rs, t)) (row y) v' law steady he ha =
      subst (λ z. Inside s (k (row z)) v') (sym law.0) (wrote t (k (row x)) v' law.1 ha)

-- The next call of a program that is safe inside its transaction.
pub advance-Inside :
    {A : Type 0} (e : Sqlite) (laws : IsSqlite e) (steady : IsSteady e laws) (m : Prog A) (d : e.Db)
    (s : Tables)
    → (laws.view d).saved ≡ some s
    → IsBalanced s
    → InRange (laws.view d).tables
    → Safe (some (laws.view d).tables) m
    → Inside s (advance e m d).0 (laws.view (advance e m d).1)
unfolding Safe advance
advance-Inside e laws steady (ret a) d s sv bs range h = goes_on sv h
advance-Inside e laws steady (exec c k) d s sv bs range h =
    exec-Inside s (laws.view d) sv c k (e.exec_db c d).0 _
      (subst (λ o. Execs c o (laws.view d) (e.exec_db c d).0 (laws.view (e.exec_db c d).1)) sv
        (laws.exec_law c d))
      (steady.exec_steady c d) bs h
advance-Inside e laws steady (prepare sql k) d s sv bs range h =
    prepare-Inside s (laws.view d) sv k (e.prepare_db sql d).0 _ (laws.prepare_law sql d)
      (steady.prepare_steady sql d) h
advance-Inside e laws steady (step sql k) d s sv bs range h =
    let v = laws.view d in
    step-Inside s v sv k (effect v.foreign_keys sql v.tables) (e.step_db sql d).0 _
      (laws.step_law sql d) (steady.step_steady sql d) h.0 (h.1 v.tables.items v.foreign_keys range)
advance-Inside e laws steady (fetch sql goes k) d s sv bs range h = absurd h
advance-Inside e laws steady (finalize m) d s sv bs range h =
    subst (Inside s m) (sym (laws.finalize_law d)) (goes_on sv h)
