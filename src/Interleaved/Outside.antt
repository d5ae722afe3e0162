-- ===== src/Interleaved/Outside.antt =====
-- One call of a worker that has no transaction open.
use sshnack.Base.{◌⊎◌}
use mathlib.Core.Path.{subst}
use sshnack.Base.{◌≡◌, refl, ap, Option, none, some, Bool, true, false, List, [], ◌∷◌, ℕ, inl, inr}
use sshnack.Tables.{Tables, Item}
use sshnack.Tables.Statements.{
  Sql, effect, Row, select_balance, select_slot, select_product, select_products, select_slot_item,
  set_price,
}
use sshnack.Sqlite.{
  View, Sqlite, IsSqlite, Prog, ret, exec, prepare, step, fetch, finalize, Command, begin, commit,
  rollback, Step, Ending, row, done, error, all_rows, broken, left, Execs, Prepares, Steps, Fetches,
  with_tables, begun,
}
use sshnack.Ledger.{IsBalanced}
use sshnack.Interleaved.{advance, IsSteady}
use sshnack.Interleaved.Safe.{Safe, with_items, IsHarmless}

-- Nothing but prices differs.
pub record Priced (v v' : View) : Type 0 where
  pub items : List Item
  pub same_tables : v'.tables ≡ with_items items v.tables
  pub same_saved : v'.saved ≡ v.saved

-- What a call outside a transaction leads to.
pub data Outside {A : Type 0} (v : View) (m : Prog A) (v' : View) : Type 0 where
  stays : Priced v v' → Safe none m → Outside v m v'
  begins :
      v.saved ≡ none
      → v' ≡ begun v
      → (IsBalanced v.tables → Safe (some v.tables) m)
      → Outside v m v'

abbrev unchanged : {v v' : View} → v' ≡ v → Priced v v'
unchanged {v} q = record {
  items = v.tables.items;
  same_tables = ap (λ (w : View). w.tables) q;
  same_saved = ap (λ (w : View). w.saved) q;
}

exec-Outside :
    {A : Type 0} (c : Command) (k : Bool → Prog A) (saved : Option Tables) (v : View) (b : Bool)
    (v' : View)
    → v.saved ≡ saved
    → Execs c saved v b v'
    → (b ≡ false → v' ≡ v)
    → Safe none (exec c k)
    → Outside v (k b) v'
unfolding Safe
exec-Outside begin k none v true v' sv law steady h = begins sv law (h.0 v.tables)
exec-Outside begin k (some s) v true v' sv law steady h = absurd law
exec-Outside begin k saved v false v' sv law steady h = stays (unchanged (steady refl)) h.1
exec-Outside commit k saved v b v' sv law steady h = absurd h
exec-Outside rollback k saved v b v' sv law steady h = absurd h

prepare-Priced :
    (v : View) (b : Bool) (v' : View) → Prepares v b v' → (b ≡ false → v' ≡ v) → Priced v v'
prepare-Priced v true v' law steady = record {
  items = v.tables.items;
  same_tables = ap (λ (w : View). w.tables) law;
  same_saved = ap (λ (w : View). w.saved) law;
}
prepare-Priced v false v' law steady = unchanged (steady refl)

-- A harmless statement has no constraint, and leaves all but the items alone.
record Harmless (fk : Bool) (sql : Sql) (t : Tables) : Type 0 where
  rows : List Row
  items : List Item
  effect_eq : effect fk sql t ≡ some (rows, with_items items t)

reads_only :
    {fk : Bool} {sql : Sql} {t : Tables} (rs : List Row)
    → effect fk sql t ≡ some (rs, t)
    → Harmless fk sql t
reads_only {t = t} rs q = record { rows = rs; items = t.items; effect_eq = q }

effect-Harmless : (fk : Bool) (sql : Sql) (t : Tables) → IsHarmless sql → Harmless fk sql t
unfolding effect
effect-Harmless fk (select_balance uid) t h = reads_only _ refl
effect-Harmless fk (select_slot sid) t h = reads_only _ refl
effect-Harmless fk (select_product sid) t h = reads_only _ refl
effect-Harmless fk (select_slot_item sid) t h = reads_only _ refl
effect-Harmless fk select_products t h = reads_only _ refl
effect-Harmless fk (set_price p iid) t h = record { rows = []; items = _; effect_eq = refl }
effect-Harmless fk _ t h = absurd h

-- What a statement leaves that fails or has an effect.
Steps-cases :
    (rows : List Row) (t : Tables) (v : View) (s : Step) (v' : View)
    → Steps (some (rows, t)) v s v'
    → (s ≡ error → v' ≡ v)
    → (v' ≡ with_tables v t) ⊎ (v' ≡ v)
Steps-cases [] t v done v' law steady = inl law
Steps-cases [] t v error v' law steady = inr (steady refl)
Steps-cases [] t v (row r) v' law steady = absurd law
Steps-cases (r ∷ rs) t v (row r') v' law steady = inl law.1
Steps-cases (r ∷ rs) t v error v' law steady = inr (steady refl)
Steps-cases (r ∷ rs) t v done v' law steady = absurd law

Fetches-cases :
    (rows : List Row) (t : Tables) (goes_on : ℕ → Bool) (v : View) (s : Ending) (v' : View)
    → Fetches (some (rows, t)) goes_on v s v'
    → (s ≡ broken → v' ≡ v)
    → (v' ≡ with_tables v t) ⊎ (v' ≡ v)
Fetches-cases rows t goes_on v (all_rows got) v' law steady = inl law.2
Fetches-cases rows t goes_on v left v' law steady = inl law.1
Fetches-cases rows t goes_on v broken v' law steady = inr (steady refl)

priced_by :
    (items : List Item) (v v' : View)
    → (v' ≡ with_tables v (with_items items v.tables)) ⊎ (v' ≡ v)
    → Priced v v'
priced_by items v v' (inl q) = record {
  items = items;
  same_tables = ap (λ (w : View). w.tables) q;
  same_saved = ap (λ (w : View). w.saved) q;
}
priced_by items v v' (inr q) = unchanged q

-- The next call of a program that is safe outside a transaction.
pub advance-Outside :
    {A : Type 0} (e : Sqlite) (laws : IsSqlite e) (steady : IsSteady e laws) (m : Prog A) (d : e.Db)
    → Safe none m
    → Outside (laws.view d) (advance e m d).0 (laws.view (advance e m d).1)
unfolding Safe advance
advance-Outside e laws steady (ret a) d h = stays (unchanged refl) tt
advance-Outside e laws steady (exec c k) d h =
    exec-Outside c k (laws.view d).saved (laws.view d) _ _ refl (laws.exec_law c d)
      (steady.exec_steady c d) h
advance-Outside e laws steady (prepare sql k) d h =
    stays (prepare-Priced _ _ _ (laws.prepare_law sql d) (steady.prepare_steady sql d))
      (both (e.prepare_db sql d).0)
  where
    both : (b : Bool) → Safe none (k b)
    both true = h.0
    both false = h.1
advance-Outside e laws steady (step sql k) d h =
    let fk = (laws.view d).foreign_keys in
    let f = effect-Harmless fk sql (laws.view d).tables h.0 in
    stays
      (priced_by f.items (laws.view d) _ (
        Steps-cases f.rows _ (laws.view d) (e.step_db sql d).0 _
          (subst (λ x. Steps x (laws.view d) (e.step_db sql d).0 (laws.view (e.step_db sql d).1))
            f.effect_eq (laws.step_law sql d))
          (steady.step_steady sql d)))
      (h.1 (e.step_db sql d).0)
advance-Outside e laws steady (fetch sql goes_on k) d h =
    let fk = (laws.view d).foreign_keys in
    let f = effect-Harmless fk sql (laws.view d).tables h.0 in
    stays
      (priced_by f.items (laws.view d) _ (
        Fetches-cases f.rows _ goes_on (laws.view d) (e.fetch_db sql goes_on d).0 _
          (subst
            (λ x.
              Fetches x goes_on (laws.view d) (e.fetch_db sql goes_on d).0
                (laws.view (e.fetch_db sql goes_on d).1))
            f.effect_eq (laws.fetch_law sql goes_on d))
          (steady.fetch_steady sql goes_on d)))
      (h.1 (e.fetch_db sql goes_on d).0)
advance-Outside e laws steady (finalize m) d h =
    stays
      (record {
        items = (laws.view d).tables.items;
        same_tables = ap (λ (w : View). w.tables) (laws.finalize_law d);
        same_saved = ap (λ (w : View). w.saved) (laws.finalize_law d);
      })
      h
