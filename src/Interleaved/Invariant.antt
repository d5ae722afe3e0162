-- ===== src/Interleaved/Invariant.antt =====
-- The books under every interleaving of the workers' calls.
use sshnack.Base.{ℕ, ◌==◌, ◌≡◌, ◌≢◌, refl, sym, ap, ◌∙◌, Bool-cases, inl, inr, none, some, ==_iff}
use mathlib.Core.Path.{subst}
use mathlib.Core.Bool.{false≢true}
use sshnack.Tables.{Tables}
use sshnack.Tables.Range.{InRange}
use sshnack.Base.{Option}
use sshnack.Base.Text.{Text}
use sshnack.Services.Database.{Opener, IsOpener, or_default, db_init, db_init-idle}
use sshnack.Sqlite.{View, Sqlite, IsSqlite, Prog, begun}
use sshnack.Ledger.{IsBalanced, service}
use sshnack.Interleaved.{
  none_yet, Workers, set_worker, IsSteady, Reach, advance, ServiceCall, calls, takes,
}
use sshnack.Interleaved.Safe.{Safe, Safe-with_items}
use sshnack.Interleaved.Outside.{Priced, Outside, advance-Outside, stays, begins}
use sshnack.Interleaved.Inside.{Inside, advance-Inside, goes_on, ends}
use sshnack.Interleaved.Turns.{service-Safe}

-- The tables that a reader finds who opens the database anew: those of the last commit.
abbrev pub durable : View → Tables
durable v = elim v.saved [ none ↦ v.tables | some t ↦ t ]

-- Either no transaction is open; or one is, which a worker `o` has opened; or one that its worker
-- could not end.
data Inv (ws : Workers) (v : View) : Type 0 where
  closed : v.saved ≡ none → IsBalanced v.tables → ((j : ℕ) → Safe none (ws j)) → Inv ws v
  owned :
      (s : Tables) (o : ℕ)
      → v.saved ≡ some s
      → IsBalanced s
      → Safe (some v.tables) (ws o)
      → ((j : ℕ) → j ≢ o → Safe none (ws j))
      → Inv ws v
  orphaned :
      (s : Tables) → v.saved ≡ some s → IsBalanced s → ((j : ℕ) → Safe none (ws j)) → Inv ws v

module _ (P : Prog (Unit {0}) → Type 0) (ws : Workers) (i : ℕ) (m : Prog (Unit {0})) where
  set_worker-self : P m → P (set_worker ws i m i)
  unfolding set_worker
  set_worker-self h = rw ((==_iff i i).1 refl) h

  set_worker-other : (j : ℕ) → j ≢ i → P (ws j) → P (set_worker ws i m j)
  unfolding set_worker
  set_worker-other j ne h = elim (Bool-cases (j == i)) [
    | inl y ↦ absurd (ne ((==_iff j i).0 y))
    | inr n ↦ rw n h
  ]

  set_worker-each : (j : ℕ) → P m → (j ≢ i → P (ws j)) → P (set_worker ws i m j)
  unfolding set_worker
  set_worker-each j pm h = elim (Bool-cases (j == i)) [
    | inl y ↦ rw y pm
    | inr n ↦ rw n (h (λ q. false≢true (sym n ∙ (==_iff j i).1 q)))
  ]

priced_books : (v v' : View) → Priced v v' → IsBalanced v.tables → IsBalanced v'.tables
priced_books v v' p b = subst IsBalanced (sym p.same_tables) b

-- A call of the worker `i`, after which `m` is left of its program.
module _ (ws : Workers) (v v' : View) (i : ℕ) (m : Prog (Unit {0})) where
  closed-turn :
      v.saved ≡ none
      → IsBalanced v.tables
      → ((j : ℕ) → Safe none (ws j))
      → Outside v m v'
      → Inv (set_worker ws i m) v'
  closed-turn sv b h (stays p hm) =
      closed (p.same_saved ∙ sv) (priced_books v v' p b)
        (λ j. set_worker-each (Safe none) ws i m j hm (λ ne. h j))
  closed-turn sv b h (begins sv' q hm) =
      owned v.tables i (ap (λ (w : View). w.saved) q) b
        (subst (λ (w : View). Safe (some w.tables) (set_worker ws i m i)) {x = begun v} (sym q)
          (set_worker-self (Safe (some v.tables)) ws i m (hm b)))
        (λ j ne. set_worker-other (Safe none) ws i m j ne (h j))

  orphaned-turn :
      (s : Tables)
      → v.saved ≡ some s
      → IsBalanced s
      → ((j : ℕ) → Safe none (ws j))
      → Outside v m v'
      → Inv (set_worker ws i m) v'
  orphaned-turn s sv b h (stays p hm) =
      orphaned s (p.same_saved ∙ sv) b (λ j. set_worker-each (Safe none) ws i m j hm (λ ne. h j))
  orphaned-turn s sv b h (begins sv' q hm) = absurd (cc)

  other-turn :
      (s : Tables) (o : ℕ)
      → o ≢ i
      → v.saved ≡ some s
      → IsBalanced s
      → Safe (some v.tables) (ws o)
      → ((j : ℕ) → j ≢ o → Safe none (ws j))
      → Outside v m v'
      → Inv (set_worker ws i m) v'
  other-turn s o ne sv b ho h (stays p hm) =
      owned s o (p.same_saved ∙ sv) b
        (set_worker-other (Safe (some v'.tables)) ws i m o ne (
          subst (λ t. Safe (some t) (ws o)) (sym p.same_tables)
            (Safe-with_items (ws o) v.tables p.items ho)))
        (λ j nj. set_worker-each (Safe none) ws i m j hm (λ _. h j nj))
  other-turn s o ne sv b ho h (begins sv' q hm) = absurd (cc)

  own-turn :
      (s : Tables)
      → IsBalanced s
      → ((j : ℕ) → j ≢ i → Safe none (ws j))
      → Inside s m v'
      → Inv (set_worker ws i m) v'
  own-turn s b h (goes_on sv hm) =
      owned s i sv b (set_worker-self (Safe (some v'.tables)) ws i m hm)
        (λ j ne. set_worker-other (Safe none) ws i m j ne (h j ne))
  own-turn s b h (ends sv bv hm) = closed sv bv (λ j. set_worker-each (Safe none) ws i m j hm (h j))

-- A worker at rest takes up a service.
takes-Inv :
    (ws : Workers) (v : View) (i : ℕ) (c : ServiceCall)
    → Inv ws v
    → Inv (set_worker ws i (service c)) v
takes-Inv ws v i c (closed sv b h) =
    closed sv b (λ j. set_worker-each (Safe none) ws i _ j (service-Safe c) (λ _. h j))
takes-Inv ws v i c (orphaned s sv b h) =
    orphaned s sv b (λ j. set_worker-each (Safe none) ws i _ j (service-Safe c) (λ _. h j))
takes-Inv ws v i c (owned s o sv b ho h) = elim (Bool-cases (i == o)) [
  | inl y ↦
      let q = (==_iff i o).0 y in
      orphaned s sv b (λ j.
        set_worker-each (Safe none) ws i _ j (service-Safe c) (λ ne. h j (λ r. ne (r ∙ sym q))))
  | inr n ↦
      owned s o sv b
        (set_worker-other (Safe (some v.tables)) ws i _ o
          (λ r. false≢true (sym n ∙ (==_iff i o).1 (sym r))) ho)
        (λ j nj. set_worker-each (Safe none) ws i _ j (service-Safe c) (λ _. h j nj))
]

module _ (e : Sqlite) (laws : IsSqlite e) (steady : IsSteady e laws) where
  calls-Inv :
      (ws : Workers) (d : e.Db) (i : ℕ)
      → InRange (laws.view d).tables
      → Inv ws (laws.view d)
      → Inv (set_worker ws i (advance e (ws i) d).0) (laws.view (advance e (ws i) d).1)
  calls-Inv ws d i range (closed sv b h) =
      closed-turn ws _ _ i _ sv b h (advance-Outside e laws steady (ws i) d (h i))
  calls-Inv ws d i range (orphaned s sv b h) =
      orphaned-turn ws _ _ i _ s sv b h (advance-Outside e laws steady (ws i) d (h i))
  calls-Inv ws d i range (owned s o sv b ho h) = elim (Bool-cases (i == o)) [
    | inl y ↦
        let q = (==_iff i o).0 y in
        own-turn ws (laws.view d) _ i _ s b (λ j ne. h j (λ r. ne (r ∙ sym q)))
          (advance-Inside e laws steady (ws i) d s sv b range
            (subst (λ k. Safe (some (laws.view d).tables) (ws k)) (sym q) ho))
    | inr n ↦
        let ne : i ≢ o = (λ r. false≢true (sym n ∙ (==_iff i o).1 r)) in
        other-turn ws (laws.view d) _ i _ s o (λ r. ne (sym r)) sv b ho h
          (advance-Outside e laws steady (ws i) d (h i ne))
  ]

  Reach-Inv :
      (start : e.Db) {ws : Workers} {d : e.Db}
      → (laws.view start).saved ≡ none
      → IsBalanced (laws.view start).tables
      → Reach e laws start ws d
      → Inv ws (laws.view d)
  unfolding Safe
  Reach-Inv start sv b none_yet = closed sv b (λ j. tt)
  Reach-Inv start sv b (calls {ws} {d} r range i) = calls-Inv ws d i range (Reach-Inv start sv b r)
  Reach-Inv start sv b (takes {ws} {d} r i rest c) =
      takes-Inv ws (laws.view d) i c (Reach-Inv start sv b r)

  durable-IsBalanced :
      (start : e.Db) {ws : Workers} {d : e.Db}
      → (laws.view start).saved ≡ none
      → IsBalanced (laws.view start).tables
      → Reach e laws start ws d
      → IsBalanced (durable (laws.view d))
  durable-IsBalanced start {ws} {d} sv b r = books (laws.view d) (Reach-Inv start sv b r)
    where
      books : (v : View) → Inv ws v → IsBalanced (durable v)
      books v (closed sv b h) = rw (sv, durable) b
      books v (owned s o sv b ho h) = rw (sv, durable) b
      books v (orphaned s sv b h) = rw (sv, durable) b

  -- After `db_init` on a file whose books are balanced: whatever the workers' calls on its one
  -- connection are and however they interleave, also within each other's transactions, with failures
  -- anywhere, the tables of the last commit stay balanced, so that each user's balance is the sum of
  -- the amounts in `transactions`. A call of the library that fails leaves its view as it is, and the
  -- numbers of the tables fit an `int` at each call.
  pub interleaved-IsBalanced :
      (o : Opener e) (opens : IsOpener laws o) (path : Option Text) (start : e.Db)
      → db_init o path ≡ some start
      → IsBalanced (opens.stored (or_default path))
      → {ws : Workers} {d : e.Db} → Reach e laws start ws d
      → IsBalanced (durable (laws.view d))
  interleaved-IsBalanced o opens path start begun_at b r =
      let (fk, idle_at) = db_init-idle laws o opens path start begun_at in
      durable-IsBalanced start (ap (λ (v : View). v.saved) idle_at)
        (subst IsBalanced (sym (ap (λ (v : View). v.tables) idle_at)) b) r
