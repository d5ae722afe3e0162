-- ===== src/Interleaved/Safe.antt =====
-- What makes a program safe among others on the same connection. Outside a transaction it writes
-- nothing but prices. Inside its own one it may count on all tables but the items, and the books are
-- balanced when it commits.
use sshnack.Base.{Bool, true, false, Option, none, some, List, [], ◌∷◌}
use sshnack.Tables.{Tables, Item}
use sshnack.Tables.Range.{InRange}
use sshnack.Tables.Statements.{
  Sql, Effect, effect, select_balance, select_slot, select_product, select_products,
  select_slot_item, set_price,
}
use sshnack.Sqlite.{
  begin, commit, rollback, Step, row, done, error, Ending, Prog, ret, exec, prepare, step, fetch,
  finalize, ◌>>=◌,
}
use sshnack.Ledger.{IsBalanced}

-- The statements that others may run within a transaction.
abbrev pub IsHarmless : Sql → Type 0
IsHarmless (select_balance _) = Unit
IsHarmless (select_slot _) = Unit
IsHarmless (select_product _) = Unit
IsHarmless (select_slot_item _) = Unit
IsHarmless select_products = Unit
IsHarmless (set_price _ _) = Unit
IsHarmless _ = ⊥

abbrev pub with_items : List Item → Tables → Tables
with_items items t = record t { items = items }

-- What is to hold of the step of a statement, where its constraints do not refuse it.
abbrev pub After : Effect → (Step → Tables → Type 0) → Type 0
After none P = Unit
After (some ([], t)) P = P done t
After (some (r ∷ rs, t)) P = P (row r) t

After-map :
    (P Q : Step → Tables → Type 0) (ef : Effect)
    → ((s : Step) (t : Tables) → P s t → Q s t)
    → After ef P
    → After ef Q
After-map P Q none f h = tt
After-map P Q (some ([], t)) f h = f done t h
After-map P Q (some (r ∷ rs, t)) f h = f (row r) t h

-- Safe outside a transaction, for `none`; and inside one, with these tables but for the items.
module _ {A : Type 0} where
  unfoldable pub Safe : Option Tables → Prog A → Type 0
  Safe o (ret a) = Unit
  Safe none (exec begin k) =
      ((t : Tables) → IsBalanced t → Safe (some t) (k true)) × Safe none (k false)
  Safe (some t) (exec begin k) = Safe (some t) (k false)
  Safe none (exec commit k) = ⊥
  Safe (some t) (exec commit k) = IsBalanced t × Safe none (k true) × Safe (some t) (k false)
  Safe none (exec rollback k) = ⊥
  Safe (some t) (exec rollback k) = Safe none (k true) × Safe (some t) (k false)
  Safe o (prepare sql k) = Safe o (k true) × Safe o (k false)
  Safe none (step sql k) = IsHarmless sql × ((s : Step) → Safe none (k s))
  Safe (some t) (step sql k) =
      Safe (some t) (k error)
      × ((items : List Item) (fk : Bool)
          → InRange (with_items items t)
          → After (effect fk sql (with_items items t)) λ s t'. Safe (some t') (k s))
  Safe none (fetch sql goes_on k) = IsHarmless sql × ((s : Ending) → Safe none (k s))
  Safe (some t) (fetch sql goes_on k) = ⊥
  Safe o (finalize m) = Safe o m

  -- Others may change the prices.
  pub Safe-with_items :
      (m : Prog A) (t : Tables) (items : List Item)
      → Safe (some t) m
      → Safe (some (with_items items t)) m
  unfolding Safe
  Safe-with_items (ret a) t items h = tt
  Safe-with_items (exec begin k) t items h = Safe-with_items (k false) t items h
  Safe-with_items (exec commit k) t items h = (h.0, h.1, Safe-with_items (k false) t items h.2)
  Safe-with_items (exec rollback k) t items h = (h.0, Safe-with_items (k false) t items h.1)
  Safe-with_items (prepare sql k) t items h =
      (Safe-with_items (k true) t items h.0, Safe-with_items (k false) t items h.1)
  Safe-with_items (step sql k) t items h = (Safe-with_items (k error) t items h.0, h.1)
  Safe-with_items (fetch sql goes_on k) t items h = absurd h
  Safe-with_items (finalize m) t items h = Safe-with_items m t items h

-- What a program makes of its result does not matter.
module _ {A B : Type 0} (g : A → B) where
  pub Safe-map : (o : Option Tables) (m : Prog A) → Safe o m → Safe o (m >>= λ a. ret (g a))
  unfolding Safe
  Safe-map o (ret a) h = tt
  Safe-map none (exec begin k) h =
      (λ t b. Safe-map (some t) (k true) (h.0 t b), Safe-map none (k false) h.1)
  Safe-map (some t) (exec begin k) h = Safe-map (some t) (k false) h
  Safe-map none (exec commit k) h = absurd h
  Safe-map (some t) (exec commit k) h =
      (h.0, Safe-map none (k true) h.1, Safe-map (some t) (k false) h.2)
  Safe-map none (exec rollback k) h = absurd h
  Safe-map (some t) (exec rollback k) h =
      (Safe-map none (k true) h.0, Safe-map (some t) (k false) h.1)
  Safe-map none (prepare sql k) h = (Safe-map none (k true) h.0, Safe-map none (k false) h.1)
  Safe-map (some t) (prepare sql k) h =
      (Safe-map (some t) (k true) h.0, Safe-map (some t) (k false) h.1)
  Safe-map none (step sql k) h = (h.0, λ s. Safe-map none (k s) (h.1 s))
  Safe-map (some t) (step sql k) h = (
    Safe-map (some t) (k error) h.0,
    λ items fk r.
        After-map _ _ (effect fk sql (with_items items t)) (λ s t'. Safe-map (some t') (k s))
          (h.1 items fk r),
  )
  Safe-map none (fetch sql goes_on k) h = (h.0, λ s. Safe-map none (k s) (h.1 s))
  Safe-map (some t) (fetch sql goes_on k) h = absurd h
  Safe-map o (finalize m) h = Safe-map o m h
