-- ===== src/Ui/Placed.antt =====
-- The rows and columns of the products lie between those of the grid.
use sshnack.Base.{
  ◌^◌, some, get_elem?, ℕ, ◌+◌, ◌≤◌, ◌<◌, ◌≡◌, ◌≢◌, ◌⊎◌, arith, List, [], ◌∷◌, if◌then◌else◌, All,
}
use sshnack.Base.Int.{pos, neg_ℤ, ℤ, ◌≤ℤ◌, ◌-ℤ◌, ltb_ℤ, pos_part, neg_part, eq_of_parts}
use sshnack.App.{Product}
use mathlib.Core.Path.{subst}
use sshnack.Ui.{Grid, grid_of, row_of, col_of, least, greatest, above}

module _ (f : Product → ℤ) where
  least_le : (m : ℤ) (ps : List Product) → least f m ps ≤ℤ m
  unfolding least
  least_le m [] = omega arith
  least_le m (p ∷ ps) = ground (arith, least_le (if ltb_ℤ (f p) m then f p else m) ps)

  least-All : (m : ℤ) (ps : List Product) → All (λ p. least f m ps ≤ℤ f p) ps
  unfolding least
  least-All m [] = tt
  least-All m (p ∷ ps) =
      let next = if ltb_ℤ (f p) m then f p else m in
      (ground (arith, least_le next ps), least-All next ps)

  le_greatest : (m : ℤ) (ps : List Product) → m ≤ℤ greatest f m ps
  unfolding greatest
  le_greatest m [] = omega arith
  le_greatest m (p ∷ ps) = ground (arith, le_greatest (if ltb_ℤ m (f p) then f p else m) ps)

  greatest-All : (m : ℤ) (ps : List Product) → All (λ p. f p ≤ℤ greatest f m ps) ps
  unfolding greatest
  greatest-All m [] = tt
  greatest-All m (p ∷ ps) =
      let next = if ltb_ℤ m (f p) then f p else m in
      (ground (arith, le_greatest next ps), greatest-All next ps)

above_exact : (a b : ℤ) → b ≤ℤ a → above a b + pos_part b + neg_part a ≡ pos_part a + neg_part b
unfolding ◌-ℤ◌
above_exact a b h = ground arith

above_mono : (a b c : ℤ) → b ≤ℤ a → a ≤ℤ c → above a b ≤ above c b
above_mono a b c h k = omega (arith, above_exact a b h, above_exact c b (omega arith))

pub above_apart :
    (a b c : ℤ) → c ≤ℤ a → c ≤ℤ b → a ≢ b → (above a c < above b c) ⊎ (above b c < above a c)
above_apart a b c h k n = grind (arith, above_exact a c h, above_exact b c k, eq_of_parts a b, n)

-- A product whose row and column are those of the grid.
abbrev pub Placed : Grid → Product → Type 0
Placed g p =
    (g.minr ≤ℤ row_of p)
    × (above (row_of p) g.minr < g.rows)
    × (g.minc ≤ℤ col_of p)
    × (above (col_of p) g.minc < g.colsn)

module _ {A : Type 0} where
  All-and : (P Q : A → Type 0) (xs : List A) → All P xs → All Q xs → All (λ x. P x × Q x) xs
  All-and P Q [] h k = tt
  All-and P Q (x ∷ xs) h k = ((h.0, k.0), All-and P Q xs h.1 k.1)

  pub All-map : (P Q : A → Type 0) (xs : List A) → ((x : A) → P x → Q x) → All P xs → All Q xs
  All-map P Q [] f h = tt
  All-map P Q (x ∷ xs) f h = (f x h.0, All-map P Q xs f h.1)

  pub All-get_elem? :
      (P : A → Type 0) (xs : List A) (i : ℕ) (x : A) → All P xs → get_elem? xs i ≡ some x → P x
  All-get_elem? P [] i x h e = cc
  All-get_elem? P (y ∷ xs) ℕ.zero x h e = (let same : y ≡ x = cc in subst P same h.0)
  All-get_elem? P (y ∷ xs) (ℕ.suc i) x h e = All-get_elem? P xs i x h.1 e

-- A value between the least and the greatest.
between :
    (f : Product → ℤ) (m n : ℤ) (ps : List Product)
    → All
        (λ p.
          (least f m ps ≤ℤ f p)
          × (above (f p) (least f m ps) < above (greatest f n ps) (least f m ps) + 1))
        ps
between f m n ps =
    All-map (λ p. (least f m ps ≤ℤ f p) × (f p ≤ℤ greatest f n ps)) _ ps
      (λ p h. (h.0, omega (arith, above_mono (f p) (least f m ps) (greatest f n ps) h.0 h.1)))
      (All-and _ _ ps (least-All f m ps) (greatest-All f n ps))

pub grid_of-Placed : (ps : List Product) → All (Placed (grid_of ps)) ps
unfolding grid_of
grid_of-Placed ps =
    let low = pos (2 ^ 30) in
    let high = neg_ℤ (pos (2 ^ 30)) in
    All-map _ (Placed (grid_of ps)) ps (λ p h. (h.0.0, h.0.1, h.1.0, h.1.1))
      (All-and _ _ ps (between row_of low high ps) (between col_of low high ps))
