-- ===== src/Threadpool/Counts.antt =====
-- Counting the workers by where they stand.
use sshnack.Base.{ℕ, ◌≡◌, ◌+◌, ◌≤◌, List, [], ◌∷◌, ◌++◌, arith, refl, map}
use sshnack.Threadpool.System.{Worker, ready, asleep, gone, running, woken, all_ready}

module _ {J : Type 0} where
  abbrev pub at_job : Worker J → ℕ
  at_job (running _) = 1
  at_job _ = 0

  abbrev pub alive : Worker J → ℕ
  alive gone = 0
  alive _ = 1

  abbrev pub dozing : Worker J → ℕ
  dozing asleep = 1
  dozing _ = 0

  unfoldable pub total : (Worker J → ℕ) → List (Worker J) → ℕ
  total f [] = 0
  total f (w ∷ ws) = f w + total f ws

  pub total-append :
      (f : Worker J → ℕ) (xs ys : List (Worker J)) → total f (xs ++ ys) ≡ total f xs + total f ys
  unfolding total
  total-append f [] ys = omega arith
  total-append f (w ∷ xs) ys = omega (arith, total-append f xs ys)

  -- At the place of one worker.
  pub total_split :
      (f : Worker J → ℕ) (pre : List (Worker J)) (w : Worker J) (post : List (Worker J))
      → total f (pre ++ w ∷ post) ≡ total f pre + f w + total f post
  unfolding total
  total_split f pre w post = omega (arith, total-append f pre (w ∷ post))

  -- One worker moves from `w` to `w'`.
  pub total_move :
      (f : Worker J → ℕ) (pre post : List (Worker J)) (w w' : Worker J)
      → total f (pre ++ w' ∷ post) + f w ≡ total f (pre ++ w ∷ post) + f w'
  total_move f pre post w w' = omega (arith, total_split f pre w post, total_split f pre w' post)

  -- A broadcast leaves nobody asleep, and changes nothing else.
  pub total-woken :
      (ws : List (Worker J))
      → (total at_job (map woken ws) ≡ total at_job ws)
        × (total alive (map woken ws) ≡ total alive ws)
        × (total dozing (map woken ws) ≡ 0)
  unfolding total
  total-woken [] = (refl, refl, refl)
  total-woken (ready ∷ ws) = omega (arith, total-woken ws)
  total-woken (asleep ∷ ws) = omega (arith, total-woken ws)
  total-woken (gone ∷ ws) = omega (arith, total-woken ws)
  total-woken (running j ∷ ws) = omega (arith, total-woken ws)

  pub working_alive : (ws : List (Worker J)) → total at_job ws ≤ total alive ws
  unfolding total
  working_alive [] = omega arith
  working_alive (ready ∷ ws) = omega (arith, working_alive ws)
  working_alive (asleep ∷ ws) = omega (arith, working_alive ws)
  working_alive (gone ∷ ws) = omega (arith, working_alive ws)
  working_alive (running j ∷ ws) = omega (arith, working_alive ws)

pub total-all_ready :
    (J : Type 0) (n : ℕ)
    → (total at_job (all_ready {J = J} n) ≡ 0)
      × (total alive (all_ready {J = J} n) ≡ n)
      × (total dozing (all_ready {J = J} n) ≡ 0)
unfolding total
total-all_ready J ℕ.zero = (refl, refl, refl)
total-all_ready J (ℕ.suc n) = omega (arith, total-all_ready J n)
