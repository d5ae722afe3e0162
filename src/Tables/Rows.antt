-- ===== src/Tables/Rows.antt =====
-- Looking up rows after an UPDATE or an INSERT.
use sshnack.Base.{
  ◌≡◌, refl, Bool, true, false, Option, none, some, List, [], ◌∷◌, ◌++◌, arith, if◌then◌else◌, All,
  Bool-cases, inl, inr,
}
use mathlib.Core.Path.{subst}
use sshnack.Tables.{find_where, update_where, all_where}

abbrev pub map_row : {A B : Type 0} → (A → B) → Option A → Option B
map_row f none = none
map_row f (some a) = some (f a)

module _ {A : Type 0} where
  pub All-find_where :
      (P : A → Type 0) (p : A → Bool) (rows : List A) (a : A)
      → All P rows
      → find_where p rows ≡ some a
      → P a
  unfolding find_where
  All-find_where P p [] a h e = cc
  All-find_where P p (b ∷ rows) a h e = elim (Bool-cases (p b)) [
    | inl yes_b ↦ (let same : b ≡ a = ground (arith, e, yes_b) in subst P same h.0)
    | inr no_b ↦ All-find_where P p rows a h.1 (ground (arith, e, no_b))
  ]

  pub find_where_holds :
      (p : A → Bool) (rows : List A) (a : A) → find_where p rows ≡ some a → p a ≡ true
  unfolding find_where
  find_where_holds p [] a e = cc
  find_where_holds p (b ∷ rows) a e = ground (arith, find_where_holds p rows a)

  -- A row that is updated under its own key is found with its new content.
  pub find_where-update_where_self :
      (p : A → Bool) (f : A → A) (rows : List A)
      → ((a : A) → p (f a) ≡ p a)
      → find_where p (update_where p f rows) ≡ map_row f (find_where p rows)
  unfolding find_where update_where
  find_where-update_where_self p f [] keeps = refl
  find_where-update_where_self p f (a ∷ rows) keeps =
      ground (arith, keeps a, find_where-update_where_self p f rows keeps)

  -- A row with another key is not touched.
  pub find_where-update_where_other :
      (p q : A → Bool) (f : A → A) (rows : List A)
      → ((a : A) → q (f a) ≡ q a)
      → ((a : A) → p a ≡ true → q a ≡ false)
      → find_where q (update_where p f rows) ≡ find_where q rows
  unfolding find_where update_where
  find_where-update_where_other p q f [] keeps apart = refl
  find_where-update_where_other p q f (a ∷ rows) keeps apart =
      ground (arith, keeps a, apart a, find_where-update_where_other p q f rows keeps apart)

  pub find_where-append :
      (p : A → Bool) (rows : List A) (b : A)
      → find_where p (rows ++ b ∷ [])
        ≡ (elim (find_where p rows) [ some a ↦ some a | none ↦ (if p b then some b else none) ])
  unfolding find_where
  find_where-append p [] b = refl
  find_where-append p (a ∷ rows) b = ground (arith, find_where-append p rows b)

  -- At most one row meets the WHERE.
  abbrev pub Once : (A → Bool) → List A → Type 0
  Once p [] = Unit
  Once p (a ∷ rows) = elim (p a) [ true ↦ find_where p rows ≡ none | false ↦ Once p rows ]

  all_where_of_none :
      (p ok : A → Bool) (rows : List A) → find_where p rows ≡ none → all_where p ok rows ≡ true
  unfolding find_where all_where
  all_where_of_none p ok [] e = refl
  all_where_of_none p ok (a ∷ rows) e = ground (arith, all_where_of_none p ok rows)

  -- An UPDATE of one row passes its CHECK if that row does.
  pub all_where-Once :
      (p ok : A → Bool) (rows : List A) (a : A)
      → Once p rows
      → find_where p rows ≡ some a
      → ok a ≡ true
      → all_where p ok rows ≡ true
  unfolding find_where all_where
  all_where-Once p ok [] a o e h = refl
  all_where-Once p ok (b ∷ rows) a o e h =
      ground (arith, all_where_of_none p ok rows, all_where-Once p ok rows a)
