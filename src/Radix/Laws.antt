-- ===== src/Radix/Laws.antt =====
-- `add_node` and `search_node` of radix_tree.c together.
use sshnack.Base.{
  ℕ, ◌≡◌, refl, Bool, none, some, List, [], ◌∷◌, arith, if◌then◌else◌, true, false, ◌&&◌, inl, inr,
  length, Option-cases, Bool-cases,
}
use sshnack.Base.Int.{pos, negsuc, eqb_ℤ}
use sshnack.Base.Text.{Text, str_eq, str_eq_sound, str_eq_iff, str_eq_refl}
use sshnack.Radix.{
  Node, Nodes, node, nil, cons, name, payload, children, create_node, find_child, write_child,
  add_child, add_path, next_child, search_path,
}

-- The same tokens, in the same order.
unfoldable pub path_eq : List Text → List Text → Bool
path_eq [] [] = true
path_eq [] (_ ∷ _) = false
path_eq (_ ∷ _) [] = false
path_eq (t ∷ ts) (u ∷ us) = str_eq t u && path_eq ts us

pub path_eq_refl : (ts : List Text) → path_eq ts ts ≡ true
unfolding path_eq
path_eq_refl [] = refl
path_eq_refl (t ∷ ts) = ground (arith, str_eq_refl t, path_eq_refl ts)

module _ {P : Type 0} where
  name-add_path :
      (grows : ℕ → Bool) (v : P) (ts : List Text) (n : Node P)
      → name (add_path grows v ts n).1 ≡ name n
  unfolding add_path
  name-add_path grows v [] (node n p cs) = refl
  name-add_path grows v (t ∷ ts) (node n p cs) = ground arith

  payload-add_path :
      (grows : ℕ → Bool) (v : P) (t : Text) (ts : List Text) (n : Node P)
      → payload (add_path grows v (t ∷ ts) n).1 ≡ payload n
  unfolding add_path
  payload-add_path grows v t ts (node n p cs) = ground arith

  find_child-name : (t : Text) (cs : Nodes P) (c : Node P) → find_child t cs ≡ some c → name c ≡ t
  unfolding find_child
  find_child-name t nil c h = cc
  find_child-name t (cons d cs) c h =
      ground (arith, find_child-name t cs c, str_eq_sound (name d) t)

  find_child-write_child :
      (t u : Text) (new c : Node P) (cs : Nodes P)
      → name new ≡ t
      → find_child t cs ≡ some c
      → find_child u (write_child t new cs) ≡ (if str_eq t u then some new else find_child u cs)
  unfolding find_child write_child
  find_child-write_child t u new c nil e h = cc
  find_child-write_child t u new c (cons d cs) e h = ground (
    arith,
    find_child-write_child t u new c cs e,
    str_eq_iff (name d) t,
    str_eq_iff (name d) u,
    str_eq_iff (name new) u,
    str_eq_iff t u,
  )

  find_child-add_child :
      (t u : Text) (new : Node P) (cs : Nodes P)
      → name new ≡ t
      → find_child t cs ≡ none
      → find_child u (add_child cs new) ≡ (if str_eq t u then some new else find_child u cs)
  unfolding find_child add_child
  find_child-add_child t u new nil e h = ground (arith, str_eq_iff (name new) u, str_eq_iff t u)
  find_child-add_child t u new (cons d cs) e h = ground (
    arith,
    find_child-add_child t u new cs e,
    str_eq_iff (name d) t,
    str_eq_iff (name d) u,
    str_eq_iff t u,
  )

  -- One level of `add_node`: the child on the path is the extended one, and the others stay.
  find_child-add_path :
      (grows : ℕ → Bool) (v : P) (t u : Text) (ts : List Text) (n c : Node P)
      → find_child t (children n) ≡ some c
      → find_child u (children (add_path grows v (t ∷ ts) n).1)
        ≡ (if str_eq t u then some (add_path grows v ts c).1 else find_child u (children n))
  unfolding add_path
  find_child-add_path grows v t u ts (node m p cs) c h = ground (
    arith,
    find_child-write_child t u (add_path grows v ts c).1 c cs,
    name-add_path grows v ts c,
    find_child-name t cs c h,
  )

  find_child-add_path_new :
      (grows : ℕ → Bool) (v : P) (t u : Text) (ts : List Text) (n : Node P)
      → find_child t (children n) ≡ none
      → grows (length ts) ≡ true
      → find_child u (children (add_path grows v (t ∷ ts) n).1) ≡ (
          if str_eq t u
          then some (add_path grows v ts (create_node t none)).1
          else find_child u (children n))
  unfolding add_path
  find_child-add_path_new grows v t u ts (node m p cs) h g = ground (
    arith,
    find_child-add_child t u (add_path grows v ts (create_node t none)).1 cs,
    name-add_path grows v ts (create_node t none),
  )

  code-add_path_old :
      (grows : ℕ → Bool) (v : P) (t : Text) (ts : List Text) (n c : Node P)
      → find_child t (children n) ≡ some c
      → (add_path grows v (t ∷ ts) n).0 ≡ (add_path grows v ts c).0
  unfolding add_path
  code-add_path_old grows v t ts (node m p cs) c h = ground arith

  code-add_path_new :
      (grows : ℕ → Bool) (v : P) (t : Text) (ts : List Text) (n : Node P)
      → find_child t (children n) ≡ none
      → grows (length ts) ≡ true
      → (add_path grows v (t ∷ ts) n).0 ≡ (add_path grows v ts (create_node t none)).0
  unfolding add_path
  code-add_path_new grows v t ts (node m p cs) h g = ground arith

  add_path_full :
      (grows : ℕ → Bool) (v : P) (t : Text) (ts : List Text) (n : Node P)
      → find_child t (children n) ≡ none
      → grows (length ts) ≡ false
      → add_path grows v (t ∷ ts) n ≡ (negsuc 0, n)
  unfolding add_path
  add_path_full grows v t ts (node m p cs) h g = ground arith

  search_path-create_node :
      (t : Text) (us : List Text) → search_path 0 us (create_node {P = P} t none) ≡ none
  unfolding search_path next_child find_child
  search_path-create_node t [] = refl
  search_path-create_node t (u ∷ us) = refl

  -- What a lookup without a wildcard finds after `add_node`'s loop, whichever way that ends.
  pub search_path-add_path :
      (grows : ℕ → Bool) (v : P) (ts us : List Text) (n : Node P)
      → search_path 0 us (add_path grows v ts n).1 ≡ (
          if eqb_ℤ (add_path grows v ts n).0 (pos 0) && path_eq ts us
          then some v
          else search_path 0 us n)
  unfolding path_eq search_path next_child
  search_path-add_path grows v [] [] (node m p cs) = unfold add_path in refl
  search_path-add_path grows v [] (u ∷ us) (node m p cs) = unfold add_path in refl
  search_path-add_path grows v (t ∷ ts) [] n = ground (arith, payload-add_path grows v t ts n)
  search_path-add_path grows v (t ∷ ts) (u ∷ us) n =
      elim (Option-cases (find_child t (children n))) [
        | inr (c, e) ↦ ground (
          arith,
          e,
          str_eq_iff t u,
          find_child-add_path grows v t u ts n c e,
          code-add_path_old grows v t ts n c e,
          search_path-add_path grows v ts us c,
        )
        | inl e ↦ elim (Bool-cases (grows (length ts))) [
          | inl g ↦ ground (
            arith,
            e,
            str_eq_iff t u,
            find_child-add_path_new grows v t u ts n e g,
            code-add_path_new grows v t ts n e g,
            search_path-add_path grows v ts us (create_node t none),
            search_path-create_node t us,
          )
          | inr g ↦ ground (arith, add_path_full grows v t ts n e g)
        ]
      ]

  -- A path that is stored without a wildcard is found with one, at the same payload.
  pub search_path_exact :
      (w : ℕ) (us : List Text) (n : Node P) (v : P)
      → search_path 0 us n ≡ some v
      → search_path w us n ≡ some v
  unfolding search_path next_child
  search_path_exact w [] n v h = h
  search_path_exact w (u ∷ us) n v h = elim (Option-cases (find_child u (children n))) [
    | inl e ↦ ground (arith, e)
    | inr (c, e) ↦ ground (arith, e, search_path_exact w us c v)
  ]
