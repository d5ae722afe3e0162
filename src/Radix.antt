-- ===== src/Radix.antt =====
-- The path tree of server/src/api/router/radix_tree/radix_tree.c: a tree of named nodes, filled by
-- `add_node` and read by `search_node`. A pointer to a node is the node's place in its parent's
-- list, so the writes through it are the new tree that `add_path` gives back. Memory may run out:
-- `grows k` says whether the node that is made with `k` more tokens to come gets its memory.
pub mod Laws
pub mod View
mod Tests
use sshnack.Base.{
  ℕ, Bool, true, false, Option, none, some, List, [], ◌∷◌, ◌==◌, if◌then◌else◌, length, not, ◌&&◌,
}
use sshnack.Base.Int.{ℤ, pos, negsuc}
use sshnack.Base.Text.{Text, str_eq, tokens}

-- `struct Node`, with its children in an array that only grows.
mutual
  pub data Node (P : Type 0) : Type 0 where
    node : Text → Option P → Nodes P → Node P

  pub data Nodes (P : Type 0) : Type 0 where
    nil : Nodes P
    cons : Node P → Nodes P → Nodes P

pub record RadixTree (P : Type 0) : Type 0 where
  pub root : Node P
  pub delimeter : ℕ
  pub wildcard : ℕ

-- The first byte of a name; a C string that is empty begins with its NUL.
abbrev pub first_byte : Text → ℕ
first_byte [] = 0
first_byte (c ∷ _) = c

module _ {P : Type 0} where
  abbrev pub name : Node P → Text
  name (node n _ _) = n

  abbrev pub payload : Node P → Option P
  payload (node _ p _) = p

  abbrev pub children : Node P → Nodes P
  children (node _ _ c) = c

  abbrev pub create_node : Text → Option P → Node P
  create_node n p = node n p nil

  unfoldable pub find_child : Text → Nodes P → Option (Node P)
  find_child t nil = none
  find_child t (cons c cs) = if str_eq (name c) t then some c else find_child t cs

  -- The child at the place where `find_child` stops, written through its pointer.
  unfoldable pub write_child : Text → Node P → Nodes P → Nodes P
  write_child t new nil = nil
  write_child t new (cons c cs) =
      if str_eq (name c) t then cons new cs else cons c (write_child t new cs)

  unfoldable pub add_child : Nodes P → Node P → Nodes P
  add_child nil new = cons new nil
  add_child (cons c cs) new = cons c (add_child cs new)

  abbrev pub with_children : Node P → Nodes P → Node P
  with_children (node n p _) cs = node n p cs

  -- The loop of `add_node`, with its return code.
  unfoldable pub add_path : (ℕ → Bool) → P → List Text → Node P → ℤ × Node P
  add_path grows v [] (node n _ cs) = (pos 0, node n (some v) cs)
  add_path grows v (t ∷ ts) n = elim (find_child t (children n)) [
    | some c ↦
        let (rc, c') = add_path grows v ts c in
        (rc, with_children n (write_child t c' (children n)))
    | none ↦
        let (rc, c') = add_path grows v ts (create_node t none) in
        if grows (length ts)
        then (rc, with_children n (add_child (children n) c'))
        else (negsuc 0, n)
  ]

  unfoldable pub find_wildcard : ℕ → Nodes P → Option (Node P)
  find_wildcard w nil = none
  find_wildcard w (cons c cs) = if first_byte (name c) == w then some c else find_wildcard w cs

  -- The child that one round of `search_node` goes on with.
  unfoldable pub next_child : ℕ → Text → Nodes P → Option (Node P)
  next_child w t cs = elim (find_child t cs) [
    | some c ↦ some c
    | none ↦ if w == 0 then none else find_wildcard w cs
  ]

  -- The loop of `search_node`.
  unfoldable pub search_path : ℕ → List Text → Node P → Option P
  search_path w [] n = payload n
  search_path w (t ∷ ts) n = elim (next_child w t (children n)) [
    | none ↦ none
    | some c ↦ search_path w ts c
  ]

  -- The tree that `init_tree` fills in.
  unfoldable pub new_tree : ℕ → ℕ → RadixTree P
  new_tree d w = record { root = create_node [] none; delimeter = d; wildcard = w }

  -- Whether `malloc` gives the tree and `create_node` its root are the first two arguments; `none`
  -- is NULL.
  unfoldable pub init_tree : Bool → Bool → ℕ → ℕ → Option (RadixTree P)
  unfolding new_tree
  init_tree tree_given root_given d w =
      if not tree_given then none else if not root_given then none else some (new_tree d w)

  -- `strdup` has given the copy of the path: NULL is not modelled, with which `strtok` would be called.
  unfoldable pub add_node : (ℕ → Bool) → RadixTree P → Text → P → ℤ × RadixTree P
  add_node grows tree path v =
      let (rc, root') = add_path grows v (tokens tree.delimeter path) tree.root in
      (rc, record tree { root = root' })

  unfoldable pub search_node : RadixTree P → Text → Option P
  search_node tree path = search_path tree.wildcard (tokens tree.delimeter path) tree.root
