-- ===== src/Radix/View.antt =====
-- The tree of radix_tree.c as a finite map from token lists to payloads.
use sshnack.Base.{ℕ, ◌≡◌, Bool, some, List, arith, if◌then◌else◌, ◌&&◌, Option}
use sshnack.Base.Int.{pos, eqb_ℤ}
use sshnack.Base.Text.{Text, tokens}
use sshnack.Radix.{RadixTree, search_path, add_node, search_node}
use sshnack.Radix.Laws.{path_eq, path_eq_refl, search_path-add_path, search_path_exact}

module _ {P : Type 0} where
  -- The abstract content: what is stored at exactly these tokens.
  abbrev pub stored : RadixTree P → List Text → Option P
  stored tree ts = search_path 0 ts tree.root

  -- `add_node` is an update of the map at the tokens of its path, and of nothing else; where it
  -- runs out of memory and returns -1 the map is unchanged.
  pub stored-add_node :
      (grows : ℕ → Bool) (tree : RadixTree P) (path : Text) (v : P) (us : List Text)
      → stored (add_node grows tree path v).1 us ≡ (
          if eqb_ℤ (add_node grows tree path v).0 (pos 0) && path_eq (tokens tree.delimeter path) us
          then some v
          else stored tree us)
  unfolding add_node
  stored-add_node grows tree path v us =
      search_path-add_path grows v (tokens tree.delimeter path) us tree.root

  -- A path that `add_node` added with return code 0 is found by `search_node`, in every tree and
  -- under every wildcard.
  pub search_node-add_node :
      (grows : ℕ → Bool) (tree : RadixTree P) (path : Text) (v : P)
      → (add_node grows tree path v).0 ≡ pos 0
      → search_node (add_node grows tree path v).1 path ≡ some v
  unfolding add_node search_node
  search_node-add_node grows tree path v h =
      let ts = tokens tree.delimeter path in
      search_path_exact tree.wildcard ts _ v
        (ground (arith, path_eq_refl ts, search_path-add_path grows v ts ts tree.root))
