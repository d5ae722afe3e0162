-- ===== src/Radix/Tests.antt =====
-- Runs of radix_tree.c, and the theorems at concrete trees.
use sshnack.Base.{ℕ, ◌≡◌, refl, Bool, true, none, some, [], ◌∷◌, ltb, if◌then◌else◌, ◌&&◌}
use sshnack.Base.Int.{pos, negsuc, eqb_ℤ}
use sshnack.Base.Text.{codes, tokens, str_eq}
use sshnack.Radix.{
  RadixTree, new_tree, add_node, search_node, add_path, find_child, write_child, add_child,
  search_path, next_child, find_wildcard,
}
use sshnack.Radix.Laws.{path_eq}
use sshnack.Radix.View.{stored, stored-add_node, search_node-add_node}

abbrev plenty : ℕ → Bool
plenty _ = true

-- Memory for the last node of a path only.
abbrev scarce : ℕ → Bool
scarce k = ltb k 1

tree : RadixTree ℕ
unfolding new_tree add_node add_path tokens str_eq find_child write_child add_child
tree =
    (add_node plenty (add_node plenty (new_tree b'/' b':') (codes "/stock/:slot_id") 1).1
      (codes "/stock") 2).1

tree_wildcard : search_node tree (codes "//stock/17/") ≡ some 1
unfolding tree search_node search_path next_child find_wildcard
tree_wildcard = refl

-- There is no way back from a literal child: below it the wildcard is not tried.
tree_no_backtracking :
    search_node (add_node plenty tree (codes "/stock/new") 3).1 (codes "/stock/new/x") ≡ none
unfolding tree search_node search_path next_child find_wildcard
tree_no_backtracking = refl

tree-scarce : (add_node scarce tree (codes "/a/b") 4).0 ≡ negsuc 0
unfolding tree
tree-scarce = refl

search_node-add_node_example :
    search_node (add_node plenty tree (codes "/stock/new") 3).1 (codes "/stock/new") ≡ some 3
unfolding tree
search_node-add_node_example = search_node-add_node plenty tree (codes "/stock/new") 3 refl

stored-add_node_example :
    stored (add_node scarce tree (codes "/stock/new") 3).1 (codes "stock" ∷ []) ≡ (
      if eqb_ℤ (add_node scarce tree (codes "/stock/new") 3).0 (pos 0)
        && path_eq (tokens tree.delimeter (codes "/stock/new")) (codes "stock" ∷ [])
      then some 3
      else stored tree (codes "stock" ∷ []))
stored-add_node_example = stored-add_node scarce tree (codes "/stock/new") 3 (codes "stock" ∷ [])
