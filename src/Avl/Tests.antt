-- ===== src/Avl/Tests.antt =====
-- Trees on which the theorems about src/data_structures/avl_tree.cpp are applied.
use custom_redis.Base.{ℕ, refl, [], ◌∷◌, ◌==◌, Returns, arith}
use custom_redis.Avl.{Tree, leaf, node, avl_del}
use custom_redis.Avl.Removal.{Removed}
use custom_redis.Avl.Del.{avl_del-Removed}

-- 1, 2, 3 and 4, with 2 at the root.
abbrev four : Tree ℕ
four = node 2 3 4 (node 1 1 1 leaf leaf) (node 4 2 2 (node 3 1 1 leaf leaf) leaf)

-- A node with two children is taken out, and the tree is balanced again.
avl_del-Removed_example : Returns (avl_del (λ x. x == 2) four) (Removed (1 ∷ 3 ∷ 4 ∷ []) 4)
avl_del-Removed_example =
    avl_del-Removed (λ x. x == 2) four (1 ∷ []) (3 ∷ 4 ∷ []) 2 (omega arith) (omega arith) refl refl
      (refl, tt) (refl, (refl, tt))
