-- ===== src/Avl.antt =====
-- The AVL tree: src/data_structures/avl_tree.h and src/data_structures/avl_tree.cpp.
-- A node carries an item, the `ZNode` around it in the source. What the parent pointers of a node
-- reach is its path: the ancestors, the nearest first, each with its other subtree. A pointer to a
-- node of the tree is a test `same` that holds at that node alone.
-- `none` is a read through NULL, or a failed assertion.
pub mod Shape
pub mod Turns
pub mod LeftTall
pub mod RightTall
pub mod Fix
pub mod Climb
pub mod Paths
pub mod Replace
pub mod Removal
pub mod Del
mod Tests
use custom_redis.Base.{
  ℕ, ◌+◌, ◌^◌, ◌%◌, max, Bool, List, [], ◌∷◌, ◌++◌, Option, none, some, ltb, ◌==◌, if◌then◌else◌,
  ◌>>=◌,
}

pub data Tree {ℓ} (A : Type ℓ) : Type ℓ where
  leaf : Tree A
  node : (item : A) (height size : ℕ) (left right : Tree A) → Tree A

-- One ancestor: the side on which the path goes down, the ancestor's fields, its other subtree.
pub data Crumb {ℓ} (A : Type ℓ) : Type ℓ where
  went_left : (item : A) (height size : ℕ) (right : Tree A) → Crumb A
  went_right : (item : A) (height size : ℕ) (left : Tree A) → Crumb A

-- Where a node stands.
pub record Place {ℓ} (A : Type ℓ) : Type ℓ where
  pub item : A
  pub height : ℕ
  pub size : ℕ
  pub left : Tree A
  pub right : Tree A
  pub path : List (Crumb A)

-- The value of a sum that is stored as `uint32_t`.
unfoldable pub uint32 : ℕ → ℕ
uint32 n = n % 2 ^ 32

module _ {ℓ} {A : Type ℓ} where
  unfoldable pub avl_size : Tree A → ℕ
  avl_size leaf = 0
  avl_size (node _ _ size _ _) = size

  unfoldable pub avl_init : A → Tree A
  avl_init item = node item 1 1 leaf leaf

  unfoldable pub avl_height : Tree A → ℕ
  avl_height leaf = 0
  avl_height (node _ _ _ left right) = uint32 (1 + max (avl_height left) (avl_height right))

  unfoldable pub update_node : Tree A → Option (Tree A)
  update_node leaf = none
  update_node (node item _ _ left right) = some (
      node item (uint32 (1 + max (avl_height left) (avl_height right)))
        (uint32 (1 + avl_size left + avl_size right)) left right)

  unfoldable pub rotate_left : Tree A → Option (Tree A)
  rotate_left (node a h s left (node b g n inner right)) = do
    curr_root ← update_node (node a h s left inner)
    update_node (node b g n curr_root right)
  rotate_left _ = none

  unfoldable pub rotate_right : Tree A → Option (Tree A)
  rotate_right (node a h s (node b g n left inner) right) = do
    curr_root ← update_node (node a h s inner right)
    update_node (node b g n left curr_root)
  rotate_right _ = none

  -- The children of `avl_fix`'s node, before it is rotated itself.
  unfoldable pub lean_left : Tree A → Option (Tree A)
  lean_left leaf = none
  lean_left (node a h s left right) =
      if ltb (avl_height left) (avl_height right)
      then rotate_left (node a h s left right)
      else some (node a h s left right)

  unfoldable pub lean_right : Tree A → Option (Tree A)
  lean_right leaf = none
  lean_right (node a h s left right) =
      if ltb (avl_height right) (avl_height left)
      then rotate_right (node a h s left right)
      else some (node a h s left right)

  unfoldable pub straighten_left : Tree A → Option (Tree A)
  straighten_left leaf = none
  straighten_left (node a h s left right) = do
    left ← lean_left left
    rotate_right (node a h s left right)

  unfoldable pub straighten_right : Tree A → Option (Tree A)
  straighten_right leaf = none
  straighten_right (node a h s left right) = do
    right ← lean_right right
    rotate_left (node a h s left right)

  -- The rotations of `avl_fix`, from the heights of the two subtrees.
  unfoldable pub turn : ℕ → ℕ → Tree A → Option (Tree A)
  turn left right t =
      if left == uint32 (right + 2)
      then straighten_left t
      else if right == uint32 (left + 2)
      then straighten_right t
      else some t

  -- One round of `avl_fix`'s loop.
  unfoldable pub fix_node : Tree A → Option (Tree A)
  fix_node leaf = none
  fix_node (node a h s left right) = do
    t ← update_node (node a h s left right)
    turn (avl_height left) (avl_height right) t

  unfoldable pub plug : Crumb A → Tree A → Tree A
  plug (went_left a h s right) t = node a h s t right
  plug (went_right a h s left) t = node a h s left t

  -- The loop of `avl_fix` from the parent of a subtree on, and from the node itself.
  unfoldable pub climb : Tree A → List (Crumb A) → Option (Tree A)
  climb t [] = some t
  climb t (c ∷ path) = do t ← fix_node (plug c t); climb t path

  unfoldable pub avl_fix : Tree A → List (Crumb A) → Option (Tree A)
  avl_fix t path = do t ← fix_node t; climb t path

  unfoldable pub choose : Option (Place A) → Option (Place A) → Option (Place A)
  choose (some p) _ = some p
  choose none o = o

  -- The node that `same` points to.
  unfoldable pub find_place : (A → Bool) → Tree A → List (Crumb A) → Option (Place A)
  find_place same leaf path = none
  find_place same (node a h s left right) path =
      if same a
      then some (record { item = a; height = h; size = s; left = left; right = right; path = path })
      else choose (find_place same left (went_left a h s right ∷ path))
          (find_place same right (went_right a h s left ∷ path))

  -- The one child, which `assert` makes sure of.
  unfoldable pub only_child : Tree A → Tree A → Option (Tree A)
  only_child leaf right = some right
  only_child left leaf = some left
  only_child _ _ = none

  unfoldable pub del_simple : Place A → Option (Tree A)
  del_simple p = only_child p.left p.right >>= λ child. climb child p.path

  -- The leftmost node of the subtree `node a h s left right`.
  unfoldable pub leftmost : A → ℕ → ℕ → Tree A → Tree A → List (Crumb A) → Place A
  leftmost a h s leaf right path = record {
    item = a;
    height = h;
    size = s;
    left = leaf;
    right = right;
    path = path;
  }
  leftmost a h s (node b g n l r) right path = leftmost b g n l r (went_left a h s right ∷ path)

  -- `*victim = *to_delete`, and the links to it: the item at that node is the victim's.
  unfoldable pub replace : (A → Bool) → A → Tree A → Tree A
  replace same b leaf = leaf
  replace same b (node a h s left right) =
      node (if same a then b else a) h s (replace same b left) (replace same b right)

  unfoldable pub del_inner : (A → Bool) → Place A → Tree A → Option (Tree A)
  del_inner same p leaf = none
  del_inner same p (node b g n l r) =
      let victim = leftmost b g n l r (went_right p.item p.height p.size p.left ∷ p.path) in
      del_simple victim >>= λ root. avl_fix (replace same victim.item root) []

  unfoldable pub del_place : (A → Bool) → Place A → Tree A → Tree A → Option (Tree A)
  del_place same p leaf right = del_simple p
  del_place same p left leaf = del_simple p
  del_place same p left right = del_inner same p right

  -- The node that `same` points to is taken out.
  unfoldable pub avl_del : (A → Bool) → Tree A → Option (Tree A)
  avl_del same root = find_place same root [] >>= λ p. del_place same p p.left p.right
