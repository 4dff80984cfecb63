-- ===== src/Tree.antt =====
-- The AVL tree of src/treeutils.c. A node owns its subtrees, so `cf_tree_node_t **n` is a value
-- that goes in and comes out. `none` is a read through a null pointer.
pub mod Avl
pub mod Balanced
pub mod Order
pub mod Spec
pub mod Size
pub mod History
mod Examples
use Prim.Native.Nat.{Ordering}
use Prim.Native.Nat.Ordering.{lt, eq, gt}
use cforum_upto.Base.{Option, none, some}

-- `enum e_cf_tree_balance`; `even` is CF_TREE_NONE.
pub data Balance : Type 0 where
  even left right : Balance

-- `cf_tree_node_t *`, with `leaf` for NULL.
pub data Tree {ℓ} (D : Type ℓ) : Type ℓ where
  leaf : Tree D
  node : Balance → Tree D → D → Tree D → Tree D

-- The `int` that most functions return: 0 is `unchanged`, 1 is `changed` (the height of the
-- subtree has changed), -1 is `failed`.
pub data Outcome : Type 0 where
  unchanged changed failed : Outcome

abbrev pub Step {ℓ} : Type ℓ → Type ℓ
Step D = Option (Outcome × Tree D)

infixl 5 ◌>>=◌
abbrev pub ◌>>=◌ {ℓ κ} : {A : Type ℓ} {B : Type κ} → Option A → (A → Option B) → Option B
none >>= f = none
some a >>= f = f a

-- The balances of the node and of its left child after a double rotation to the right, by
-- the balance of the node that comes to the top.
abbrev pub balances_right : Balance → Balance × Balance
balances_right left = (right, even)
balances_right right = (even, left)
balances_right even = (even, even)

abbrev pub balances_left : Balance → Balance × Balance
balances_left right = (left, even)
balances_left left = (even, right)
balances_left even = (even, even)

module _ {ℓ} {D : Type ℓ} where
  unfoldable pub rotate_left : Tree D → Option (Tree D)
  rotate_left (node b l x (node rb rl rx rr)) = some (node rb (node b l x rl) rx rr)
  rotate_left leaf = none
  rotate_left (node b l x leaf) = none

  unfoldable pub rotate_right : Tree D → Option (Tree D)
  rotate_right (node b (node lb ll lx lr) x r) = some (node lb ll lx (node b lr x r))
  rotate_right leaf = none
  rotate_right (node b leaf x r) = none

  -- The branch that cf_tree_leftgrown and cf_tree_rightshrunk share. The arguments are the
  -- fields of `*n` but its balance, which is overwritten.
  unfoldable pub double_right : Tree D → D → Tree D → Option (Tree D)
  unfolding rotate_left rotate_right
  double_right (node _ ll lx (node b ml mx mr)) x r = do
    let (nb, lb) = balances_right b
    l ← rotate_left (node lb ll lx (node even ml mx mr))
    rotate_right (node nb l x r)
  double_right leaf x r = none
  double_right (node _ ll lx leaf) x r = none

  -- The branch that cf_tree_rightgrown and cf_tree_leftshrunk share.
  unfoldable pub double_left : Tree D → D → Tree D → Option (Tree D)
  unfolding rotate_left rotate_right
  double_left l x (node _ (node b ml mx mr) rx rr) = do
    let (nb, rb) = balances_left b
    r ← rotate_right (node rb (node even ml mx mr) rx rr)
    rotate_left (node nb l x r)
  double_left l x leaf = none
  double_left l x (node _ leaf rx rr) = none

  abbrev pub with_outcome : Outcome → Option (Tree D) → Step D
  with_outcome s t = do r ← t; some (s, r)

  unfoldable pub leftgrown : Tree D → Step D
  unfolding rotate_right double_right
  leftgrown leaf = none
  leftgrown (node left leaf x r) = none
  leftgrown (node left (node left ll lx lr) x r) =
      with_outcome unchanged (rotate_right (node even (node even ll lx lr) x r))
  leftgrown (node left (node right ll lx lr) x r) =
      with_outcome unchanged (double_right (node right ll lx lr) x r)
  leftgrown (node left (node even ll lx lr) x r) =
      with_outcome unchanged (double_right (node even ll lx lr) x r)
  leftgrown (node right l x r) = some (unchanged, node even l x r)
  leftgrown (node even l x r) = some (changed, node left l x r)

  unfoldable pub rightgrown : Tree D → Step D
  unfolding rotate_left double_left
  rightgrown leaf = none
  rightgrown (node left l x r) = some (unchanged, node even l x r)
  rightgrown (node right l x leaf) = none
  rightgrown (node right l x (node right rl rx rr)) =
      with_outcome unchanged (rotate_left (node even l x (node even rl rx rr)))
  rightgrown (node right l x (node left rl rx rr)) =
      with_outcome unchanged (double_left l x (node left rl rx rr))
  rightgrown (node right l x (node even rl rx rr)) =
      with_outcome unchanged (double_left l x (node even rl rx rr))
  rightgrown (node even l x r) = some (changed, node right l x r)

  unfoldable pub leftshrunk : Tree D → Step D
  unfolding rotate_left double_left
  leftshrunk leaf = none
  leftshrunk (node left l x r) = some (changed, node even l x r)
  leftshrunk (node right l x leaf) = none
  leftshrunk (node right l x (node right rl rx rr)) =
      with_outcome changed (rotate_left (node even l x (node even rl rx rr)))
  leftshrunk (node right l x (node even rl rx rr)) =
      with_outcome unchanged (rotate_left (node right l x (node left rl rx rr)))
  leftshrunk (node right l x (node left rl rx rr)) =
      with_outcome changed (double_left l x (node left rl rx rr))
  leftshrunk (node even l x r) = some (unchanged, node right l x r)

  unfoldable pub rightshrunk : Tree D → Step D
  unfolding rotate_right double_right
  rightshrunk leaf = none
  rightshrunk (node right l x r) = some (changed, node even l x r)
  rightshrunk (node left leaf x r) = none
  rightshrunk (node left (node left ll lx lr) x r) =
      with_outcome changed (rotate_right (node even (node even ll lx lr) x r))
  rightshrunk (node left (node even ll lx lr) x r) =
      with_outcome unchanged (rotate_right (node left (node right ll lx lr) x r))
  rightshrunk (node left (node right ll lx lr) x r) =
      with_outcome changed (double_right (node right ll lx lr) x r)
  rightshrunk (node even l x r) = some (unchanged, node left l x r)

  -- `if(tmp == 1) return f(n); return tmp;`
  abbrev pub settle : (Tree D → Step D) → Outcome → Tree D → Step D
  settle f changed t = f t
  settle f unchanged t = some (unchanged, t)
  settle f failed t = some (failed, t)

-- What cf_tree_findhighest and cf_tree_findlowest leave behind: the dataset written to
-- `target->d`, `*res` and `*n`; `absent` is the return value 0.
pub data Found {ℓ} (D : Type ℓ) : Type ℓ where
  absent : Found D
  taken : D → Outcome → Tree D → Found D

module _ {ℓ} {D : Type ℓ} where
  abbrev pub taking : D → Step D → Option (Found D)
  taking d step = do (s, t) ← step; some (taken d s t)

  abbrev pub find_with : (Tree D → Step D) → (Tree D → Tree D) → Option (Found D) → Option (Found D)
  find_with f rebuild none = none
  find_with f rebuild (some absent) = some absent
  find_with f rebuild (some (taken d s t)) = taking d (settle f s (rebuild t))

  unfoldable pub findhighest : Tree D → Option (Found D)
  unfolding rightshrunk
  findhighest leaf = some absent
  findhighest (node b l x leaf) = some (taken x changed l)
  findhighest (node b l x (node rb rl rx rr)) =
      find_with rightshrunk (λ r. node b l x r) (findhighest (node rb rl rx rr))

  unfoldable pub findlowest : Tree D → Option (Found D)
  unfolding leftshrunk
  findlowest leaf = some absent
  findlowest (node b leaf x r) = some (taken x changed r)
  findlowest (node b (node lb ll lx lr) x r) =
      find_with leftshrunk (λ l. node b l x r) (findlowest (node lb ll lx lr))

  -- The end of cf_tree_remove, from `if((*n)->right)` on.
  unfoldable pub remove_right : Balance → Tree D → Tree D → Step D
  unfolding findlowest rightshrunk
  remove_right b l leaf = some (changed, leaf)
  remove_right b l (node rb rl rx rr) = do
    found ← findlowest (node rb rl rx rr)
    elim found [ absent ↦ some (changed, leaf) | taken d s r ↦ settle rightshrunk s (node b l d r) ]

  -- cf_tree_remove once the key has been found, from `if((*n)->left)` on.
  unfoldable pub remove_root : Balance → Tree D → Tree D → Step D
  unfolding findhighest leftshrunk remove_right
  remove_root b leaf r = remove_right b leaf r
  remove_root b (node lb ll lx lr) r = do
    found ← findhighest (node lb ll lx lr)
    elim found [
      | absent ↦ remove_right b (node lb ll lx lr) r
      | taken d s l ↦ settle leftshrunk s (node b l d r)
    ]

-- `tree->compare`, of which the code uses the sign.
module _ {ℓ} {D : Type ℓ} (compare : D → D → Ordering) where
  unfoldable pub insert : Tree D → D → Step D
  unfolding leftgrown rightgrown
  insert leaf d = some (changed, node even leaf d leaf)
  insert (node b l x r) d =
      let below = insert l d in
      let above = insert r d in
      elim (compare d x) [
        | lt ↦ below >>= λ (s, t). settle leftgrown s (node b t x r)
        | gt ↦ above >>= λ (s, t). settle rightgrown s (node b l x t)
        | eq ↦ some (failed, node b l x r)
      ]

  unfoldable pub remove : Tree D → D → Step D
  unfolding leftshrunk rightshrunk remove_root
  remove leaf k = some (failed, leaf)
  remove (node b l x r) k =
      let below = remove l k in
      let above = remove r k in
      elim (compare k x) [
        | lt ↦ below >>= λ (s, t). settle leftshrunk s (node b t x r)
        | gt ↦ above >>= λ (s, t). settle rightshrunk s (node b l x t)
        | eq ↦ remove_root b l r
      ]

  unfoldable pub find : Tree D → D → Option D
  find leaf k = none
  find (node b l x r) k =
      let below = find l k in
      let above = find r k in elim (compare k x) [ lt ↦ below | gt ↦ above | eq ↦ some x ]
