-- ===== src/Tree/Examples.antt =====
-- Runs of the tree of src/treeutils.c, and its theorems at them.
use Prim.Native.Nat.{compare}
use cforum_upto.Base.{ℕ, ◌≡◌, refl, true, some, List, [], ◌∷◌, arith}
use cforum_upto.Tree.{even, left, right, Tree, leaf, node, changed, insert, remove, find}
use cforum_upto.Tree.Avl.{Grown}
use cforum_upto.Tree.Balanced.{insert-Grown}
use cforum_upto.Tree.Order.{IsOrder}
use cforum_upto.Tree.Spec.{find-list_find}
use cforum_upto.Tree.History.{
  Call, inserting, run, replay, IsValid, Delivers, insert-Delivers, remove-Delivers, Ends, run-Ends,
}

compare-IsOrder : IsOrder compare
compare-IsOrder = ground arith

-- Seven keys whose insertion takes two single and one double rotation.
abbrev calls : List (Call ℕ)
calls =
    inserting 1
    ∷ inserting 2
    ∷ inserting 3
    ∷ inserting 7
    ∷ inserting 5
    ∷ inserting 6
    ∷ inserting 4
    ∷ []

abbrev tree : Tree ℕ
tree =
    node left (node right (node even leaf 1 leaf) 2 (node right leaf 3 (node even leaf 4 leaf))) 5
      (node left (node even leaf 6 leaf) 7 leaf)

calls-run : run compare calls leaf ≡ some tree
unfolding run insert
calls-run = refl

tree-IsValid : IsValid compare tree
tree-IsValid = record { balanced = omega arith; sorted = ground arith }

leaf-IsValid : IsValid {D = ℕ} compare leaf
leaf-IsValid = record { balanced = tt; sorted = tt }

-- The removal of the root takes the highest key of the left subtree.
remove_run :
    remove compare tree 5
    ≡ some (
      changed,
      node even
          (node even (node even leaf 1 leaf) 2 (node even leaf 3 leaf))
          4
          (node left (node even leaf 6 leaf) 7 leaf),
    )
unfolding remove
remove_run = refl

insert-Delivers_example :
    Delivers compare (true, 1 ∷ 2 ∷ 3 ∷ 4 ∷ 5 ∷ 6 ∷ 7 ∷ 8 ∷ []) (insert compare tree 8)
insert-Delivers_example = insert-Delivers compare-IsOrder tree 8 tree-IsValid

remove-Delivers_example :
    Delivers compare (true, 1 ∷ 2 ∷ 3 ∷ 4 ∷ 6 ∷ 7 ∷ []) (remove compare tree 5)
remove-Delivers_example = remove-Delivers compare-IsOrder tree 5 tree-IsValid

run-Ends_example : Ends compare (1 ∷ 2 ∷ 3 ∷ 4 ∷ 5 ∷ 6 ∷ 7 ∷ []) (run compare calls leaf)
unfolding replay
run-Ends_example = run-Ends compare-IsOrder calls leaf leaf-IsValid

insert-Grown_example : Grown 4 (insert compare tree 8)
insert-Grown_example = insert-Grown compare tree 8 tree-IsValid.balanced

find-list_find_example : find compare tree 6 ≡ some 6
find-list_find_example = find-list_find compare-IsOrder tree 6 tree-IsValid.sorted
