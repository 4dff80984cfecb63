-- ===== src/Tree/History.antt =====
-- Whole runs of the operations of src/treeutils.c on one tree.
use Prim.Native.Nat.{Ordering}
use cforum_upto.Base.{ℕ, ◌≡◌, refl, Bool, Option, none, some, List, [], ◌∷◌}
use cforum_upto.Tree.{Tree, unchanged, changed, failed, Step, ◌>>=◌, insert, remove}
use cforum_upto.Tree.Avl.{IsAvl, Grown, Shrunk}
use cforum_upto.Tree.Order.{IsOrder, IsSorted}
use cforum_upto.Tree.Balanced.{insert-Grown, remove-Shrunk}
use cforum_upto.Tree.Spec.{in_order, accepted, Shows, list_insert, list_remove}
use cforum_upto.Tree.Spec.Insert.{insert-Shows, list_insert-IsSorted}
use cforum_upto.Tree.Spec.Remove.{remove-Shows, list_remove-IsSorted}

-- One call on the tree, with its argument.
pub data Call {ℓ} (D : Type ℓ) : Type ℓ where
  inserting : D → Call D
  removing : D → Call D

module _ {ℓ} {D : Type ℓ} (compare : D → D → Ordering) where
  abbrev pub call : Call D → Tree D → Step D
  call (inserting d) t = insert compare t d
  call (removing k) t = remove compare t k

  abbrev pub list_call : Call D → List D → List D
  list_call (inserting d) xs = (list_insert compare d xs).1
  list_call (removing k) xs = (list_remove compare k xs).1

  -- The calls one after the other; `none` if one of them reads a null pointer.
  unfoldable pub run : List (Call D) → Tree D → Option (Tree D)
  run [] t = some t
  run (c ∷ cs) t = do (_, u) ← call c t; run cs u

  unfoldable pub replay : List (Call D) → List D → List D
  replay [] xs = xs
  replay (c ∷ cs) xs = replay cs (list_call c xs)

  -- What holds of a tree between two calls.
  pub record IsValid (t : Tree D) : Type ℓ where
    pub balanced : IsAvl t
    pub sorted : IsSorted compare (in_order t)

  -- The call did not fault, left a valid tree, and did to its entries what a list operation did.
  abbrev pub Delivers : Bool × List D → Step D → Type ℓ
  Delivers p none = Unit {ℓ} × ⊥
  Delivers p (some (s, u)) = IsValid u × (accepted s ≡ p.0) × (in_order u ≡ p.1)

  -- What a run of calls ends with: no fault, a valid tree, and the entries `xs`.
  abbrev pub Ends : List D → Option (Tree D) → Type ℓ
  Ends xs none = Unit {ℓ} × ⊥
  Ends xs (some u) = IsValid u × (in_order u ≡ xs)

  Delivers-of_Grown :
      (p : Bool × List D) (n : ℕ) (step : Step D)
      → Grown n step
      → Shows p.0 p.1 step
      → IsSorted compare p.1
      → Delivers p step
  Delivers-of_Grown p n none g h s = absurd g
  Delivers-of_Grown p n (some (changed, u)) g h s =
      (record { balanced = g.0; sorted = rw (h.1) s }, h.0, h.1)
  Delivers-of_Grown p n (some (unchanged, u)) g h s =
      (record { balanced = g.0; sorted = rw (h.1) s }, h.0, h.1)
  Delivers-of_Grown p n (some (failed, u)) g h s =
      (record { balanced = g.0; sorted = rw (h.1) s }, h.0, h.1)

  Delivers-of_Shrunk :
      (p : Bool × List D) (n : ℕ) (step : Step D)
      → Shrunk n step
      → Shows p.0 p.1 step
      → IsSorted compare p.1
      → Delivers p step
  Delivers-of_Shrunk p n none g h s = absurd g
  Delivers-of_Shrunk p n (some (changed, u)) g h s =
      (record { balanced = g.0; sorted = rw (h.1) s }, h.0, h.1)
  Delivers-of_Shrunk p n (some (unchanged, u)) g h s =
      (record { balanced = g.0; sorted = rw (h.1) s }, h.0, h.1)
  Delivers-of_Shrunk p n (some (failed, u)) g h s =
      (record { balanced = g.0; sorted = rw (h.1) s }, h.0, h.1)

module _ {ℓ} {D : Type ℓ} {compare : D → D → Ordering} (o : IsOrder compare) where
  -- If `compare` is an order and the tree is balanced and sorted, cf_tree_insert reads no null
  -- pointer and leaves a balanced sorted tree, whose entries are those of the insertion into the
  -- sorted list; it returns -1 exactly where that insertion finds an equal entry.
  pub insert-Delivers :
      (t : Tree D) (d : D)
      → IsValid compare t
      → Delivers compare (list_insert compare d (in_order t)) (insert compare t d)
  insert-Delivers t d v =
      Delivers-of_Grown compare _ _ _ (insert-Grown compare t d v.balanced)
        (insert-Shows o t d v.sorted) (list_insert-IsSorted o d _ v.sorted)

  -- If `compare` is an order and the tree is balanced and sorted, cf_tree_remove reads no null
  -- pointer and leaves a balanced sorted tree, whose entries are those of the removal from the
  -- sorted list; it returns -1 exactly where that removal finds no equal entry.
  pub remove-Delivers :
      (t : Tree D) (k : D)
      → IsValid compare t
      → Delivers compare (list_remove compare k (in_order t)) (remove compare t k)
  remove-Delivers t k v =
      Delivers-of_Shrunk compare _ _ _ (remove-Shrunk compare t k v.balanced)
        (remove-Shows o t k v.sorted) (list_remove-IsSorted o k _ v.sorted)

  then-Ends :
      (cs : List (Call D)) (p : Bool × List D) (step : Step D)
      → Delivers compare p step
      → ((u : Tree D)
          → IsValid compare u
          → Ends compare (replay compare cs (in_order u)) (run compare cs u))
      → Ends compare (replay compare cs p.1) (step >>= λ (_, u). run compare cs u)
  then-Ends cs p none d next = d
  then-Ends cs p (some (s, u)) d next = rw (← d.2) (next u d.0)

  -- If `compare` is an order, every run of cf_tree_insert and cf_tree_remove from a balanced
  -- sorted tree reads no null pointer and ends in a balanced sorted tree, whose entries are those
  -- of the same calls on the sorted list.
  pub run-Ends :
      (cs : List (Call D)) (t : Tree D)
      → IsValid compare t
      → Ends compare (replay compare cs (in_order t)) (run compare cs t)
  unfolding run replay
  run-Ends [] t v = (v, refl)
  run-Ends (inserting d ∷ cs) t v = then-Ends cs _ _ (insert-Delivers t d v) (run-Ends cs)
  run-Ends (removing k ∷ cs) t v = then-Ends cs _ _ (remove-Delivers t k v) (run-Ends cs)
