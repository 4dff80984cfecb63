-- ===== src/Tree/Spec.antt =====
-- The tree of src/treeutils.c as a sorted list without duplicates.
pub mod Insert
pub mod Remove
use Prim.Native.Nat.{Ordering}
use Prim.Native.Nat.Ordering.{lt, eq, gt}
use cforum_upto.Base.{
  ◌≡◌, refl, Bool, true, false, Option, none, some, List, [], ◌∷◌, ◌++◌, append_assoc, arith,
  Ordering-cases, inl, inr,
}
use cforum_upto.Tree.{
  even, left, right, Tree, leaf, node, Outcome, unchanged, changed, failed, Step, leftgrown,
  rightgrown, leftshrunk, rightshrunk, find,
}
use cforum_upto.Tree.Order.{
  IsOrder, All, IsSorted, IsSorted-left, IsSorted-right, IsSorted-before, gt_before, eq_before,
}

abbrev pub accepted : Outcome → Bool
accepted failed = false
accepted changed = true
accepted unchanged = true

module _ {ℓ} {D : Type ℓ} where
  -- The entries of a tree from left to right.
  abbrev pub in_order : Tree D → List D
  in_order leaf = []
  in_order (node b l x r) = in_order l ++ (x ∷ in_order r)

  -- What a call that did not fault shows to its caller.
  abbrev pub Shows : Bool → List D → Step D → Type ℓ
  Shows a xs none = Unit
  Shows a xs (some (s, t)) = (accepted s ≡ a) × (in_order t ≡ xs)

  pub leftgrown-Shows : (t : Tree D) → Shows true (in_order t) (leftgrown t)
  unfolding leftgrown
  leftgrown-Shows leaf = tt
  leftgrown-Shows (node even l x r) = (refl, refl)
  leftgrown-Shows (node right l x r) = (refl, refl)
  leftgrown-Shows (node left leaf x r) = tt
  leftgrown-Shows (node left (node left ll lx lr) x r) = (refl, simp append_assoc)
  leftgrown-Shows (node left (node even ll lx leaf) x r) = tt
  leftgrown-Shows (node left (node even ll lx (node b ml mx mr)) x r) = (refl, simp append_assoc)
  leftgrown-Shows (node left (node right ll lx leaf) x r) = tt
  leftgrown-Shows (node left (node right ll lx (node b ml mx mr)) x r) = (refl, simp append_assoc)

  pub rightgrown-Shows : (t : Tree D) → Shows true (in_order t) (rightgrown t)
  unfolding rightgrown
  rightgrown-Shows leaf = tt
  rightgrown-Shows (node even l x r) = (refl, refl)
  rightgrown-Shows (node left l x r) = (refl, refl)
  rightgrown-Shows (node right l x leaf) = tt
  rightgrown-Shows (node right l x (node right rl rx rr)) = (refl, simp append_assoc)
  rightgrown-Shows (node right l x (node even leaf rx rr)) = tt
  rightgrown-Shows (node right l x (node even (node b ml mx mr) rx rr)) = (refl, simp append_assoc)
  rightgrown-Shows (node right l x (node left leaf rx rr)) = tt
  rightgrown-Shows (node right l x (node left (node b ml mx mr) rx rr)) = (refl, simp append_assoc)

  pub leftshrunk-Shows : (t : Tree D) → Shows true (in_order t) (leftshrunk t)
  unfolding leftshrunk
  leftshrunk-Shows leaf = tt
  leftshrunk-Shows (node even l x r) = (refl, refl)
  leftshrunk-Shows (node left l x r) = (refl, refl)
  leftshrunk-Shows (node right l x leaf) = tt
  leftshrunk-Shows (node right l x (node right rl rx rr)) = (refl, simp append_assoc)
  leftshrunk-Shows (node right l x (node even rl rx rr)) = (refl, simp append_assoc)
  leftshrunk-Shows (node right l x (node left leaf rx rr)) = tt
  leftshrunk-Shows (node right l x (node left (node b ml mx mr) rx rr)) = (refl, simp append_assoc)

  pub rightshrunk-Shows : (t : Tree D) → Shows true (in_order t) (rightshrunk t)
  unfolding rightshrunk
  rightshrunk-Shows leaf = tt
  rightshrunk-Shows (node even l x r) = (refl, refl)
  rightshrunk-Shows (node right l x r) = (refl, refl)
  rightshrunk-Shows (node left leaf x r) = tt
  rightshrunk-Shows (node left (node left ll lx lr) x r) = (refl, simp append_assoc)
  rightshrunk-Shows (node left (node even ll lx lr) x r) = (refl, simp append_assoc)
  rightshrunk-Shows (node left (node right ll lx leaf) x r) = tt
  rightshrunk-Shows (node left (node right ll lx (node b ml mx mr)) x r) = (refl, simp append_assoc)

module _ {ℓ} {D : Type ℓ} (compare : D → D → Ordering) where
  -- The three operations on a sorted list: the flag tells whether the list has changed.
  abbrev pub list_insert : D → List D → Bool × List D
  list_insert d [] = (true, d ∷ [])
  list_insert d (y ∷ ys) =
      let rest = list_insert d ys in
      elim (compare d y) [
        | lt ↦ (true, d ∷ y ∷ ys)
        | eq ↦ (false, y ∷ ys)
        | gt ↦ (rest.0, y ∷ rest.1)
      ]

  abbrev pub list_remove : D → List D → Bool × List D
  list_remove k [] = (false, [])
  list_remove k (y ∷ ys) =
      let rest = list_remove k ys in
      elim (compare k y) [ lt ↦ (false, y ∷ ys) | eq ↦ (true, ys) | gt ↦ (rest.0, y ∷ rest.1) ]

  abbrev pub list_find : D → List D → Option D
  list_find k [] = none
  list_find k (y ∷ ys) =
      let rest = list_find k ys in elim (compare k y) [ lt ↦ none | eq ↦ some y | gt ↦ rest ]

  list_find-lt :
      (k : D) (xs : List D) (x : D) (ys : List D)
      → compare k x ≡ lt
      → list_find k (xs ++ x ∷ ys) ≡ list_find k xs
  list_find-lt k [] x ys h = rw h
  list_find-lt k (y ∷ xs) x ys h = ground (arith, list_find-lt k xs x ys h)

  list_find-gt :
      (k : D) (xs : List D) (x : D) (ys : List D)
      → All (λ y. compare k y ≡ gt) xs
      → list_find k (xs ++ x ∷ ys) ≡ list_find k (x ∷ ys)
  list_find-gt k [] x ys h = refl
  list_find-gt k (y ∷ xs) x ys h = rw (h.0) (list_find-gt k xs x ys h.1)

module _ {ℓ} {D : Type ℓ} {compare : D → D → Ordering} (o : IsOrder compare) where
  -- cf_tree_find reads a sorted tree as a search in the list of its entries.
  pub find-list_find :
      (t : Tree D) (k : D)
      → IsSorted compare (in_order t)
      → find compare t k ≡ list_find compare k (in_order t)
  unfolding find
  find-list_find leaf k s = refl
  find-list_find (node b l x r) k s =
      let before = IsSorted-before compare (in_order l) x (in_order r) s in
      let below = find-list_find l k (IsSorted-left compare (in_order l) _ s) in
      let above = find-list_find r k (IsSorted-right compare (in_order l) _ s).1 in
      elim (Ordering-cases (compare k x)) [
        | inl h ↦ rw (h, find, list_find-lt compare k (in_order l) x (in_order r) h) below
        | inr (inl h) ↦
            rw
              (
                h,
                find,
                list_find-gt compare k (in_order l) x (in_order r) (eq_before o k x _ h before),
              )
              (rw (h, list_find))
        | inr (inr h) ↦
            rw
              (
                h,
                find,
                list_find-gt compare k (in_order l) x (in_order r) (gt_before o k x _ h before),
              )
              (rw (h, list_find) above)
      ]
