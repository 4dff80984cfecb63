-- ===== src/Tree/Spec/Insert.antt =====
-- cf_tree_insert of src/treeutils.c as an insertion into the sorted list of entries.
use Prim.Native.Nat.{Ordering}
use Prim.Native.Nat.Ordering.{lt, eq, gt}
use cforum_upto.Base.{
  ◌≡◌, refl, Bool, false, none, some, List, [], ◌∷◌, ◌++◌, arith, Ordering-cases, inl, inr,
}
use cforum_upto.Tree.{
  Balance, Tree, leaf, node, unchanged, changed, failed, Step, ◌>>=◌, settle, leftgrown, rightgrown,
  insert,
}
use cforum_upto.Tree.Order.{
  IsOrder, All, All-imp, IsSorted, IsSorted-left, IsSorted-right, IsSorted-before, gt_before,
  eq_before,
}
use cforum_upto.Tree.Spec.{in_order, Shows, leftgrown-Shows, rightgrown-Shows, list_insert}

module _ {ℓ} {D : Type ℓ} where
  grow_left :
      (b : Balance) (x : D) (r : Tree D) (a : Bool) (xs : List D) (step : Step D)
      → Shows a xs step
      → Shows a (xs ++ x ∷ in_order r) (step >>= λ (s, t). settle leftgrown s (node b t x r))
  grow_left b x r a xs none h = tt
  grow_left b x r a xs (some (changed, l)) h = rw (← h.0, ← h.1) (leftgrown-Shows (node b l x r))
  grow_left b x r a xs (some (unchanged, l)) h = (h.0, rw (h.1))
  grow_left b x r a xs (some (failed, l)) h = (h.0, rw (h.1))

  grow_right :
      (b : Balance) (l : Tree D) (x : D) (a : Bool) (xs : List D) (step : Step D)
      → Shows a xs step
      → Shows a (in_order l ++ x ∷ xs) (step >>= λ (s, t). settle rightgrown s (node b l x t))
  grow_right b l x a xs none h = tt
  grow_right b l x a xs (some (changed, r)) h = rw (← h.0, ← h.1) (rightgrown-Shows (node b l x r))
  grow_right b l x a xs (some (unchanged, r)) h = (h.0, rw (h.1))
  grow_right b l x a xs (some (failed, r)) h = (h.0, rw (h.1))

module _ {ℓ} {D : Type ℓ} (compare : D → D → Ordering) where
  list_insert-lt :
      (d : D) (xs : List D) (x : D) (ys : List D)
      → compare d x ≡ lt
      → list_insert compare d (xs ++ x ∷ ys)
        ≡ ((list_insert compare d xs).0, (list_insert compare d xs).1 ++ x ∷ ys)
  list_insert-lt d [] x ys h = rw h
  list_insert-lt d (y ∷ xs) x ys h = ground (arith, list_insert-lt d xs x ys h)

  list_insert-eq :
      (d : D) (xs : List D) (x : D) (ys : List D)
      → compare d x ≡ eq
      → All (λ y. compare d y ≡ gt) xs
      → list_insert compare d (xs ++ x ∷ ys) ≡ (false, xs ++ x ∷ ys)
  list_insert-eq d [] x ys h a = rw h
  list_insert-eq d (y ∷ xs) x ys h a = rw (a.0, list_insert-eq d xs x ys h a.1)

  list_insert-gt :
      (d : D) (xs : List D) (x : D) (ys : List D)
      → compare d x ≡ gt
      → All (λ y. compare d y ≡ gt) xs
      → list_insert compare d (xs ++ x ∷ ys)
        ≡ ((list_insert compare d ys).0, xs ++ x ∷ (list_insert compare d ys).1)
  list_insert-gt d [] x ys h a = rw h
  list_insert-gt d (y ∷ xs) x ys h a = rw (a.0, list_insert-gt d xs x ys h a.1)

module _ {ℓ} {D : Type ℓ} {compare : D → D → Ordering} (o : IsOrder compare) where
  -- On a sorted tree cf_tree_insert does to the entries what the insertion into the sorted list
  -- does, and returns -1 exactly where the list holds an equal entry.
  pub insert-Shows :
      (t : Tree D) (d : D)
      → IsSorted compare (in_order t)
      → Shows
          (list_insert compare d (in_order t)).0
          (list_insert compare d (in_order t)).1
          (insert compare t d)
  unfolding insert
  insert-Shows leaf d s = (refl, refl)
  insert-Shows (node b l x r) d s =
      let before = IsSorted-before compare (in_order l) x (in_order r) s in
      let below = insert-Shows l d (IsSorted-left compare (in_order l) _ s) in
      let above = insert-Shows r d (IsSorted-right compare (in_order l) _ s).1 in
      elim (Ordering-cases (compare d x)) [
        | inl h ↦
            rw (h, insert, list_insert-lt compare d (in_order l) x (in_order r) h)
              (grow_left b x r _ _ _ below)
        | inr (inl h) ↦
            rw
              (
                h,
                insert,
                list_insert-eq compare d (in_order l) x (in_order r) h (eq_before o d x _ h before),
              )
              (refl, refl)
        | inr (inr h) ↦
            rw
              (
                h,
                insert,
                list_insert-gt compare d (in_order l) x (in_order r) h (gt_before o d x _ h before),
              )
              (grow_right b l x _ _ _ above)
      ]

  All-list_insert {κ} :
      (P : D → Type κ) (d : D) (xs : List D) → P d → All P xs → All P (list_insert compare d xs).1
  All-list_insert P d [] p a = (p, tt)
  All-list_insert P d (y ∷ xs) p a = elim (Ordering-cases (compare d y)) [
    | inl h ↦ rw (h, All, list_insert) (p, a)
    | inr (inl h) ↦ rw (h, All, list_insert) a
    | inr (inr h) ↦ rw (h, All, list_insert) (a.0, All-list_insert P d xs p a.1)
  ]

  pub list_insert-IsSorted :
      (d : D) (xs : List D) → IsSorted compare xs → IsSorted compare (list_insert compare d xs).1
  list_insert-IsSorted d [] s = (tt, tt)
  list_insert-IsSorted d (y ∷ xs) s = elim (Ordering-cases (compare d y)) [
    | inl h ↦ rw (h, IsSorted, list_insert) ((h, All-imp xs (λ z p. o.lt_trans d y z h p) s.0), s)
    | inr (inl h) ↦ rw (h, IsSorted, list_insert) s
    | inr (inr h) ↦
        rw (h, IsSorted, list_insert)
          (All-list_insert _ d xs (o.lt_of_gt d y h) s.0, list_insert-IsSorted d xs s.1)
  ]
