-- ===== src/Tree/Spec/Remove.antt =====
-- cf_tree_remove of src/treeutils.c as a removal from the sorted list of entries.
use Prim.Native.Nat.{Ordering}
use Prim.Native.Nat.Ordering.{lt, eq, gt}
use cforum_upto.Base.{
  ◌≡◌, refl, Bool, true, Option, none, some, List, [], ◌∷◌, ◌++◌, append_assoc, arith,
  Ordering-cases, inl, inr,
}
use cforum_upto.Tree.{
  Balance, Tree, leaf, node, Outcome, unchanged, changed, failed, Step, Found, absent, taken, ◌>>=◌,
  settle, taking, find_with, leftshrunk, rightshrunk, findhighest, findlowest, remove_right,
  remove_root, remove,
}
use cforum_upto.Tree.Order.{
  IsOrder, All, IsSorted, IsSorted-left, IsSorted-right, IsSorted-before, gt_before, eq_before,
}
use cforum_upto.Tree.Spec.{
  in_order, accepted, Shows, leftshrunk-Shows, rightshrunk-Shows, list_remove,
}

module _ {ℓ} {D : Type ℓ} where
  settle_left :
      (b : Balance) (x : D) (r : Tree D) (a : Bool) (xs : List D) (s : Outcome) (l : Tree D)
      → Shows a xs (some (s, l))
      → Shows a (xs ++ x ∷ in_order r) (settle leftshrunk s (node b l x r))
  settle_left b x r a xs changed l h = rw (← h.0, ← h.1) (leftshrunk-Shows (node b l x r))
  settle_left b x r a xs unchanged l h = (h.0, rw (h.1))
  settle_left b x r a xs failed l h = (h.0, rw (h.1))

  settle_right :
      (b : Balance) (l : Tree D) (x : D) (a : Bool) (xs : List D) (s : Outcome) (r : Tree D)
      → Shows a xs (some (s, r))
      → Shows a (in_order l ++ x ∷ xs) (settle rightshrunk s (node b l x r))
  settle_right b l x a xs changed r h = rw (← h.0, ← h.1) (rightshrunk-Shows (node b l x r))
  settle_right b l x a xs unchanged r h = (h.0, rw (h.1))
  settle_right b l x a xs failed r h = (h.0, rw (h.1))

  shrink_left :
      (b : Balance) (x : D) (r : Tree D) (a : Bool) (xs : List D) (step : Step D)
      → Shows a xs step
      → Shows a (xs ++ x ∷ in_order r) (step >>= λ (s, t). settle leftshrunk s (node b t x r))
  shrink_left b x r a xs none h = tt
  shrink_left b x r a xs (some (s, l)) h = settle_left b x r a xs s l h

  shrink_right :
      (b : Balance) (l : Tree D) (x : D) (a : Bool) (xs : List D) (step : Step D)
      → Shows a xs step
      → Shows a (in_order l ++ x ∷ xs) (step >>= λ (s, t). settle rightshrunk s (node b l x t))
  shrink_right b l x a xs none h = tt
  shrink_right b l x a xs (some (s, r)) h = settle_right b l x a xs s r h

  -- The last entry of `xs` was detached, and the first one.
  abbrev Highest : List D → Option (Found D) → Type ℓ
  Highest xs none = Unit
  Highest xs (some absent) = Unit {ℓ} × ⊥
  Highest xs (some (taken d s t)) = (accepted s ≡ true) × (in_order t ++ d ∷ [] ≡ xs)

  abbrev Lowest : List D → Option (Found D) → Type ℓ
  Lowest xs none = Unit
  Lowest xs (some absent) = Unit {ℓ} × ⊥
  Lowest xs (some (taken d s t)) = (accepted s ≡ true) × (d ∷ in_order t ≡ xs)

  taking-Highest :
      (d : D) (ys xs : List D) (step : Step D)
      → Shows true ys step
      → ys ++ d ∷ [] ≡ xs
      → Highest xs (taking d step)
  taking-Highest d ys xs none h e = tt
  taking-Highest d ys xs (some (s, t)) h e = (h.0, rw (h.1) e)

  taking-Lowest :
      (d : D) (ys xs : List D) (step : Step D)
      → Shows true ys step
      → d ∷ ys ≡ xs
      → Lowest xs (taking d step)
  taking-Lowest d ys xs none h e = tt
  taking-Lowest d ys xs (some (s, t)) h e = (h.0, rw (h.1) e)

  find_right :
      (b : Balance) (l : Tree D) (x : D) (xs : List D) (o : Option (Found D))
      → Highest xs o
      → Highest (in_order l ++ x ∷ xs) (find_with rightshrunk (λ r. node b l x r) o)
  find_right b l x xs none h = tt
  find_right b l x xs (some absent) h = absurd (h.1)
  find_right b l x xs (some (taken d s t)) h =
      taking-Highest d _ _ _ (settle_right b l x true (in_order t) s t (h.0, refl))
        (rw (← h.1) (append_assoc (in_order l) (x ∷ in_order t) (d ∷ [])))

  find_left :
      (b : Balance) (x : D) (r : Tree D) (xs : List D) (o : Option (Found D))
      → Lowest xs o
      → Lowest (xs ++ x ∷ in_order r) (find_with leftshrunk (λ l. node b l x r) o)
  find_left b x r xs none h = tt
  find_left b x r xs (some absent) h = absurd (h.1)
  find_left b x r xs (some (taken d s t)) h =
      taking-Lowest d _ _ _ (settle_left b x r true (in_order t) s t (h.0, refl)) (rw (← h.1))

  findhighest-Highest :
      (b : Balance) (l : Tree D) (x : D) (r : Tree D)
      → Highest (in_order (node b l x r)) (findhighest (node b l x r))
  unfolding findhighest
  findhighest-Highest b l x leaf = (refl, refl)
  findhighest-Highest b l x (node rb rl rx rr) =
      find_right b l x _ _ (findhighest-Highest rb rl rx rr)

  findlowest-Lowest :
      (b : Balance) (l : Tree D) (x : D) (r : Tree D)
      → Lowest (in_order (node b l x r)) (findlowest (node b l x r))
  unfolding findlowest
  findlowest-Lowest b leaf x r = (refl, refl)
  findlowest-Lowest b (node lb ll lx lr) x r = find_left b x r _ _ (findlowest-Lowest lb ll lx lr)

  put_right :
      (b : Balance) (l : Tree D) (xs : List D) (o : Option (Found D))
      → Lowest xs o
      → Shows true (in_order l ++ xs) (
          o >>= λ found. elim found [
            | absent ↦ some (changed, leaf)
            | taken d s r ↦ settle rightshrunk s (node b l d r)
          ])
  put_right b l xs none h = tt
  put_right b l xs (some absent) h = absurd (h.1)
  put_right b l xs (some (taken d s t)) h =
      rw (← h.1) (settle_right b l d true (in_order t) s t (h.0, refl))

  put_left :
      (b : Balance) (l r : Tree D) (xs : List D) (o : Option (Found D))
      → Highest xs o
      → Shows true (xs ++ in_order r) (
          o >>= λ found. elim found [
            | absent ↦ remove_right b l r
            | taken d s l ↦ settle leftshrunk s (node b l d r)
          ])
  put_left b l r xs none h = tt
  put_left b l r xs (some absent) h = absurd (h.1)
  put_left b l r xs (some (taken d s t)) h =
      rw (← h.1, append_assoc) (settle_left b d r true (in_order t) s t (h.0, refl))

  remove_right-Shows : (b : Balance) (r : Tree D) → Shows true (in_order r) (remove_right b leaf r)
  unfolding remove_right
  remove_right-Shows b leaf = (refl, refl)
  remove_right-Shows b (node rb rl rx rr) = put_right b leaf _ _ (findlowest-Lowest rb rl rx rr)

  remove_root-Shows :
      (b : Balance) (l r : Tree D) → Shows true (in_order l ++ in_order r) (remove_root b l r)
  unfolding remove_root
  remove_root-Shows b leaf r = remove_right-Shows b r
  remove_root-Shows b (node lb ll lx lr) r = put_left b _ r _ _ (findhighest-Highest lb ll lx lr)

module _ {ℓ} {D : Type ℓ} (compare : D → D → Ordering) where
  list_remove-lt :
      (d : D) (xs : List D) (x : D) (ys : List D)
      → compare d x ≡ lt
      → list_remove compare d (xs ++ x ∷ ys)
        ≡ ((list_remove compare d xs).0, (list_remove compare d xs).1 ++ x ∷ ys)
  list_remove-lt d [] x ys h = rw h
  list_remove-lt d (y ∷ xs) x ys h = ground (arith, list_remove-lt d xs x ys h)

  list_remove-eq :
      (d : D) (xs : List D) (x : D) (ys : List D)
      → compare d x ≡ eq
      → All (λ y. compare d y ≡ gt) xs
      → list_remove compare d (xs ++ x ∷ ys) ≡ (true, xs ++ ys)
  list_remove-eq d [] x ys h a = rw h
  list_remove-eq d (y ∷ xs) x ys h a = rw (a.0, list_remove-eq d xs x ys h a.1)

  list_remove-gt :
      (d : D) (xs : List D) (x : D) (ys : List D)
      → compare d x ≡ gt
      → All (λ y. compare d y ≡ gt) xs
      → list_remove compare d (xs ++ x ∷ ys)
        ≡ ((list_remove compare d ys).0, xs ++ x ∷ (list_remove compare d ys).1)
  list_remove-gt d [] x ys h a = rw h
  list_remove-gt d (y ∷ xs) x ys h a = rw (a.0, list_remove-gt d xs x ys h a.1)

module _ {ℓ} {D : Type ℓ} {compare : D → D → Ordering} (o : IsOrder compare) where
  -- On a sorted tree cf_tree_remove does to the entries what the removal from the sorted list
  -- does, and returns -1 exactly where the list holds no equal entry.
  pub remove-Shows :
      (t : Tree D) (k : D)
      → IsSorted compare (in_order t)
      → Shows
          (list_remove compare k (in_order t)).0
          (list_remove compare k (in_order t)).1
          (remove compare t k)
  unfolding remove
  remove-Shows leaf d s = (refl, refl)
  remove-Shows (node b l x r) d s =
      let before = IsSorted-before compare (in_order l) x (in_order r) s in
      let below = remove-Shows l d (IsSorted-left compare (in_order l) _ s) in
      let above = remove-Shows r d (IsSorted-right compare (in_order l) _ s).1 in
      elim (Ordering-cases (compare d x)) [
        | inl h ↦
            rw (h, remove, list_remove-lt compare d (in_order l) x (in_order r) h)
              (shrink_left b x r _ _ _ below)
        | inr (inl h) ↦
            rw
              (
                h,
                remove,
                list_remove-eq compare d (in_order l) x (in_order r) h (eq_before o d x _ h before),
              )
              (remove_root-Shows b l r)
        | inr (inr h) ↦
            rw
              (
                h,
                remove,
                list_remove-gt compare d (in_order l) x (in_order r) h (gt_before o d x _ h before),
              )
              (shrink_right b l x _ _ _ above)
      ]

  All-list_remove {κ} :
      (P : D → Type κ) (k : D) (xs : List D) → All P xs → All P (list_remove compare k xs).1
  All-list_remove P d [] a = tt
  All-list_remove P d (y ∷ xs) a = elim (Ordering-cases (compare d y)) [
    | inl h ↦ rw (h, All, list_remove) a
    | inr (inl h) ↦ rw (h, All, list_remove) (a.1)
    | inr (inr h) ↦ rw (h, All, list_remove) (a.0, All-list_remove P d xs a.1)
  ]

  pub list_remove-IsSorted :
      (k : D) (xs : List D) → IsSorted compare xs → IsSorted compare (list_remove compare k xs).1
  list_remove-IsSorted d [] s = tt
  list_remove-IsSorted d (y ∷ xs) s = elim (Ordering-cases (compare d y)) [
    | inl h ↦ rw (h, IsSorted, list_remove) s
    | inr (inl h) ↦ rw (h, IsSorted, list_remove) (s.1)
    | inr (inr h) ↦
        rw (h, IsSorted, list_remove) (All-list_remove _ d xs s.0, list_remove-IsSorted d xs s.1)
  ]
