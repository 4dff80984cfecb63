-- ===== src/Linked/Destroy.antt =====
-- cf_list_destroy of src/listutils.c.
use cforum_upto.Base.{
  ℕ, zero, suc, ◌≤◌, ◌≡◌, refl, Option, none, some, List, [], ◌∷◌, ◌==◌, length, arith,
}
use cforum_upto.Linked.{Element, Head, Freed, destroy_loop, list_destroy}
use cforum_upto.Linked.Segment.{first_or, Segment, Distinct}
use cforum_upto.Linked.Lists.{IsList, values}

module _ {ℓ} {D : Type ℓ} where
  abbrev pub addresses : List (Freed D) → List ℕ
  addresses [] = []
  addresses (f ∷ fs) = f.element ∷ addresses fs

  abbrev pub freed_values : List (Freed D) → List D
  freed_values [] = []
  freed_values (f ∷ fs) = f.value ∷ freed_values fs

  -- The data of an element are freed exactly if it has the type 0.
  abbrev pub ByType : (ℕ → Element D) → List (Freed D) → Type 0
  ByType c [] = Unit
  ByType c (f ∷ fs) = (f.data_freed ≡ ((c f.element).type == 0)) × ByType c fs

  abbrev pub Destroyed : (ℕ → Element D) → List ℕ → Option (List (Freed D)) → Type ℓ
  Destroyed c xs r =
      (fs : List (Freed D)) × (r ≡ some fs)
      × (addresses fs ≡ xs)
      × (freed_values fs ≡ values c xs)
      × ByType c fs

  destroy_loop-Destroyed :
      (fuel : ℕ) (c : ℕ → Element D) (p : Option ℕ) (xs : List ℕ)
      → Segment c p xs none
      → length xs ≤ fuel
      → Destroyed c xs (destroy_loop fuel c (first_or xs none))
  unfolding destroy_loop
  destroy_loop-Destroyed zero c p [] h enough = ([], refl, refl, refl, tt)
  destroy_loop-Destroyed (suc fuel) c p [] h enough = ([], refl, refl, refl, tt)
  destroy_loop-Destroyed zero c p (x ∷ xs) h enough = absurd (omega arith)
  destroy_loop-Destroyed (suc fuel) c p (x ∷ xs) h enough =
      let rest = destroy_loop-Destroyed fuel c (some x) xs h.2 (omega arith) in
      let f : Freed D = record { element = x; value = (c x).value; data_freed = (c x).type == 0 } in
      (f ∷ rest.0, rw (h.1, rest.1) refl, rw rest.2 refl, rw rest.3 refl, (refl, rest.4))

  -- cf_list_destroy ends, and frees each element of the list once, in order. `destroy` is given
  -- the data of all of them, and those of the elements of type 0 are freed.
  pub list_destroy-Destroyed :
      (fuel : ℕ) (h : Head D) (xs : List ℕ)
      → IsList h xs
      → length xs ≤ fuel
      → Destroyed h.cells xs (list_destroy fuel h) × Distinct xs
  list_destroy-Destroyed fuel h xs is enough =
      rw is.0 (destroy_loop-Destroyed fuel h.cells none xs is.2 enough, is.3)
