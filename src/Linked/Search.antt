-- ===== src/Linked/Search.antt =====
-- cf_list_search of src/listutils.c.
use cforum_upto.Base.{
  ℕ, zero, suc, ◌≤◌, ◌≡◌, refl, Bool, Bool-cases, inl, inr, Option, none, some, List, [], ◌∷◌,
  length, if◌then◌else◌, arith,
}
use cforum_upto.Linked.{Element, Head, search_loop, list_search}
use cforum_upto.Linked.Segment.{first_or, Segment}
use cforum_upto.Linked.Lists.{IsList, values}

module _ {ℓ} {D : Type ℓ} where
  -- The first of the data that passes the test.
  unfoldable pub first_match : (D → Bool) → List D → Option D
  first_match test [] = none
  first_match test (d ∷ ds) = if test d then some d else first_match test ds

  search_loop-first_match :
      (fuel : ℕ) (test : D → Bool) (c : ℕ → Element D) (p : Option ℕ) (xs : List ℕ)
      → Segment c p xs none
      → length xs ≤ fuel
      → search_loop fuel test c (first_or xs none) ≡ some (first_match test (values c xs))
  unfolding search_loop first_match
  search_loop-first_match zero test c p [] h enough = refl
  search_loop-first_match (suc fuel) test c p [] h enough = refl
  search_loop-first_match zero test c p (x ∷ xs) h enough = absurd (omega arith)
  search_loop-first_match (suc fuel) test c p (x ∷ xs) h enough =
      let rest = search_loop-first_match fuel test c (some x) xs h.2 (omega arith) in
      elim (Bool-cases (test (c x).value)) [
        | inl is ↦ rw is refl
        | inr isnt ↦ rw (isnt, h.1, rest) refl
      ]

  -- The search ends, and gives the first of the data in the list that passes the test, or none.
  pub list_search-first_match :
      (fuel : ℕ) (test : D → Bool) (h : Head D) (xs : List ℕ)
      → IsList h xs
      → length xs ≤ fuel
      → list_search fuel test h ≡ some (first_match test (values h.cells xs))
  list_search-first_match fuel test h xs is enough =
      rw is.0 (search_loop-first_match fuel test h.cells none xs is.2 enough)
