-- ===== src/Linked/Operations.antt =====
-- cf_list_append and cf_list_prepend of src/listutils.c.
use cforum_upto.Base.{ℕ, ◌+◌, ◌≡◌, refl, sym, ap, ◌∙◌, none, some, List, [], ◌∷◌, ◌++◌, arith}
use cforum_upto.Linked.{
  Element, Head, write, new_element, with_element, link_last, link_first, list_append, list_prepend,
}
use cforum_upto.Linked.Segment.{
  last_or, Apart, Below-NotIn, Segment, Agree-Segment, write_here, write-Agree, joined,
  joined-Segment,
}
use cforum_upto.Linked.Lists.{
  Apart-one, last_or-some, Distinct-append, Below-append, Below-more, last_or-append, IsList,
  values, values-append, Agree-values, joined-values,
}

module _ {ℓ} {D : Type ℓ} where
  -- The memory with a new element, which is not linked yet.
  new_element-Segment :
      (ty : ℕ) (d : D) (size a : ℕ) (c : ℕ → Element D)
      → Segment (write a (new_element ty d size) c) none (a ∷ []) none
  new_element-Segment ty d size a c =
      let here = write_here a (new_element ty d size) c in
      (ap (λ e. e.prev) here, ap (λ e. e.next) here, tt)

  pub new_element-values :
      (ty : ℕ) (d : D) (size a : ℕ) (c : ℕ → Element D)
      → values (write a (new_element ty d size) c) (a ∷ []) ≡ d ∷ []
  new_element-values ty d size a c = ap (λ e. e.value ∷ []) (write_here a (new_element ty d size) c)

  link_last-joined :
      (elem x : ℕ) (xs : List ℕ) (h : Head D)
      → h.last ≡ last_or (x ∷ xs) none
      → link_last elem h.last h
        ≡ record h { cells = joined (x ∷ xs) (elem ∷ []) h.cells; last = some elem }
  unfolding last_or
  link_last-joined elem x xs h is = let l = last_or-some x xs in rw (is, l.1) refl

  link_first-joined :
      (elem x : ℕ) (xs : List ℕ) (h : Head D)
      → h.elements ≡ some x
      → link_first elem h.elements h
        ≡ record h { cells = joined (elem ∷ []) (x ∷ xs) h.cells; elements = some elem }
  unfolding last_or
  link_first-joined elem x xs h is = rw is refl

  pub moved :
      (g h : Head D) (xs : List ℕ) (ds : List D)
      → g ≡ h
      → IsList h xs × (values h.cells xs ≡ ds)
      → IsList g xs × (values g.cells xs ≡ ds)
  moved g h xs ds same is = rw same is

  -- A list in the memory that has a new element.
  pub with_element-Segment :
      (e : Element D) (xs : List ℕ) (h : Head D)
      → IsList h xs
      → Segment (with_element e h).cells none xs none
        × (values (with_element e h).cells xs ≡ values h.cells xs)
  with_element-Segment e xs h is =
      let same = write-Agree h.fresh e h.cells xs (Below-NotIn h.fresh xs is.4) in
      (
        Agree-Segment h.cells (with_element e h).cells none none xs same is.2,
        Agree-values h.cells (with_element e h).cells xs same,
      )

  -- If the head has no last element, the new one is alone in the list.
  pub list_append-alone :
      (ty : ℕ) (d : D) (size : ℕ) (h : Head D)
      → h.last ≡ none
      → IsList (list_append ty d size h) (h.fresh ∷ [])
        × (values (list_append ty d size h).cells (h.fresh ∷ []) ≡ d ∷ [])
  unfolding list_append last_or
  list_append-alone ty d size h is = rw is (
    (refl, refl, new_element-Segment ty d size h.fresh h.cells, (tt, tt), (omega arith, tt)),
    new_element-values ty d size h.fresh h.cells,
  )

  -- Appending links a new element behind the others: the list has the elements from before and
  -- then the new one, and their data.
  pub list_append-IsList :
      (ty : ℕ) (d : D) (size : ℕ) (h : Head D) (xs : List ℕ)
      → IsList h xs
      → IsList (list_append ty d size h) (xs ++ h.fresh ∷ [])
        × (values (list_append ty d size h).cells (xs ++ h.fresh ∷ [])
            ≡ values h.cells xs ++ d ∷ [])
  unfolding list_append last_or
  list_append-IsList ty d size h [] is = list_append-alone ty d size h is.1
  list_append-IsList ty d size h (x ∷ xs) is =
      let e = new_element ty d size in
      let h1 = with_element e h in
      let old = with_element-Segment e (x ∷ xs) h is in
      let ys = h.fresh ∷ [] in
      let apart : Apart (x ∷ xs) ys = (Below-NotIn h.fresh (x ∷ xs) is.4, tt) in
      moved (list_append ty d size h)
        (record h1 { cells = joined (x ∷ xs) ys h1.cells; last = some h.fresh }) (x ∷ xs ++ ys)
        (values h.cells (x ∷ xs) ++ d ∷ []) (link_last-joined h.fresh x xs h1 is.1)
        (
          (
            is.0,
            sym (last_or-append xs [] h.fresh (some x)),
            joined-Segment h1.cells none none (x ∷ xs) ys is.3 (tt, tt) apart old.0
                (new_element-Segment ty d size h.fresh h.cells),
            Distinct-append (x ∷ xs) ys is.3 (tt, tt) apart,
            Below-append (h.fresh + 1) (x ∷ xs) ys (Below-more h.fresh (x ∷ xs) is.4)
                (omega arith, tt),
          ),
          joined-values (x ∷ xs) ys (x ∷ xs ++ ys) h1.cells
              ∙ values-append h1.cells (x ∷ xs) ys (values h.cells (x ∷ xs)) (d ∷ []) old.1
                  (new_element-values ty d size h.fresh h.cells),
        )

  -- Prepending links a new element in front of the others.
  pub list_prepend-IsList :
      (ty : ℕ) (d : D) (size : ℕ) (h : Head D) (xs : List ℕ)
      → IsList h xs
      → IsList (list_prepend ty d size h) (h.fresh ∷ xs)
        × (values (list_prepend ty d size h).cells (h.fresh ∷ xs) ≡ d ∷ values h.cells xs)
  unfolding list_prepend last_or
  list_prepend-IsList ty d size h [] is = rw is.0 (
    (refl, refl, new_element-Segment ty d size h.fresh h.cells, (tt, tt), (omega arith, tt)),
    new_element-values ty d size h.fresh h.cells,
  )
  list_prepend-IsList ty d size h (x ∷ xs) is =
      let e = new_element ty d size in
      let h1 = with_element e h in
      let old = with_element-Segment e (x ∷ xs) h is in
      let ys = h.fresh ∷ [] in
      let other = Below-NotIn h.fresh (x ∷ xs) is.4 in
      let apart = Apart-one h.fresh (x ∷ xs) other in
      moved (list_prepend ty d size h)
        (record h1 { cells = joined ys (x ∷ xs) h1.cells; elements = some h.fresh })
        (h.fresh ∷ x ∷ xs) (d ∷ values h.cells (x ∷ xs)) (link_first-joined h.fresh x xs h1 is.0)
        (
          (
            refl,
            is.1,
            joined-Segment h1.cells none none ys (x ∷ xs) (tt, tt) is.3 apart
                (new_element-Segment ty d size h.fresh h.cells) old.0,
            (other, is.3),
            (omega arith, Below-more h.fresh (x ∷ xs) is.4),
          ),
          joined-values ys (x ∷ xs) (h.fresh ∷ x ∷ xs) h1.cells
              ∙ values-append h1.cells ys (x ∷ xs) (d ∷ []) (values h.cells (x ∷ xs))
                  (new_element-values ty d size h.fresh h.cells) old.1,
        )
