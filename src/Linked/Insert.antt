-- ===== src/Linked/Insert.antt =====
-- cf_list_insert of src/listutils.c.
use mathlib.Core.Path.{subst}
use cforum_upto.Linked.Operations.{with_element-Segment, new_element-values}
use cforum_upto.Base.{
  ℕ, ◌+◌, ◌≡◌, ◌≢◌, ◌↔◌, refl, sym, ap, ◌∙◌, Option, none, some, List, [], ◌∷◌, ◌++◌, ==_false,
  arith, append-nil,
}
use cforum_upto.Linked.{
  Element, Head, set_next_of, set_prev_of, new_element, with_element, set_next, set_prev,
  insert_cells, list_insert,
}
use cforum_upto.Linked.Segment.{
  first_or, last_or, NotIn, Distinct, Apart, Below, Below-NotIn, NotIn-last, Segment,
  set_next-Segment, set_prev-Segment, Segment-append, Agree-Segment, write_here, write-Agree,
  Segment-split, last-Agree, first-Agree,
}
use cforum_upto.Linked.Lists.{
  Apart-one, Distinct-append, Distinct-split, Below-append, Below-split, Below-more, last_or-append,
  IsList, SameValues-values, set_next_of-SameValues, set_prev_of-SameValues, values, values-append,
  Agree-values,
}

first_or-append :
    (zs xs ys : List ℕ) (a : ℕ)
    → last_or zs none ≡ some a
    → first_or (zs ++ xs) none ≡ first_or (zs ++ ys) none
unfolding last_or
first_or-append [] xs ys a is = cc
first_or-append (z ∷ zs) xs ys a is = refl

last_or-NotIn : (zs : List ℕ) (a e : ℕ) → last_or zs none ≡ some a → NotIn e zs → a ≢ e
unfolding last_or
last_or-NotIn [] a e is other = cc
last_or-NotIn (z ∷ zs) a e is other =
    let end = NotIn-last e z zs other in
    let l = end.0 in let same : l ≡ a = cc in λ k. end.2 (same ∙ k)

last_or-kept :
    (e : ℕ) (zs ys : List ℕ) (a : ℕ)
    → last_or zs none ≡ some a
    → NotIn e zs
    → (last_or (zs ++ ys) none ≡ last_or (zs ++ e ∷ ys) none) ↔ (ys ≢ [])
unfolding last_or
last_or-kept e zs [] a is other = (
  (λ k.
      let nil : last_or (zs ++ []) none ≡ last_or zs none =
        ap (λ xs. last_or xs none) (append-nil zs) in
      let some_a : some a ≡ some e = sym is ∙ (sym nil ∙ (k ∙ last_or-append zs [] e none)) in
      let same : a ≡ e = cc in absurd (last_or-NotIn zs a e is other same)),
  λ ne. absurd (ne refl),
)
last_or-kept e zs (y ∷ ys) a is other =
    ((λ k n. cc), λ ne. last_or-append zs ys y none ∙ sym (last_or-append zs (y ∷ ys) e none))

module _ {ℓ} {D : Type ℓ} where
  -- The last element of a segment is linked to what follows, and is one of its elements.
  Segment-last :
      (c : ℕ → Element D) (q n : Option ℕ) (a e : ℕ) (zs : List ℕ)
      → last_or zs none ≡ some a
      → NotIn e zs
      → Segment c q zs n
      → ((c a).next ≡ n) × (a ≢ e)
  unfolding last_or
  Segment-last c q n a e [] is other h = cc
  Segment-last c q n a e (z ∷ []) is other h = let same : z ≡ a = cc in rw (← same) (h.1, other.0)
  Segment-last c q n a e (z ∷ y ∷ zs) is other h =
      Segment-last c (some z) n a e (y ∷ zs) is other.1 h.2

  -- The memory after the assignments, with the pointers that they find.
  abbrev between : ℕ → List ℕ → List ℕ → (ℕ → Element D) → ℕ → Element D
  between e zs ys c = set_next_of (last_or zs none) (some e) (
      set_prev_of (first_or ys none) (some e)
        (set_prev e (last_or zs none) (set_next e (first_or ys none) c)))

  insert_cells-between :
      (e a : ℕ) (zs ys : List ℕ) (c : ℕ → Element D)
      → last_or zs none ≡ some a
      → (c a).next ≡ first_or ys none
      → a ≢ e
      → insert_cells e a c ≡ between e zs ys c
  insert_cells-between e a zs ys c is next ne = rw (is, next, ==_false a e ne) refl

  between-Segment :
      (e : ℕ) (zs ys : List ℕ) (c : ℕ → Element D) (n p : Option ℕ)
      → Distinct zs
      → Distinct ys
      → Apart zs ys
      → NotIn e zs
      → NotIn e ys
      → Segment c none zs n
      → Segment c p ys none
      → Segment (between e zs ys c) none (zs ++ e ∷ ys) none
  unfolding last_or
  between-Segment e zs ys c n p dz dy apart nz ny h k =
      let first = first_or ys none in
      let last = last_or zs none in
      let c1 = set_next e first c in
      let c2 = set_prev e last c1 in
      let c3 = set_prev_of first (some e) c2 in
      let kept_zs = write-Agree e (record (c e) { next = first }) c zs nz in
      let kept_ys = write-Agree e (record (c e) { next = first }) c ys ny in
      let zs1 = Agree-Segment c c1 none n zs kept_zs h in
      let ys1 = Agree-Segment c c1 p none ys kept_ys k in
      let zs2 =
        Agree-Segment c1 c2 none n zs (write-Agree e (record (c1 e) { prev = last }) c1 zs nz)
          zs1 in
      let ys2 =
        Agree-Segment c1 c2 p none ys (write-Agree e (record (c1 e) { prev = last }) c1 ys ny)
          ys1 in
      let here1 = write_here e (record (c e) { next = first }) c in
      let here2 = write_here e (record (c1 e) { prev = last }) c1 in
      let e2 : Segment c2 last (e ∷ []) first =
        (ap (λ x. x.prev) here2, ap (λ x. x.next) here2 ∙ ap (λ x. x.next) here1, tt) in
      let zs3 = Agree-Segment c2 c3 none n zs (first-Agree c2 (some e) zs ys apart) zs2 in
      let e3 =
        Agree-Segment c2 c3 last first (e ∷ [])
          (first-Agree c2 (some e) (e ∷ []) ys (Apart-one e ys ny)) e2 in
      let ys3 = set_prev-Segment c2 p (some e) none ys dy ys2 in
      let both = Segment-append c3 last none (e ∷ []) ys e3 ys3 in
      let zs4 = set_next-Segment c3 none n (some e) zs dz zs3 in
      let both4 =
        Agree-Segment c3 (between e zs ys c) last none (e ∷ ys)
          (last-Agree c3 (some e) zs (e ∷ ys) (nz, apart)) both in
      Segment-append (between e zs ys c) none none zs (e ∷ ys) zs4 both4

  between-values :
      (e : ℕ) (zs ys xs : List ℕ) (c : ℕ → Element D) → values (between e zs ys c) xs ≡ values c xs
  between-values e zs ys xs c =
      let c1 = set_next e (first_or ys none) c in
      let c2 = set_prev e (last_or zs none) c1 in
      let c3 = set_prev_of (first_or ys none) (some e) c2 in
      SameValues-values c (between e zs ys c) xs (λ j.
        set_next_of-SameValues (last_or zs none) (some e) c3 j
        ∙ (set_prev_of-SameValues (first_or ys none) (some e) c2 j
            ∙ (set_prev_of-SameValues (some e) (last_or zs none) c1 j
                ∙ set_next_of-SameValues (some e) (first_or ys none) c j)))

  new_in_front :
      (d : D) (size : ℕ) (h : Head D) (ys : List ℕ)
      → NotIn h.fresh ys
      → values (with_element (new_element 0 d size) h).cells (h.fresh ∷ ys) ≡ d ∷ values h.cells ys
  new_in_front d size h ys ny =
      let new = new_element 0 d size in
      values-append (with_element new h).cells (h.fresh ∷ []) ys (d ∷ []) (values h.cells ys)
        (new_element-values 0 d size h.fresh h.cells)
        (Agree-values h.cells (with_element new h).cells ys (write-Agree h.fresh new h.cells ys ny))

  -- What the head has after an element is inserted between `zs` and `ys`: it is linked there, and
  -- the data are those of `zs`, the new ones, and those of `ys`; the end is that from before.
  abbrev pub Inserted : Head D → D → List ℕ → List ℕ → Head D → Type ℓ
  Inserted h d zs ys g =
      (g.elements ≡ first_or (zs ++ h.fresh ∷ ys) none)
      × (g.last ≡ last_or (zs ++ ys) none)
      × Segment g.cells none (zs ++ h.fresh ∷ ys) none
      × (values g.cells (zs ++ h.fresh ∷ ys) ≡ values h.cells zs ++ d ∷ values h.cells ys)
      × Distinct (zs ++ h.fresh ∷ ys)
      × Below g.fresh (zs ++ h.fresh ∷ ys)

  -- Inserting behind any element, the last of `zs`, gives that.
  pub list_insert-Inserted :
      (a : ℕ) (d : D) (size : ℕ) (h : Head D) (zs ys : List ℕ)
      → IsList h (zs ++ ys)
      → last_or zs none ≡ some a
      → Inserted h d zs ys (list_insert a d size h)
  unfolding list_insert
  list_insert-Inserted a d size h zs ys is end =
      let e = h.fresh in
      let new = new_element 0 d size in
      let h1 = with_element new h in
      let old = with_element-Segment new (zs ++ ys) h is in
      let parts = Segment-split h1.cells none none zs ys old.0 in
      let dist = Distinct-split zs ys is.3 in
      let b = Below-split e zs ys is.4 in
      let nz = Below-NotIn e zs b.0 in
      let ny = Below-NotIn e ys b.1 in
      let place = Segment-last h1.cells none (first_or ys none) a e zs end nz parts.0 in
      let same = insert_cells-between e a zs ys h1.cells end place.0 place.1 in
      let apart : Apart zs (e ∷ ys) = (nz, dist.2) in
      (
        is.0 ∙ first_or-append zs ys (e ∷ ys) a end,
        is.1,
        subst (λ c. Segment c none (zs ++ e ∷ ys) none) (sym same)
            (between-Segment e zs ys h1.cells (first_or ys none) (last_or zs none) dist.0 dist.1
              dist.2 nz ny parts.0 parts.1),
        ap (λ c. values c (zs ++ e ∷ ys)) same
            ∙ (between-values e zs ys (zs ++ e ∷ ys) h1.cells
                ∙ values-append h1.cells zs (e ∷ ys) (values h.cells zs) (d ∷ values h.cells ys)
                    (Agree-values h.cells h1.cells zs (write-Agree e new h.cells zs nz))
                    (new_in_front d size h ys ny)),
        Distinct-append zs (e ∷ ys) dist.0 (ny, dist.1) apart,
        Below-append (e + 1) zs (e ∷ ys) (Below-more e zs b.0) (omega arith, Below-more e ys b.1),
      )

  -- After the insertion the head has the list with the new element if and only if it was not
  -- inserted at the end.
  pub list_insert_iff :
      (a : ℕ) (d : D) (size : ℕ) (h : Head D) (zs ys : List ℕ)
      → IsList h (zs ++ ys)
      → last_or zs none ≡ some a
      → IsList (list_insert a d size h) (zs ++ h.fresh ∷ ys) ↔ (ys ≢ [])
  list_insert_iff a d size h zs ys is end =
      let i = list_insert-Inserted a d size h zs ys is end in
      let b = Below-split h.fresh zs ys is.4 in
      let kept = last_or-kept h.fresh zs ys a end (Below-NotIn h.fresh zs b.0) in
      ((λ k. kept.0 (sym i.1 ∙ k.1)), λ k. (i.0, i.1 ∙ kept.1 k, i.2, i.4, i.5))
