-- ===== src/Linked/Delete.antt =====
-- cf_list_delete of src/listutils.c.
use mathlib.Core.Path.{subst}
use cforum_upto.Base.{
  ℕ, ◌≡◌, ◌≢◌, ◌↔◌, ◌⊎◌, refl, sym, ap, ◌∙◌, Option, none, some, List, [], ◌∷◌, ◌++◌, inl, inr,
  ==_iff, ==_false, if◌then◌else◌, append-nil,
}
use cforum_upto.Linked.{Element, Head, set_next_of, list_append, is_at, unlink, list_delete}
use cforum_upto.Linked.Segment.{
  first_or, last_or, NotIn, Distinct, Below, NotIn-last, Segment, Segment-split, last-Agree,
  first-Agree, joined, joined-Segment,
}
use cforum_upto.Linked.Operations.{list_append-alone}
use cforum_upto.Linked.Lists.{
  Apart-one, last_or-some, Distinct-append, Distinct-split, Below-append, Below-split,
  last_or-append, IsList, values, values-append, joined-values,
}

first_deleted :
    (a : ℕ) (n : Option ℕ) (xs ys : List ℕ)
    → NotIn a xs
    → n ≡ first_or ys none
    → (if is_at (first_or (xs ++ a ∷ ys) none) a then n else first_or (xs ++ a ∷ ys) none)
      ≡ first_or (xs ++ ys) none
first_deleted a n [] ys other is = rw ((==_iff a a).1 refl) is
first_deleted a n (x ∷ xs) ys other is = rw (==_false x a other.0) refl

last_deleted :
    (a : ℕ) (n : Option ℕ) (ys : List ℕ)
    → NotIn a ys
    → n ≡ first_or ys none
    → (if is_at (last_or ys (some a)) a then n else last_or ys (some a)) ≡ last_or ys none
unfolding last_or
last_deleted a n [] other is = rw ((==_iff a a).1 refl) is
last_deleted a n (y ∷ ys) other is =
    let end = NotIn-last a y ys other in rw (end.1, ==_false end.0 a end.2) refl

last_or-append_nil : (x : ℕ) (xs : List ℕ) → last_or (x ∷ xs ++ []) none ≢ none
unfolding last_or
last_or-append_nil x xs e =
    let l = last_or-some x xs in
    let same : last_or (xs ++ []) (some x) ≡ last_or xs (some x) =
      ap (λ zs. last_or zs (some x)) (append-nil xs) in
    let never : some l.0 ≡ none = sym (same ∙ l.1) ∙ e in cc

-- The last of `ys` is the last of all.
unfoldable LastKept : (xs ys : List ℕ) → Type 0
LastKept xs ys = (xs ≡ []) ⊎ (ys ≢ [])

last_or-LastKept : (xs ys : List ℕ) → (last_or ys none ≡ last_or (xs ++ ys) none) ↔ LastKept xs ys
unfolding last_or LastKept
last_or-LastKept [] ys = ((λ e. inl refl), λ k. refl)
last_or-LastKept (x ∷ xs) [] = (
  (λ e. absurd (last_or-append_nil x xs (sym e))),
  λ k. elim k [ inl e ↦ cc | inr ne ↦ absurd (ne refl) ],
)
last_or-LastKept (x ∷ xs) (y ∷ ys) =
    ((λ e. inr (λ n. cc)), λ k. sym (last_or-append (x ∷ xs) ys y none))

module _ {ℓ} {D : Type ℓ} where
  unlink-joined :
      (a : ℕ) (c : ℕ → Element D) (xs ys : List ℕ)
      → (c a).prev ≡ last_or xs none
      → (c a).next ≡ first_or ys none
      → set_next_of (last_or xs none) (first_or ys none) c a ≡ c a
      → unlink a c ≡ joined xs ys c
  unlink-joined a c xs ys p n same = rw (p, n, same, p, n) refl

  -- What stays after an element between `xs` and `ys` is deleted: the others are linked, and keep
  -- their data, but the end of the list is taken from behind the deleted element.
  abbrev pub Deleted : Head D → List ℕ → List ℕ → Head D → Type ℓ
  Deleted h xs ys g =
      (g.elements ≡ first_or (xs ++ ys) none)
      × (g.last ≡ last_or ys none)
      × Segment g.cells none (xs ++ ys) none
      × (values g.cells (xs ++ ys) ≡ values h.cells xs ++ values h.cells ys)
      × Distinct (xs ++ ys)
      × Below g.fresh (xs ++ ys)

  -- Deleting any element gives that.
  pub list_delete-Deleted :
      (a : ℕ) (h : Head D) (xs ys : List ℕ)
      → IsList h (xs ++ a ∷ ys)
      → Deleted h xs ys (list_delete a h)
  unfolding list_delete
  list_delete-Deleted a h xs ys is =
      let parts = Segment-split h.cells none none xs (a ∷ ys) is.2 in
      let d = Distinct-split xs (a ∷ ys) is.3 in
      let b = Below-split h.fresh xs (a ∷ ys) is.4 in
      let c1 = set_next_of (last_or xs none) (first_or ys none) h.cells in
      let at = last-Agree h.cells (first_or ys none) xs (a ∷ ys) d.2 in
      let after = first-Agree c1 (last_or xs none) (a ∷ []) ys (Apart-one a ys d.1.0) in
      let same : unlink a h.cells ≡ joined xs ys h.cells =
        unlink-joined a h.cells xs ys parts.1.0 parts.1.1 at.0 in
      let gone : (unlink a h.cells a).next ≡ first_or ys none =
        ap (λ c. (c a).next) same
        ∙ (ap (λ e. e.next) after.0 ∙ (ap (λ e. e.next) at.0 ∙ parts.1.1)) in
      (
        rw is.0 (first_deleted a (unlink a h.cells a).next xs ys d.2.0 gone),
        rw (is.1, last_or-append xs ys a none)
            (last_deleted a (unlink a h.cells a).next ys d.1.0 gone),
        subst (λ c. Segment c none (xs ++ ys) none) (sym same)
            (joined-Segment h.cells (some a) (some a) xs ys d.0 d.1.1 d.2.1 parts.0 parts.1.2),
        ap (λ c. values c (xs ++ ys)) same
            ∙ (joined-values xs ys (xs ++ ys) h.cells
                ∙ values-append h.cells xs ys (values h.cells xs) (values h.cells ys) refl refl),
        Distinct-append xs ys d.0 d.1.1 d.2.1,
        Below-append h.fresh xs ys b.0 b.1.1,
      )

  -- After an element is deleted the head has the list of the others if and only if the element was
  -- alone or not the last one.
  pub list_delete_iff :
      (a : ℕ) (h : Head D) (xs ys : List ℕ)
      → IsList h (xs ++ a ∷ ys)
      → IsList (list_delete a h) (xs ++ ys) ↔ ((xs ≡ []) ⊎ (ys ≢ []))
  unfolding LastKept
  list_delete_iff a h xs ys is =
      let d = list_delete-Deleted a h xs ys is in
      let kept = last_or-LastKept xs ys in
      ((λ k. kept.0 (sym d.1 ∙ k.1)), λ k. (d.0, d.1 ∙ kept.1 k, d.2, d.4, d.5))

  -- If the last element is deleted and then one is appended, the list has the new element alone:
  -- all that were in it are lost.
  pub list_append-list_delete :
      (a : ℕ) (h : Head D) (xs : List ℕ) (ty : ℕ) (d : D) (size : ℕ)
      → IsList h (xs ++ a ∷ [])
      → IsList (list_append ty d size (list_delete a h)) ((list_delete a h).fresh ∷ [])
        × (values (list_append ty d size (list_delete a h)).cells ((list_delete a h).fresh ∷ [])
            ≡ d ∷ [])
  unfolding last_or
  list_append-list_delete a h xs ty d size is =
      list_append-alone ty d size (list_delete a h) (list_delete-Deleted a h xs [] is).1
