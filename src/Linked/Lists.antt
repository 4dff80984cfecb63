-- ===== src/Linked/Lists.antt =====
-- What a head of src/listutils.c has in its list: the addresses in order, and the data.
use cforum_upto.Base.{
  ℕ, ◌+◌, ◌≡◌, refl, sym, ◌∙◌, Option, none, some, List, [], ◌∷◌, ◌++◌, Bool-cases, inl, inr, ◌==◌,
  ==_iff, arith,
}
use cforum_upto.Linked.{Element, Head, write, set_next_of, set_prev_of}
use cforum_upto.Linked.Segment.{
  first_or, last_or, NotIn, Distinct, Apart, Below, Segment, Agree, joined,
}

NotIn-append : (a : ℕ) (xs ys : List ℕ) → NotIn a xs → NotIn a ys → NotIn a (xs ++ ys)
NotIn-append a [] ys h k = k
NotIn-append a (x ∷ xs) ys h k = (h.0, NotIn-append a xs ys h.1 k)

NotIn-split : (a : ℕ) (xs ys : List ℕ) → NotIn a (xs ++ ys) → NotIn a xs × NotIn a ys
NotIn-split a [] ys h = (tt, h)
NotIn-split a (x ∷ xs) ys h = let k = NotIn-split a xs ys h.1 in ((h.0, k.0), k.1)

Apart-nil : (ys : List ℕ) → Apart [] ys
Apart-nil [] = tt
Apart-nil (y ∷ ys) = (tt, Apart-nil ys)

Apart-uncons : (x : ℕ) (xs ys : List ℕ) → Apart (x ∷ xs) ys → NotIn x ys × Apart xs ys
Apart-uncons x xs [] h = (tt, tt)
Apart-uncons x xs (y ∷ ys) h =
    let k = Apart-uncons x xs ys h.1 in (((λ e. h.0.0 (sym e)), k.0), (h.0.1, k.1))

Apart-cons : (x : ℕ) (xs ys : List ℕ) → NotIn x ys → Apart xs ys → Apart (x ∷ xs) ys
Apart-cons x xs [] h k = tt
Apart-cons x xs (y ∷ ys) h k = (((λ e. h.0 (sym e)), k.0), Apart-cons x xs ys h.1 k.1)

pub Apart-one : (x : ℕ) (ys : List ℕ) → NotIn x ys → Apart (x ∷ []) ys
Apart-one x ys h = Apart-cons x [] ys h (Apart-nil ys)

pub Distinct-append :
    (xs ys : List ℕ) → Distinct xs → Distinct ys → Apart xs ys → Distinct (xs ++ ys)
Distinct-append [] ys h k apart = k
Distinct-append (x ∷ xs) ys h k apart =
    let u = Apart-uncons x xs ys apart in
    (NotIn-append x xs ys h.0 u.0, Distinct-append xs ys h.1 k u.1)

pub Distinct-split :
    (xs ys : List ℕ) → Distinct (xs ++ ys) → Distinct xs × Distinct ys × Apart xs ys
Distinct-split [] ys h = (tt, h, Apart-nil ys)
Distinct-split (x ∷ xs) ys h =
    let k = Distinct-split xs ys h.1 in
    let u = NotIn-split x xs ys h.0 in ((u.0, k.0), k.1, Apart-cons x xs ys u.1 k.2)

pub Below-append : (n : ℕ) (xs ys : List ℕ) → Below n xs → Below n ys → Below n (xs ++ ys)
Below-append n [] ys h k = k
Below-append n (x ∷ xs) ys h k = (h.0, Below-append n xs ys h.1 k)

pub Below-split : (n : ℕ) (xs ys : List ℕ) → Below n (xs ++ ys) → Below n xs × Below n ys
Below-split n [] ys h = (tt, h)
Below-split n (x ∷ xs) ys h = let k = Below-split n xs ys h.1 in ((h.0, k.0), k.1)

pub Below-more : (n : ℕ) (xs : List ℕ) → Below n xs → Below (n + 1) xs
Below-more n [] h = tt
Below-more n (x ∷ xs) h = (omega arith, Below-more n xs h.1)

pub last_or-some : (x : ℕ) (xs : List ℕ) → (l : ℕ) × (last_or xs (some x) ≡ some l)
unfolding last_or
last_or-some x [] = (x, refl)
last_or-some x (y ∷ xs) = last_or-some y xs

pub last_or-append :
    (xs ys : List ℕ) (y : ℕ) (p : Option ℕ) → last_or (xs ++ y ∷ ys) p ≡ last_or ys (some y)
unfolding last_or
last_or-append [] ys y p = refl
last_or-append (x ∷ xs) ys y p = last_or-append xs ys y (some x)

module _ {ℓ} {D : Type ℓ} where
  -- The head and the memory hold a list of elements at these addresses, and cf_alloc gives others.
  abbrev pub IsList : Head D → List ℕ → Type 0
  IsList h xs =
      (h.elements ≡ first_or xs none)
      × (h.last ≡ last_or xs none)
      × Segment h.cells none xs none
      × Distinct xs
      × Below h.fresh xs

  abbrev pub values : (ℕ → Element D) → List ℕ → List D
  values c [] = []
  values c (x ∷ xs) = (c x).value ∷ values c xs

  pub values-append :
      (c : ℕ → Element D) (xs ys : List ℕ) (ds es : List D)
      → values c xs ≡ ds
      → values c ys ≡ es
      → values c (xs ++ ys) ≡ ds ++ es
  values-append c [] ys ds es h k = rw (← h, k) refl
  values-append c (x ∷ xs) ys ds es h k =
      rw (← h, values-append c xs ys (values c xs) es refl k) refl

  pub Agree-values : (c d : ℕ → Element D) (xs : List ℕ) → Agree c d xs → values d xs ≡ values c xs
  Agree-values c d [] same = refl
  Agree-values c d (x ∷ xs) same = rw (same.0, Agree-values c d xs same.1) refl

  abbrev pub SameValues : (ℕ → Element D) → (ℕ → Element D) → Type ℓ
  SameValues c d = (j : ℕ) → (d j).value ≡ (c j).value

  pub SameValues-values :
      (c d : ℕ → Element D) (xs : List ℕ) → SameValues c d → values d xs ≡ values c xs
  SameValues-values c d [] same = refl
  SameValues-values c d (x ∷ xs) same = rw (same x, SameValues-values c d xs same) refl

  write-SameValues :
      (a : ℕ) (e : Element D) (c : ℕ → Element D)
      → e.value ≡ (c a).value
      → SameValues c (write a e c)
  write-SameValues a e c same j = elim (Bool-cases (j == a)) [
    | inl is ↦ rw (is, same, (==_iff j a).0 is) refl
    | inr isnt ↦ rw isnt refl
  ]

  pub set_next_of-SameValues :
      (a n : Option ℕ) (c : ℕ → Element D) → SameValues c (set_next_of a n c)
  set_next_of-SameValues none n c j = refl
  set_next_of-SameValues (some a) n c j = write-SameValues a (record (c a) { next = n }) c refl j

  pub set_prev_of-SameValues :
      (a p : Option ℕ) (c : ℕ → Element D) → SameValues c (set_prev_of a p c)
  set_prev_of-SameValues none p c j = refl
  set_prev_of-SameValues (some a) p c j = write-SameValues a (record (c a) { prev = p }) c refl j

  pub joined-values :
      (xs ys zs : List ℕ) (c : ℕ → Element D) → values (joined xs ys c) zs ≡ values c zs
  joined-values xs ys zs c =
      let c1 = set_next_of (last_or xs none) (first_or ys none) c in
      SameValues-values c (joined xs ys c) zs (λ j.
        set_prev_of-SameValues (first_or ys none) (last_or xs none) c1 j
        ∙ set_next_of-SameValues (last_or xs none) (first_or ys none) c j)
