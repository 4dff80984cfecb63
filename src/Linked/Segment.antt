-- ===== src/Linked/Segment.antt =====
-- Segments of the lists of src/listutils.c: how their elements are linked, and what the
-- assignments to `next` and `prev` do to them.
use cforum_upto.Base.{
  ℕ, ◌<◌, ◌≡◌, ◌≢◌, refl, sym, ap, ◌∙◌, Option, none, some, List, [], ◌∷◌, ◌++◌, ==_iff, ==_false,
  arith,
}
use cforum_upto.Linked.{Element, write, set_prev, set_next_of, set_prev_of}

abbrev pub first_or : List ℕ → Option ℕ → Option ℕ
first_or [] n = n
first_or (x ∷ xs) n = some x

unfoldable pub last_or : List ℕ → Option ℕ → Option ℕ
last_or [] p = p
last_or (x ∷ xs) p = last_or xs (some x)

abbrev pub NotIn : ℕ → List ℕ → Type 0
NotIn a [] = Unit
NotIn a (x ∷ xs) = (x ≢ a) × NotIn a xs

abbrev pub Distinct : List ℕ → Type 0
Distinct [] = Unit
Distinct (x ∷ xs) = NotIn x xs × Distinct xs

-- No address of the one list is in the other.
abbrev pub Apart : List ℕ → List ℕ → Type 0
Apart xs [] = Unit
Apart xs (y ∷ ys) = NotIn y xs × Apart xs ys

abbrev pub Below : ℕ → List ℕ → Type 0
Below n [] = Unit
Below n (x ∷ xs) = (x < n) × Below n xs

pub Below-NotIn : (n : ℕ) (xs : List ℕ) → Below n xs → NotIn n xs
Below-NotIn n [] h = tt
Below-NotIn n (x ∷ xs) h = (omega arith, Below-NotIn n xs h.1)

pub NotIn-last :
    (a x : ℕ) (xs : List ℕ) → NotIn a (x ∷ xs) → (l : ℕ) × (last_or xs (some x) ≡ some l) × (l ≢ a)
unfolding last_or
NotIn-last a x [] h = (x, refl, h.0)
NotIn-last a x (y ∷ xs) h = NotIn-last a y xs h.1

module _ {ℓ} {D : Type ℓ} where
  -- The elements are linked to each other, and at the ends to `p` and to `n`.
  abbrev pub Segment : (ℕ → Element D) → Option ℕ → List ℕ → Option ℕ → Type 0
  Segment c p [] n = Unit
  Segment c p (x ∷ xs) n = ((c x).prev ≡ p) × ((c x).next ≡ first_or xs n) × Segment c (some x) xs n

  -- The memories are the same at these addresses.
  abbrev pub Agree : (ℕ → Element D) → (ℕ → Element D) → List ℕ → Type ℓ
  Agree c d [] = Unit
  Agree c d (x ∷ xs) = (d x ≡ c x) × Agree c d xs

  pub Agree-Segment :
      (c d : ℕ → Element D) (p n : Option ℕ) (xs : List ℕ)
      → Agree c d xs
      → Segment c p xs n
      → Segment d p xs n
  Agree-Segment c d p n [] same h = tt
  Agree-Segment c d p n (x ∷ xs) same h =
      (rw same.0 h.0, rw same.0 h.1, Agree-Segment c d (some x) n xs same.1 h.2)

  pub write_elsewhere : (a j : ℕ) (e : Element D) (c : ℕ → Element D) → j ≢ a → write a e c j ≡ c j
  write_elsewhere a j e c ne = rw (==_false j a ne) refl

  pub write_here : (a : ℕ) (e : Element D) (c : ℕ → Element D) → write a e c a ≡ e
  write_here a e c = rw ((==_iff a a).1 refl) refl

  pub write-Agree :
      (a : ℕ) (e : Element D) (c : ℕ → Element D) (xs : List ℕ)
      → NotIn a xs
      → Agree c (write a e c) xs
  write-Agree a e c [] h = tt
  write-Agree a e c (x ∷ xs) h = (write_elsewhere a x e c h.0, write-Agree a e c xs h.1)

  pub Segment-append :
      (c : ℕ → Element D) (p n : Option ℕ) (xs ys : List ℕ)
      → Segment c p xs (first_or ys n)
      → Segment c (last_or xs p) ys n
      → Segment c p (xs ++ ys) n
  unfolding last_or
  Segment-append c p n [] ys h k = k
  Segment-append c p n (x ∷ []) ys h k = (h.0, h.1, k)
  Segment-append c p n (x ∷ y ∷ xs) ys h k =
      (h.0, h.1, Segment-append c (some x) n (y ∷ xs) ys h.2 k)

  pub Segment-split :
      (c : ℕ → Element D) (p n : Option ℕ) (xs ys : List ℕ)
      → Segment c p (xs ++ ys) n
      → Segment c p xs (first_or ys n) × Segment c (last_or xs p) ys n
  unfolding last_or
  Segment-split c p n [] ys h = (tt, h)
  Segment-split c p n (x ∷ []) ys h = ((h.0, h.1, tt), h.2)
  Segment-split c p n (x ∷ y ∷ xs) ys h =
      let k = Segment-split c (some x) n (y ∷ xs) ys h.2 in ((h.0, h.1, k.0), k.1)

  pub set_next-Segment :
      (c : ℕ → Element D) (p n m : Option ℕ) (xs : List ℕ)
      → Distinct xs
      → Segment c p xs n
      → Segment (set_next_of (last_or xs none) m c) p xs m
  unfolding last_or
  set_next-Segment c p n m [] apart h = tt
  set_next-Segment c p n m (x ∷ []) apart h =
      let here = write_here x (record (c x) { next = m }) c in
      (ap (λ e. e.prev) here ∙ h.0, ap (λ e. e.next) here, tt)
  set_next-Segment c p n m (x ∷ y ∷ xs) apart h =
      let end = NotIn-last x y xs apart.0 in
      let l = end.0 in
      let same : set_next_of (last_or xs (some y)) m c x ≡ c x =
        rw end.1 (write_elsewhere l x (record (c l) { next = m }) c (λ k. end.2 (sym k))) in
      (rw same h.0, rw same h.1, set_next-Segment c (some x) n m (y ∷ xs) apart.1 h.2)

  pub set_prev-Segment :
      (c : ℕ → Element D) (p q n : Option ℕ) (ys : List ℕ)
      → Distinct ys
      → Segment c p ys n
      → Segment (set_prev_of (first_or ys none) q c) q ys n
  set_prev-Segment c p q n [] apart h = tt
  set_prev-Segment c p q n (y ∷ ys) apart h =
      let e = record (c y) { prev = q } in
      let here = write_here y e c in
      (
        ap (λ e. e.prev) here,
        ap (λ e. e.next) here ∙ h.1,
        Agree-Segment c (set_prev y q c) (some y) n ys (write-Agree y e c ys apart.0) h.2,
      )

  pub last-Agree :
      (c : ℕ → Element D) (m : Option ℕ) (xs ys : List ℕ)
      → Apart xs ys
      → Agree c (set_next_of (last_or xs none) m c) ys
  unfolding last_or
  last-Agree c m xs [] apart = tt
  last-Agree c m [] (y ∷ ys) apart = (refl, last-Agree c m [] ys apart.1)
  last-Agree c m (x ∷ xs) (y ∷ ys) apart =
      let end = NotIn-last y x xs apart.0 in
      let l = end.0 in
      (
        rw end.1 (write_elsewhere l y (record (c l) { next = m }) c (λ k. end.2 (sym k))),
        last-Agree c m (x ∷ xs) ys apart.1,
      )

  Agree-self : (c : ℕ → Element D) (xs : List ℕ) → Agree c c xs
  Agree-self c [] = tt
  Agree-self c (x ∷ xs) = (refl, Agree-self c xs)

  pub first-Agree :
      (c : ℕ → Element D) (q : Option ℕ) (xs ys : List ℕ)
      → Apart xs ys
      → Agree c (set_prev_of (first_or ys none) q c) xs
  first-Agree c q xs [] apart = Agree-self c xs
  first-Agree c q xs (y ∷ ys) apart = write-Agree y (record (c y) { prev = q }) c xs apart.0

  -- Two segments joined: the last element of the first and the first of the second are linked.
  abbrev pub joined : List ℕ → List ℕ → (ℕ → Element D) → ℕ → Element D
  joined xs ys c =
      set_prev_of (first_or ys none) (last_or xs none)
        (set_next_of (last_or xs none) (first_or ys none) c)

  pub joined-Segment :
      (c : ℕ → Element D) (n p : Option ℕ) (xs ys : List ℕ)
      → Distinct xs
      → Distinct ys
      → Apart xs ys
      → Segment c none xs n
      → Segment c p ys none
      → Segment (joined xs ys c) none (xs ++ ys) none
  joined-Segment c n p xs ys dx dy apart h k =
      let c1 = set_next_of (last_or xs none) (first_or ys none) c in
      let h1 = set_next-Segment c none n (first_or ys none) xs dx h in
      let k1 = Agree-Segment c c1 p none ys (last-Agree c (first_or ys none) xs ys apart) k in
      Segment-append (joined xs ys c) none none xs ys
        (Agree-Segment c1 (joined xs ys c) none (first_or ys none) xs
          (first-Agree c1 (last_or xs none) xs ys apart) h1)
        (set_prev-Segment c1 p (last_or xs none) none ys dy k1)
