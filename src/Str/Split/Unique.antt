-- ===== src/Str/Split/Unique.antt =====
-- The parts that cf_split and cf_nsplit of src/stringutils.c give are the only ones.
use cforum_upto.Str.Split.{split_string, nsplit_string, Without, join, Last, Parts, Splits}
use cforum_upto.Str.Split.Loop.{split_parts-Splits}
use cforum_upto.Base.{
  ℕ, ◌+◌, ◌≤◌, ◌≡◌, ◌↔◌, refl, sym, ap, ◌∙◌, inl, inr, Option, none, some, List, [], ◌∷◌, ◌++◌,
  length, arith,
}
use mathlib.Core.Path.{subst, ap₂}

Without-found : (c : ℕ) (a rest : List ℕ) → Without c (a ++ c ∷ rest) → ⊥
Without-found c [] rest (ne, w) = ne refl
Without-found c (x ∷ a) rest (ne, w) = Without-found c a rest w

-- The place of the first separator is one.
first_unique :
    (c : ℕ) (a b r s : List ℕ)
    → Without c a
    → Without c b
    → a ++ c ∷ r ≡ b ++ c ∷ s
    → (a ≡ b) × (r ≡ s)
first_unique c [] [] r s wa wb e = (refl, cc)
first_unique c [] (y ∷ b) r s wa (ne, wb) e = absurd (ne cc)
first_unique c (x ∷ a) [] r s (ne, wa) wb e = absurd (ne cc)
first_unique c (x ∷ a) (y ∷ b) r s (ne, wa) (ne2, wb) e =
    let tails : a ++ c ∷ r ≡ b ++ c ∷ s = cc in
    let more = first_unique c a b r s wa wb tails in (cc, more.1)

Parts-number : (m c n : ℕ) (x : List ℕ) (xs : List (List ℕ)) → Parts (some m) c n x xs → n ≤ m
Parts-number m c n x [] last = last.0
Parts-number m c n x (y ∷ ys) (w, ps) =
    let more = Parts-number m c (n + 1) y ys ps in omega (arith, more)

-- No list of parts can stop at a part that another one splits.
Last-found :
    (max : Option ℕ) (c n : ℕ) (a y : List ℕ) (ys : List (List ℕ)) (rest : List ℕ)
    → Last max c n (a ++ c ∷ rest)
    → Parts max c (n + 1) y ys
    → ⊥
Last-found none c n a y ys rest w ps = Without-found c a rest w
Last-found (some m) c n a y ys rest (le, inl w) ps = Without-found c a rest w
Last-found (some m) c n a y ys rest (le, inr e) ps =
    let more = Parts-number m c (n + 1) y ys ps in absurd (omega arith)

Parts-unique :
    (max : Option ℕ) (c n : ℕ) (x y : List ℕ) (xs ys : List (List ℕ))
    → Parts max c n x xs
    → Parts max c n y ys
    → join c x xs ≡ join c y ys
    → x ∷ xs ≡ y ∷ ys
Parts-unique max c n x y [] [] p q e = ap (λ l. l ∷ []) e
Parts-unique max c n x y [] (y2 ∷ ys) p q e =
    absurd (Last-found max c n y y2 ys (join c y2 ys) (subst (Last max c n) e p) q.1)
Parts-unique max c n x y (x2 ∷ xs) [] p q e =
    absurd (Last-found max c n x x2 xs (join c x2 xs) (subst (Last max c n) (sym e) q) p.1)
Parts-unique max c n x y (x2 ∷ xs) (y2 ∷ ys) p q e =
    let first = first_unique c x y (join c x2 xs) (join c y2 ys) p.0 q.0 e in
    let more = Parts-unique max c (n + 1) x2 y2 xs ys p.1 q.1 first.1 in ap₂ ◌∷◌ first.0 more

-- The one list of parts.
Splits-iff :
    (c : ℕ) (max : Option ℕ) (s : List ℕ) (r : Option (List (List ℕ)))
    → Splits c max 0 s r
    → (x : List ℕ) (xs : List (List ℕ))
    → (r ≡ some (x ∷ xs)) ↔ ((join c x xs ≡ s) × Parts max c 1 x xs)
Splits-iff c max s r (y, ys, is, joined, parts) x xs = (
  λ e.
      let first : y ≡ x = cc in
      let others : ys ≡ xs = cc in
      (
        ap₂ (join c) (sym first) (sym others) ∙ joined,
        subst (λ z. Parts max c 1 z xs) first (subst (Parts max c 1 y) others parts),
      ),
  λ h. is ∙ ap some (Parts-unique max c 1 y x ys xs parts h.1 (joined ∙ sym h.0)),
)

split_string-Splits : (c : ℕ) (big : List ℕ) → Splits c none 0 big (split_string big (c ∷ []))
split_string-Splits c big =
    split_parts-Splits (length big + 1) none c big big 0 0 refl (omega arith) tt

nsplit_string-Splits :
    (c : ℕ) (big : List ℕ) (max : ℕ)
    → 2 ≤ max
    → Splits c (some max) 0 big (nsplit_string big (c ∷ []) max)
nsplit_string-Splits c big max two =
    split_parts-Splits (length big + 1) (some max) c big big 0 0 refl (omega arith) two

-- cf_split with a separator of one byte ends. It gives a list exactly if the parts with the
-- separator between them are the string and none of them holds it. There is one such list.
pub split_string_iff :
    (c : ℕ) (big x : List ℕ) (xs : List (List ℕ))
    → Splits c none 0 big (split_string big (c ∷ []))
      × ((split_string big (c ∷ []) ≡ some (x ∷ xs)) ↔ ((join c x xs ≡ big) × Parts none c 1 x xs))
split_string_iff c big x xs =
    let all = split_string-Splits c big in
    (all, Splits-iff c none big (split_string big (c ∷ [])) all x xs)

-- If `max` is at least 2, cf_nsplit with a separator of one byte ends. It gives a list exactly if
-- the parts with the separator between them are the string, all but the last are without it, there
-- are at most `max`, and the last is without it too or is number `max`. There is one such list.
pub nsplit_string_iff :
    (c : ℕ) (big : List ℕ) (max : ℕ) (x : List ℕ) (xs : List (List ℕ))
    → 2 ≤ max
    → Splits c (some max) 0 big (nsplit_string big (c ∷ []) max)
      × ((nsplit_string big (c ∷ []) max ≡ some (x ∷ xs))
          ↔ ((join c x xs ≡ big) × Parts (some max) c 1 x xs))
nsplit_string_iff c big max x xs two =
    let all = nsplit_string-Splits c big max two in
    (all, Splits-iff c (some max) big (nsplit_string big (c ∷ []) max) all x xs)
