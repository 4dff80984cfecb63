-- ===== src/Str/Split/Loop.antt =====
-- The loop of cf_split and cf_nsplit of src/stringutils.c ends, and its parts give the string back.
use cforum_upto.Str.Split.{
  strstr, part, reached, last_part, put_first, split_round, split_parts, Without, Last, Splits,
}
use cforum_upto.Base.{
  ℕ, zero, suc, ◌+◌, ◌-◌, ◌≤◌, ◌<◌, ◌≡◌, ◌≢◌, ◌⊎◌, refl, sym, ap, ◌∙◌, Bool, true, false,
  Bool-cases, inl, inr, Option, none, some, List, [], ◌∷◌, ◌++◌, le→leb, ◌==◌, ==_iff,
  if◌then◌else◌, length, take, drop, length-append, append_assoc, arith,
}
use mathlib.Core.Path.{subst}

strstr-cases :
    (c : ℕ) (s : List ℕ)
    → ((strstr (c ∷ []) s ≡ none) × Without c s)
      ⊎ ((a : List ℕ) × (rest : List ℕ) × (s ≡ a ++ c ∷ rest)
          × (strstr (c ∷ []) s ≡ some (length a))
          × Without c a)
unfolding strstr
strstr-cases c [] = inl (refl, tt)
strstr-cases c (x ∷ xs) = elim (Bool-cases (c == x)) [
  | inl is ↦ inr ([], xs, ap (λ y. y ∷ xs) (sym ((==_iff c x).0 is)), rw is refl, tt)
  | inr isnt ↦
      let ne : x ≢ c = λ e. ground arith in
      elim (strstr-cases c xs) [
        | inl (e, w) ↦ inl (rw (isnt, e) refl, (ne, w))
        | inr (a, rest, e, f, w) ↦ inr (x ∷ a, rest, ap (λ l. x ∷ l) e, rw (isnt, f) refl, (ne, w))
      ]
]

drop-front : (a b : List ℕ) → drop (length a) (a ++ b) ≡ b
drop-front [] b = refl
drop-front (x ∷ a) b = drop-front a b

take-front : (a b : List ℕ) → take (length a) (a ++ b) ≡ a
take-front [] b = refl
take-front (x ∷ a) b = ap (λ l. x ∷ l) (take-front a b)

drop-drop : (n m : ℕ) (s : List ℕ) → drop (n + m) s ≡ drop m (drop n s)
drop-drop zero m s = let e : zero + m ≡ m = omega arith in ap (λ i. drop i s) e
drop-drop (suc n) zero [] = let e : suc n + zero ≡ suc n = omega arith in ap (λ i. drop i []) e
drop-drop (suc n) (suc m) [] =
    let e : suc n + suc m ≡ suc (n + suc m) = omega arith in ap (λ i. drop i []) e
drop-drop (suc n) m (x ∷ s) =
    let e : suc n + m ≡ suc (n + m) = omega arith in ap (λ i. drop i (x ∷ s)) e ∙ drop-drop n m s

-- There may be `n` parts.
abbrev pub Fits : Option ℕ → ℕ → Type 0
Fits none n = Unit
Fits (some max) n = n ≤ max

part-front :
    (big a b : List ℕ) (pos at : ℕ)
    → drop pos big ≡ a ++ b
    → at ≡ pos + length a
    → part big pos at ≡ a
part-front big a b pos at is end =
    let size : at - pos ≡ length a = omega arith in
    rw (le→leb pos at (omega arith), size, is) (take-front a b)

-- One more part is allowed, or the loop stops with the rest for the last one.
stop-cases :
    (max : Option ℕ) (c len : ℕ) (rest : List ℕ)
    → Fits max (len + 2)
    → ((reached max (len + 1) ≡ false) × Fits max (len + 1 + 2))
      ⊎ ((reached max (len + 1) ≡ true) × Fits max (len + 1 + 1) × Last max c (len + 1 + 1) rest)
stop-cases none c len rest fits = inl (refl, tt)
stop-cases (some m) c len rest fits = elim (Bool-cases (len + 1 + 1 == m)) [
  | inl is ↦
      let e = (==_iff (len + 1 + 1) m).0 is in
      inr (is, omega (arith, fits), (omega (arith, fits), inr e))
  | inr isnt ↦ let ne : len + 1 + 1 ≢ m = λ e. ground arith in inl (isnt, omega arith)
]

last_part-Fits :
    (max : Option ℕ) (len : ℕ) (big : List ℕ) (pre : ℕ)
    → Fits max (len + 1)
    → last_part max len big pre ≡ drop pre big ∷ []
last_part-Fits none len big pre fits = refl
last_part-Fits (some m) len big pre fits = rw (le→leb (len + 1) m (omega arith)) refl

Fits-less : (max : Option ℕ) (len : ℕ) → Fits max (len + 2) → Fits max (len + 1)
Fits-less none len fits = tt
Fits-less (some m) len fits = omega arith

Without-Last : (max : Option ℕ) (c n : ℕ) (x : List ℕ) → Fits max n → Without c x → Last max c n x
Without-Last none c n x fits w = w
Without-Last (some m) c n x fits w = (fits, inl w)

-- Behind the separator that was found.
drop-behind :
    (c : ℕ) (big a rest : List ℕ) (pos : ℕ)
    → drop pos big ≡ a ++ c ∷ rest
    → drop (pos + length a + 1) big ≡ rest
drop-behind c big a rest pos is =
    let size : length a + 1 ≡ length (a ++ c ∷ []) = sym (length-append a (c ∷ [])) in
    let end : pos + length a + 1 ≡ pos + length (a ++ c ∷ []) = omega (arith, size) in
    ap (λ i. drop i big) end
    ∙ drop-drop pos (length (a ++ c ∷ [])) big
    ∙ ap (drop (length (a ++ c ∷ []))) (is ∙ sym (append_assoc a (c ∷ []) rest))
    ∙ drop-front (a ++ c ∷ []) rest

-- One part more in front of the parts of the rest.
put_first-Splits :
    (c : ℕ) (max : Option ℕ) (len : ℕ) (a rest : List ℕ) (r : Option (List (List ℕ)))
    → Without c a
    → Splits c max (len + 1) rest r
    → Splits c max len (a ++ c ∷ rest) (put_first a r)
put_first-Splits c max len a rest r w (x, xs, is, joined, parts) =
    (a, x ∷ xs, ap (put_first a) is, ap (λ l. a ++ c ∷ l) joined, (w, parts))

-- The part behind the loop alone.
last_part-Splits :
    (max : Option ℕ) (c : ℕ) (big s : List ℕ) (pre len : ℕ)
    → drop pre big ≡ s
    → Fits max (len + 1)
    → Last max c (len + 1) s
    → Splits c max len s (some (last_part max len big pre))
last_part-Splits max c big s pre len here fits last =
    (s, [], ap some (last_part-Fits max len big pre fits ∙ ap (λ l. l ∷ []) here), refl, last)

pub split_parts-Splits :
    (fuel : ℕ) (max : Option ℕ) (c : ℕ) (big s : List ℕ) (pos len : ℕ)
    → drop pos big ≡ s
    → length s < fuel
    → Fits max (len + 2)
    → Splits c max len s (split_parts fuel max big (c ∷ []) pos pos len)
unfolding split_parts
split_parts-Splits zero max c big s pos len here enough fits = absurd (omega arith)
split_parts-Splits (suc fuel) max c big s pos len here enough fits =
    let again = λ (at : ℕ). split_parts fuel max big (c ∷ []) (at + 1) (at + 1) (len + 1) in
    let round = λ (o : Option ℕ). split_round o max big (c ∷ []) pos pos len again in
    let find = ap (λ l. round (strstr (c ∷ []) l)) here in
    elim (strstr-cases c s) [
      | inl (e, w) ↦ subst (Splits c max len s) (sym (find ∙ ap round e)) (
          last_part-Splits max c big s pos len here (Fits-less max len fits)
            (Without-Last max c (len + 1) s (Fits-less max len fits) w))
      | inr (a, rest, e, f, w) ↦
          let at : ℕ = pos + length a in
          let stopped = some (last_part max (len + 1) big (at + 1)) in
          let choose = λ (b : Bool) (p : List ℕ). put_first p (if b then stopped else again at) in
          let first : part big pos at ≡ a = part-front big a (c ∷ rest) pos at (here ∙ e) refl in
          let two : drop (at + 1) big ≡ rest = drop-behind c big a rest pos (here ∙ e) in
          let sized : length s ≡ length a + length (c ∷ rest) =
            ap length e ∙ length-append a (c ∷ rest) in
          let less : length rest < fuel = omega (arith, sized, enough) in
          let start = find ∙ ap round f ∙ ap (choose (reached max (len + 1))) first in
          let all : Splits c max len (a ++ c ∷ rest) (choose (reached max (len + 1)) a) =
            put_first-Splits c max len a rest _ w (elim (stop-cases max c len rest fits) [
              | inl (goes_on, fits_on) ↦
                  subst (λ b. Splits c max (len + 1) rest (if b then stopped else again at))
                    (sym goes_on)
                    (split_parts-Splits fuel max c big rest (at + 1) (len + 1) two less fits_on)
              | inr (stops, fits_last, last) ↦
                  subst (λ b. Splits c max (len + 1) rest (if b then stopped else again at))
                    (sym stops)
                    (last_part-Splits max c big rest (at + 1) (len + 1) two fits_last last)
            ]) in
          subst (Splits c max len s) (sym start)
            (subst (λ l. Splits c max len l (choose (reached max (len + 1)) a)) (sym e) all)
    ]
