-- ===== src/Memory/Array/Run.antt =====
-- Runs of the operations of src/arrayutils.c.
use cforum_upto.Base.{
  ℕ, ◌≡◌, ◌⊎◌, refl, sym, ap, ◌∙◌, true, inl, inr, Option, none, some, List, [], ◌∷◌, ◌++◌, ◌==◌,
  ==_iff, length,
}
use mathlib.Core.Path.{subst}
use cforum_upto.Memory.Array.{Array, array_push, array_pop, array_shift, array_unshift}
use cforum_upto.Memory.Array.Elements.{HasElements, array_push-Gives}
use cforum_upto.Memory.Array.Ends.{
  array_pop-GivesElement, array_shift-GivesElement, array_unshift-Gives,
}

pub data Call : Type 0 where
  pushing : List ℕ → Call
  unshifting : List ℕ → Call
  popping : Call
  shifting : Call

-- The elements that a call takes out, and the array.
abbrev pub Out : Type 0 → Type 0
Out A = Option (List (List ℕ) × A)

abbrev pub nothing_out : {A : Type 0} → Option A → Out A
nothing_out none = none
nothing_out (some a) = some ([], a)

abbrev pub one_out : {A : Type 0} → Option (List ℕ × A) → Out A
one_out none = none
one_out (some (x, a)) = some (x ∷ [], a)

abbrev pub call : ℕ → Call → Array → Out Array
call junk (pushing x) ary = nothing_out (array_push junk x ary)
call junk (unshifting x) ary = nothing_out (array_unshift junk x ary)
call junk popping ary = one_out (array_pop ary)
call junk shifting ary = one_out (array_shift ary)

abbrev pub put_before : {A : Type 0} → List (List ℕ) → Out A → Out A
put_before xs none = none
put_before xs (some (ys, a)) = some (xs ++ ys, a)

abbrev pub then_run : {A : Type 0} → Out A → (A → Out A) → Out A
then_run none f = none
then_run (some (xs, a)) f = put_before xs (f a)

unfoldable pub run : ℕ → List Call → Array → Out Array
run junk [] ary = some ([], ary)
run junk (c ∷ cs) ary = then_run (call junk c ary) (run junk cs)

abbrev pub after_first : List ℕ → Option (List ℕ × List (List ℕ)) → Option (List ℕ × List (List ℕ))
after_first x none = some (x, [])
after_first x (some (y, ys)) = some (y, x ∷ ys)

-- The last of the elements, and the others.
abbrev pub last_of : List (List ℕ) → Option (List ℕ × List (List ℕ))
last_of [] = none
last_of (x ∷ xs) = after_first x (last_of xs)

abbrev pub first_of : List (List ℕ) → Option (List ℕ × List (List ℕ))
first_of [] = none
first_of (x ∷ xs) = some (x, xs)

-- What the calls do to the elements in order; none if one is taken out and there is none.
abbrev pub effect : Call → List (List ℕ) → Out (List (List ℕ))
effect (pushing x) xs = some ([], xs ++ x ∷ [])
effect (unshifting x) xs = some ([], x ∷ xs)
effect popping xs = one_out (last_of xs)
effect shifting xs = one_out (first_of xs)

unfoldable pub replay : List Call → List (List ℕ) → Out (List (List ℕ))
replay [] xs = some ([], xs)
replay (c ∷ cs) xs = then_run (effect c xs) (replay cs)

-- The elements that are put in have the size of the array's.
abbrev pub AllFit : ℕ → List Call → Type 0
AllFit n [] = Unit
AllFit n (pushing x ∷ cs) = (length x ≡ n) × AllFit n cs
AllFit n (unshifting x ∷ cs) = (length x ≡ n) × AllFit n cs
AllFit n (popping ∷ cs) = AllFit n cs
AllFit n (shifting ∷ cs) = AllFit n cs

-- Both fail, or both give the same elements and the array holds those that are left.
abbrev pub Agree : Out Array → Out (List (List ℕ)) → Type 0
Agree none none = Unit
Agree (some (ys, ary)) (some (zs, xs)) = (ys ≡ zs) × HasElements ary xs
Agree _ _ = ⊥

last_of-cases :
    (xs : List (List ℕ))
    → (xs ≡ [])
      ⊎ ((x : List ℕ) × (ys : List (List ℕ)) × (xs ≡ ys ++ x ∷ []) × (last_of xs ≡ some (x, ys)))
last_of-cases [] = inl refl
last_of-cases (x ∷ xs) = elim (last_of-cases xs) [
  | inl e ↦ inr (x, [], ap (λ l. x ∷ l) e, ap (λ l. after_first x (last_of l)) e)
  | inr (y, ys, e, f) ↦ inr (y, x ∷ ys, ap (λ l. x ∷ l) e, ap (after_first x) f)
]

Agree-put_before :
    (ys : List (List ℕ)) (r : Out Array) (q : Out (List (List ℕ)))
    → Agree r q
    → Agree (put_before ys r) (put_before ys q)
Agree-put_before ys none none h = tt
Agree-put_before ys none (some q) h = h
Agree-put_before ys (some r) none h = h
Agree-put_before ys (some (us, ary)) (some (vs, xs)) h = (ap (λ l. ys ++ l) h.0, h.1)

Agree-then :
    (ys xs : List (List ℕ)) (after : Array) (junk : ℕ) (cs : List Call) (r : Out Array)
    (q : Out (List (List ℕ)))
    → r ≡ some (ys, after)
    → q ≡ some (ys, xs)
    → Agree (run junk cs after) (replay cs xs)
    → Agree (then_run r (run junk cs)) (then_run q (replay cs))
Agree-then ys xs after junk cs r q is same h =
    rw (is, same) (Agree-put_before ys (run junk cs after) (replay cs xs) h)

array_pop-empty : (ary : Array) → ary.elements ≡ 0 → array_pop ary ≡ none
unfolding array_pop
array_pop-empty ary e =
    let is : (ary.elements == 0) ≡ true = (==_iff ary.elements 0).1 e in rw is refl

array_shift-empty : (ary : Array) → ary.elements ≡ 0 → array_shift ary ≡ none
unfolding array_shift
array_shift-empty ary e =
    let is : (ary.elements == 0) ≡ true = (==_iff ary.elements 0).1 e in rw is refl

Agree-none :
    (junk : ℕ) (cs : List Call) (r : Out Array) (q : Out (List (List ℕ)))
    → r ≡ none
    → q ≡ none
    → Agree (then_run r (run junk cs)) (then_run q (replay cs))
Agree-none junk cs r q is same = rw (is, same) tt

-- Any run of cf_array_push, cf_array_unshift, cf_array_pop and cf_array_shift, with elements of the
-- right size, gives what the same run on the sequence of the elements gives, and stays inside of
-- the allocated blocks; it leaves them exactly if an element is taken out of an empty array.
pub run-Agree :
    (junk : ℕ) (cs : List Call) (ary : Array) (xs : List (List ℕ))
    → HasElements ary xs
    → AllFit ary.element_size cs
    → Agree (run junk cs ary) (replay cs xs)
unfolding run replay
run-Agree junk [] ary xs h fit = (refl, h)
run-Agree junk (pushing x ∷ cs) ary xs h fit =
    let one = array_push-Gives junk x ary xs h fit.0 in
    Agree-then [] (xs ++ x ∷ []) one.0 junk cs (call junk (pushing x) ary) (effect (pushing x) xs)
      (ap nothing_out one.1) refl
      (run-Agree junk cs one.0 (xs ++ x ∷ []) one.2 (subst (λ n. AllFit n cs) (sym one.3) fit.1))
run-Agree junk (unshifting x ∷ cs) ary xs h fit =
    let one = array_unshift-Gives junk x ary xs h fit.0 in
    Agree-then [] (x ∷ xs) one.0 junk cs (call junk (unshifting x) ary) (effect (unshifting x) xs)
      (ap nothing_out one.1) refl
      (run-Agree junk cs one.0 (x ∷ xs) one.2 (subst (λ n. AllFit n cs) (sym one.3) fit.1))
run-Agree junk (popping ∷ cs) ary xs h fit = elim (last_of-cases xs) [
  | inl e ↦
      Agree-none junk cs (call junk popping ary) (effect popping xs)
        (ap one_out (array_pop-empty ary (h.counted ∙ ap length e)))
        (ap (λ l. one_out (last_of l)) e)
  | inr (x, ys, e, f) ↦
      let one = array_pop-GivesElement x ary ys (subst (HasElements ary) e h) in
      Agree-then (x ∷ []) ys one.0 junk cs (call junk popping ary) (effect popping xs)
        (ap one_out one.1) (ap one_out f)
        (run-Agree junk cs one.0 ys one.2 (subst (λ n. AllFit n cs) (sym one.3) fit))
]
run-Agree junk (shifting ∷ cs) ary [] h fit =
    Agree-none junk cs (call junk shifting ary) (effect shifting [])
      (ap one_out (array_shift-empty ary h.counted)) refl
run-Agree junk (shifting ∷ cs) ary (x ∷ xs) h fit =
    let one = array_shift-GivesElement x ary xs h in
    Agree-then (x ∷ []) xs one.0 junk cs (call junk shifting ary) (effect shifting (x ∷ xs))
      (ap one_out one.1) refl
      (run-Agree junk cs one.0 xs one.2 (subst (λ n. AllFit n cs) (sym one.3) fit))
