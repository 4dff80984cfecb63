-- ===== src/Memory/Array/Ends.antt =====
-- The operations of src/arrayutils.c that take elements out of an array, or put one in front.
use mathlib.Core.Path.{subst}
use cforum_upto.Base.{
  ℕ, zero, suc, ◌+◌, ◌-◌, ◌*◌, ◌≤◌, ◌<◌, ◌≡◌, refl, sym, ap, ◌∙◌, Bool-cases, inl, inr, none, some,
  List, [], ◌∷◌, ◌++◌, append_assoc, leb, leb→le, ==_false, length, take, drop, length-append,
  length-take, length-drop, get_elem?, arith,
}
use cforum_upto.Str.Block.{write}
use cforum_upto.Memory.Blocks.{
  ◌>>=◌, read_block, move_block, read_block-part, write-part, write-fits,
}
use cforum_upto.Memory.Array.{
  Array, grow, with_block, taken, array_pop, array_shift, then_write, array_unshift, at_pointer,
  array_element_at,
}
use cforum_upto.Memory.Array.Elements.{
  concat, AllSized, HasElements, concat-append, length-concat, grow-HasRoom, room-size,
  grow-element_size, Gives, GivesElement,
}

AllSized-split :
    (n : ℕ) (xs ys : List (List ℕ)) → AllSized n (xs ++ ys) → AllSized n xs × AllSized n ys
AllSized-split n [] ys h = (tt, h)
AllSized-split n (x ∷ xs) ys h = let k = AllSized-split n xs ys h.1 in ((h.0, k.0), k.1)

-- The place of an element between others.
element-place :
    (ary : Array) (xs ys : List (List ℕ)) (x : List ℕ)
    → (h : HasElements ary (xs ++ x ∷ ys))
    → (ary.array ≡ concat xs ++ (x ++ (concat ys ++ h.rest)))
      × (length (concat xs) ≡ length xs * ary.element_size)
      × (length x ≡ ary.element_size)
element-place ary xs ys x h =
    let sized = AllSized-split ary.element_size xs (x ∷ ys) h.sized in
    (
      h.array
          ∙ ap (λ c. c ++ h.rest) (concat-append xs (x ∷ ys))
          ∙ append_assoc (concat xs) (x ++ concat ys) h.rest
          ∙ ap (λ c. concat xs ++ c) (append_assoc x (concat ys) h.rest),
      length-concat ary.element_size xs sized.0,
      sized.1.0,
    )

read_block-element :
    (ary : Array) (xs ys : List (List ℕ)) (x : List ℕ)
    → HasElements ary (xs ++ x ∷ ys)
    → read_block ary.array (length xs * ary.element_size) ary.element_size ≡ some x
read_block-element ary xs ys x h =
    let at = element-place ary xs ys x h in
    ap (λ c. read_block c (length xs * ary.element_size) ary.element_size) at.0
    ∙ read_block-part (concat xs) x (concat ys ++ h.rest) (length xs * ary.element_size)
        ary.element_size (sym at.1) (sym at.2)

-- cf_array_pop gives the last element, and leaves the others.
pub array_pop-GivesElement :
    (x : List ℕ) (ary : Array) (xs : List (List ℕ))
    → HasElements ary (xs ++ x ∷ [])
    → GivesElement ary (array_pop ary) x xs
unfolding array_pop
array_pop-GivesElement x ary xs h =
    let count : ary.elements ≡ suc (length xs) =
      omega (arith, h.counted, length-append xs (x ∷ [])) in
    let at = element-place ary xs [] x h in
    let n : ary.elements - 1 ≡ length xs = omega arith in
    let found : read_block ary.array ((ary.elements - 1) * ary.element_size) ary.element_size
        ≡ some x =
      ap (λ i. read_block ary.array (i * ary.element_size) ary.element_size) n
      ∙ read_block-element ary xs [] x h in
    let after = record ary { elements = ary.elements - 1 } in
    (
      after,
      rw (==_false ary.elements 0 (omega arith)) (ap (λ e. taken e (some after)) found),
      record {
        rest = x ++ h.rest;
        array = at.0;
        size = h.size;
        counted = n;
        bounded = omega (arith, h.bounded);
        sized = (AllSized-split ary.element_size xs (x ∷ []) h.sized).0;
      },
      refl,
    )

-- cf_array_shift gives the first element, and moves the others to the front.
pub array_shift-GivesElement :
    (x : List ℕ) (ary : Array) (xs : List (List ℕ))
    → HasElements ary (x ∷ xs)
    → GivesElement ary (array_shift ary) x xs
unfolding array_shift move_block
array_shift-GivesElement x ary xs h =
    let size = ary.element_size in
    let n : ary.elements - 1 ≡ length xs = omega (arith, h.counted) in
    let at = element-place ary [] xs x h in
    let long = length-concat size xs h.sized.1 in
    let moved = concat xs in
    let found : read_block ary.array 0 size ≡ some x =
      ap (λ c. read_block c 0 size) at.0
      ∙ read_block-part [] x (moved ++ h.rest) 0 size refl (sym at.2) in
    let rest_read : read_block ary.array size ((ary.elements - 1) * size) ≡ some moved =
      ap (λ c. read_block c size ((ary.elements - 1) * size)) at.0
      ∙ read_block-part x moved h.rest size ((ary.elements - 1) * size) (sym at.2)
          (ap (λ (m : ℕ). m * size) n ∙ sym long) in
    let total : length ary.array ≡ size + (length moved + length h.rest) = omega (
      arith,
      ap length at.0,
      length-append x (moved ++ h.rest),
      length-append moved h.rest,
      at.2,
    ) in
    let left = drop (0 + length moved) ary.array in
    let wrote : move_block ary.array 0 size ((ary.elements - 1) * size) ≡ some (moved ++ left) =
      ap (λ r. r >>= write ary.array 0) rest_read ∙ write-fits ary.array moved 0 (omega arith) in
    let after = record ary { array = moved ++ left; elements = ary.elements - 1 } in
    (
      after,
      rw (==_false ary.elements 0 (omega (arith, h.counted))) (
          ap
            (λ e. taken e (
              with_block (move_block ary.array 0 size ((ary.elements - 1) * size))
                (ary.elements - 1) ary))
            found
          ∙ ap (λ w. taken (some x) (with_block w (ary.elements - 1) ary)) wrote),
      record {
        rest = left;
        array = refl;
        size =
            omega
              (arith, length-append moved left, length-drop (0 + length moved) ary.array, h.size);
        counted = n;
        bounded = omega (arith, h.bounded);
        sized = h.sized.1;
      },
      refl,
    )

-- cf_array_unshift stays inside of the block, and puts the element in front of the others.
pub array_unshift-Gives :
    (junk : ℕ) (x : List ℕ) (ary : Array) (xs : List (List ℕ))
    → HasElements ary xs
    → length x ≡ ary.element_size
    → Gives ary (array_unshift junk x ary) (x ∷ xs)
unfolding array_unshift move_block
array_unshift-Gives junk x ary xs h is_size =
    let a = grow junk ary in
    let room = grow-HasRoom junk ary xs h in
    let e = room.0 in
    let at = room-size a xs room in
    let size = a.element_size in
    let count = a.elements * size in
    let same : length x ≡ size = is_size ∙ sym (grow-element_size junk ary) in
    let old : read_block a.array 0 count ≡ some (concat xs) =
      ap (λ c. read_block c 0 count) e.array
      ∙ read_block-part [] (concat xs) e.rest 0 count refl (sym at.0) in
    let total : length a.array ≡ length (concat xs) + length e.rest =
      ap length e.array ∙ length-append (concat xs) e.rest in
    let left = drop (size + length (concat xs)) a.array in
    let front = take size a.array in
    let moved = front ++ (concat xs ++ left) in
    let first_size : length front ≡ size = omega (arith, length-take size a.array) in
    let wrote : move_block a.array size 0 count ≡ some moved =
      ap (λ r. r >>= write a.array size) old ∙ write-fits a.array (concat xs) size (omega arith) in
    let put : write moved 0 x ≡ some (x ++ (concat xs ++ left)) =
      write-part [] front (concat xs ++ left) x 0 refl (same ∙ sym first_size) in
    (
      record a { array = x ++ (concat xs ++ left); elements = a.elements + 1 },
      ap (λ w. with_block (then_write w x) (a.elements + 1) a) wrote
          ∙ ap (λ w. with_block w (a.elements + 1) a) put,
      record {
        rest = left;
        array = sym (append_assoc x (concat xs) left);
        size = omega (
          arith,
          length-append x (concat xs ++ left),
          length-append (concat xs) left,
          length-drop (size + length (concat xs)) a.array,
          e.size,
        );
        counted = omega (arith, e.counted);
        bounded = omega (arith, room.1);
        sized = (same, e.sized);
      },
      grow-element_size junk ary,
    )

place-of :
    (i : ℕ) (xs : List (List ℕ))
    → i < length xs
    → (ys : List (List ℕ)) × (x : List ℕ) × (zs : List (List ℕ)) × (xs ≡ ys ++ x ∷ zs)
      × (length ys ≡ i)
      × (get_elem? xs i ≡ some x)
place-of i [] h = absurd (omega arith)
place-of zero (x ∷ xs) h = ([], x, xs, refl, refl, refl)
place-of (suc i) (x ∷ xs) h =
    let p = place-of i xs (omega arith) in (x ∷ p.0, p.1, p.2, ap (λ l. x ∷ l) p.3, ap suc p.4, p.5)

get_elem?-none : (i : ℕ) (xs : List (List ℕ)) → length xs ≤ i → get_elem? xs i ≡ none
get_elem?-none i [] h = refl
get_elem?-none zero (x ∷ xs) h = absurd (omega arith)
get_elem?-none (suc i) (x ∷ xs) h = get_elem?-none i xs (omega arith)

-- cf_array_element_at gives the element at the index, and NULL from the number of the elements on.
pub array_element_at-get_elem? :
    (i : ℕ) (ary : Array) (xs : List (List ℕ))
    → HasElements ary xs
    → array_element_at ary i ≡ some (get_elem? xs i)
unfolding array_element_at
array_element_at-get_elem? i ary xs h = elim (Bool-cases (leb ary.elements i)) [
  | inl over ↦
      rw (over, get_elem?-none i xs (omega (arith, leb→le ary.elements i over, h.counted))) refl
  | inr fits ↦
      let lt : i < ary.elements = ground arith in
      let p = place-of i xs (omega (arith, h.counted)) in
      let there = subst (HasElements ary) p.3 h in
      let found : read_block ary.array (i * ary.element_size) ary.element_size ≡ some p.1 =
        ap (λ (n : ℕ). read_block ary.array (n * ary.element_size) ary.element_size) (sym p.4)
        ∙ read_block-element ary p.0 p.2 p.1 there in
      rw (fits, p.5) (ap at_pointer found)
]
