-- ===== src/Memory/Array/Elements.antt =====
-- The operations of src/arrayutils.c on the elements of an array.
use native.Mathlib.Nat.{mul-le-mul_right, suc-mul, mul-suc}
use cforum_upto.Base.{
  ℕ, suc, ◌+◌, ◌*◌, ◌≤◌, ◌≡◌, refl, sym, ap, ◌∙◌, Bool-cases, inl, inr, Option, some, List, [], ◌∷◌,
  ◌++◌, append-nil, append_assoc, leb, length, length-append, arith,
}
use cforum_upto.Str.Block.{write, realloc, length-realloc}
use cforum_upto.Memory.Blocks.{write-part, realloc-grows, split_room}
use cforum_upto.Memory.Array.{Array, grow, with_block, array_push}

-- The elements one behind the other.
abbrev pub concat : List (List ℕ) → List ℕ
concat [] = []
concat (x ∷ xs) = x ++ concat xs

abbrev pub AllSized : ℕ → List (List ℕ) → Type 0
AllSized n [] = Unit
AllSized n (x ∷ xs) = (length x ≡ n) × AllSized n xs

-- The array holds these elements at the front of its block.
pub record HasElements (ary : Array) (xs : List (List ℕ)) : Type 0 where
  pub rest : List ℕ
  pub array : ary.array ≡ concat xs ++ rest
  pub size : length ary.array ≡ ary.element_size * ary.reserved
  pub counted : ary.elements ≡ length xs
  pub bounded : ary.elements ≤ ary.reserved
  pub sized : AllSized ary.element_size xs

pub concat-append : (xs ys : List (List ℕ)) → concat (xs ++ ys) ≡ concat xs ++ concat ys
concat-append [] ys = refl
concat-append (x ∷ xs) ys =
    ap (λ b. x ++ b) (concat-append xs ys) ∙ sym (append_assoc x (concat xs) (concat ys))

pub AllSized-append :
    (n : ℕ) (xs ys : List (List ℕ)) → AllSized n xs → AllSized n ys → AllSized n (xs ++ ys)
AllSized-append n [] ys h k = k
AllSized-append n (x ∷ xs) ys h k = (h.0, AllSized-append n xs ys h.1 k)

pub length-concat :
    (n : ℕ) (xs : List (List ℕ)) → AllSized n xs → length (concat xs) ≡ length xs * n
length-concat n [] h = omega arith
length-concat n (x ∷ xs) h =
    omega (arith, length-append x (concat xs), h.0, length-concat n xs h.1, suc-mul (length xs) n)

abbrev pub HasRoom : Array → List (List ℕ) → Type 0
HasRoom ary xs = HasElements ary xs × (suc ary.elements ≤ ary.reserved)

HasRoom-of : (a b : Array) (xs : List (List ℕ)) → a ≡ b → HasRoom b xs → HasRoom a xs
HasRoom-of a b xs same h = rw same h

pub grow-HasRoom :
    (junk : ℕ) (ary : Array) (xs : List (List ℕ)) → HasElements ary xs → HasRoom (grow junk ary) xs
unfolding grow
grow-HasRoom junk ary xs h =
    let n = ary.element_size * (ary.reserved + 1) in
    let more : n ≡ ary.element_size * ary.reserved + ary.element_size =
      ap (λ (m : ℕ). ary.element_size * m) (omega arith) ∙ mul-suc ary.element_size ary.reserved in
    elim (Bool-cases (leb ary.reserved (ary.elements + 1))) [
      | inl full ↦
          let grown =
            realloc-grows junk (concat xs) h.rest n
              (omega (arith, h.size, ap length h.array, more)) in
          HasRoom-of (grow junk ary)
            (record ary { array = realloc junk ary.array n; reserved = ary.reserved + 1 }) xs
            (rw full refl)
            (
              record {
                rest = grown.0;
                array = ap (λ c. realloc junk c n) h.array ∙ grown.1;
                size = length-realloc junk ary.array n;
                counted = h.counted;
                bounded = omega (arith, h.bounded);
                sized = h.sized;
              },
              omega (arith, h.bounded),
            )
      | inr fits ↦ HasRoom-of (grow junk ary) ary xs (rw fits refl) (h, ground arith)
    ]

-- The room behind the elements.
pub room-size :
    (ary : Array) (xs : List (List ℕ))
    → (h : HasRoom ary xs)
    → (length (concat xs) ≡ ary.elements * ary.element_size) × (ary.element_size ≤ length h.0.rest)
room-size ary xs h =
    let e = h.0 in
    let front : length (concat xs) ≡ ary.elements * ary.element_size =
      length-concat ary.element_size xs e.sized
      ∙ ap (λ (m : ℕ). m * ary.element_size) (sym e.counted) in
    let le : suc ary.elements * ary.element_size ≤ ary.reserved * ary.element_size =
      mul-le-mul_right ary.element_size h.1 in
    (
      front,
      omega (
        arith,
        le,
        suc-mul ary.elements ary.element_size,
        e.size,
        ap length e.array,
        length-append (concat xs) e.rest,
        front,
      ),
    )

pub grow-element_size : (junk : ℕ) (ary : Array) → (grow junk ary).element_size ≡ ary.element_size
unfolding grow
grow-element_size junk ary = elim (Bool-cases (leb ary.reserved (ary.elements + 1))) [
  | inl full ↦ rw full refl
  | inr fits ↦ rw fits refl
]

-- What an operation gives.
abbrev pub Gives : Array → Option Array → List (List ℕ) → Type 0
Gives ary r xs =
    (after : Array) × (r ≡ some after)
    × HasElements after xs
    × (after.element_size ≡ ary.element_size)

abbrev pub GivesElement : Array → Option (List ℕ × Array) → List ℕ → List (List ℕ) → Type 0
GivesElement ary r x xs =
    (after : Array) × (r ≡ some (x, after))
    × HasElements after xs
    × (after.element_size ≡ ary.element_size)

-- cf_array_push stays inside of the block, and adds the element behind the others.
pub array_push-Gives :
    (junk : ℕ) (x : List ℕ) (ary : Array) (xs : List (List ℕ))
    → HasElements ary xs
    → length x ≡ ary.element_size
    → Gives ary (array_push junk x ary) (xs ++ x ∷ [])
unfolding array_push
array_push-Gives junk x ary xs h size =
    let a = grow junk ary in
    let room = grow-HasRoom junk ary xs h in
    let e = room.0 in
    let at = room-size a xs room in
    let same : length x ≡ a.element_size = size ∙ sym (grow-element_size junk ary) in
    let split = split_room e.rest (length x) (omega (arith, at.1, same)) in
    let is : a.array ≡ concat xs ++ (split.0 ++ split.1) =
      e.array ∙ ap (λ c. concat xs ++ c) split.2 in
    let block = concat xs ++ (x ++ split.1) in
    let wrote : write a.array (a.elements * a.element_size) x ≡ some block =
      ap (λ c. write c (a.elements * a.element_size) x) is
      ∙ write-part (concat xs) split.0 split.1 x (a.elements * a.element_size) (sym at.0)
          (sym split.3) in
    (
      record a { array = block; elements = a.elements + 1 },
      ap (λ w. with_block w (a.elements + 1) a) wrote,
      record {
        rest = split.1;
        array =
            sym (append_assoc (concat xs) x split.1)
            ∙ ap (λ c. (concat xs ++ c) ++ split.1) (sym (append-nil x))
            ∙ ap (λ c. c ++ split.1) (sym (concat-append xs (x ∷ [])));
        size = omega (
          arith,
          e.size,
          ap length is,
          split.3,
          length-append (concat xs) (split.0 ++ split.1),
          length-append split.0 split.1,
          length-append (concat xs) (x ++ split.1),
          length-append x split.1,
        );
        counted = omega (arith, e.counted, length-append xs (x ∷ []));
        bounded = omega (arith, room.1);
        sized = AllSized-append a.element_size xs (x ∷ []) e.sized (same, tt);
      },
      grow-element_size junk ary,
    )
