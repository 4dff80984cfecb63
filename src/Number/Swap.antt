-- ===== src/Number/Swap.antt =====
-- The loop of src/datautils.c that reverses a part of a block in place.
use cforum_upto.Base.{
  ℕ, zero, suc, ◌+◌, ◌-◌, ◌≤◌, ◌≡◌, refl, sym, ap, ◌∙◌, Option, none, some, List, [], ◌∷◌, ◌++◌,
  append_assoc, append-nil, ltb, lt→ltb, true, false, get_elem?, if◌then◌else◌, length,
  length-append, arith,
}
use mathlib.Core.Path.{subst}
use cforum_upto.Str.{◌>>=◌}

-- `*ptr = v`; `none` outside of the block, as for the library's get_elem?.
abbrev pub set_byte : List ℕ → ℕ → ℕ → Option (List ℕ)
set_byte [] p v = none
set_byte (x ∷ xs) zero v = some (v ∷ xs)
set_byte (x ∷ xs) (suc p) v = do ys ← set_byte xs p v; some (x ∷ ys)

-- `for(;ptr1<ptr2;ptr1++,ptr2--)` with the exchange of the two bytes.
unfoldable pub swap_loop : ℕ → List ℕ → ℕ → ℕ → Option (List ℕ)
swap_loop zero content p q = if ltb p q then none else some content
swap_loop (suc fuel) content p q =
    let round = (do
      tmp ← get_elem? content p
      other ← get_elem? content q
      once ← set_byte content p other
      twice ← set_byte once q tmp
      swap_loop fuel twice (p + 1) (q - 1)) in
    if ltb p q then round else some content

abbrev pub reverse : List ℕ → List ℕ
reverse [] = []
reverse (x ∷ xs) = reverse xs ++ x ∷ []

get_elem?-middle :
    (xs : List ℕ) (y : ℕ) (zs : List ℕ) → get_elem? (xs ++ y ∷ zs) (length xs) ≡ some y
get_elem?-middle [] y zs = refl
get_elem?-middle (x ∷ xs) y zs = get_elem?-middle xs y zs

set_byte-middle :
    (xs : List ℕ) (y v : ℕ) (zs : List ℕ)
    → set_byte (xs ++ y ∷ zs) (length xs) v ≡ some (xs ++ v ∷ zs)
set_byte-middle [] y v zs = refl
set_byte-middle (x ∷ xs) y v zs = rw (set_byte-middle xs y v zs) refl

reverse-append : (xs ys : List ℕ) → reverse (xs ++ ys) ≡ reverse ys ++ reverse xs
reverse-append [] ys = sym (append-nil (reverse ys))
reverse-append (x ∷ xs) ys =
    rw (reverse-append xs ys) (append_assoc (reverse ys) (reverse xs) (x ∷ []))

-- A round: the outer two bytes change places.
swap_round :
    (fuel : ℕ) (pre : List ℕ) (x : ℕ) (mid : List ℕ) (y : ℕ) (post : List ℕ)
    → swap_loop (suc fuel) (pre ++ x ∷ (mid ++ y ∷ post)) (length pre) (length (pre ++ x ∷ mid))
      ≡ swap_loop fuel (pre ++ y ∷ (mid ++ x ∷ post)) (length pre + 1) (length (pre ++ x ∷ mid) - 1)
unfolding swap_loop
swap_round fuel pre x mid y post =
    let closer : ltb (length pre) (length (pre ++ x ∷ mid)) ≡ true =
      lt→ltb _ _ (omega (arith, length-append pre (x ∷ mid))) in
    let same : length (pre ++ y ∷ mid) ≡ length (pre ++ x ∷ mid) =
      omega (arith, length-append pre (x ∷ mid), length-append pre (y ∷ mid)) in
    let at_q =
      rw (append_assoc pre (x ∷ mid) (y ∷ post)) at (get_elem?-middle (pre ++ x ∷ mid) y post) in
    let set_q =
      rw (append_assoc pre (y ∷ mid) (y ∷ post), same, append_assoc pre (y ∷ mid) (x ∷ post)) at
        (set_byte-middle (pre ++ y ∷ mid) y x post) in
    rw
      (
        closer,
        get_elem?-middle pre x (mid ++ y ∷ post),
        at_q,
        set_byte-middle pre x y (mid ++ y ∷ post),
        set_q,
      )
      refl

-- A list that is not empty ends with an element.
split_last : (x : ℕ) (xs : List ℕ) → (ys : List ℕ) × (y : ℕ) × (x ∷ xs ≡ ys ++ y ∷ [])
split_last x [] = ([], x, refl)
split_last x (z ∷ zs) = let (ys, y, e) = split_last z zs in (x ∷ ys, y, ap (λ l. x ∷ l) e)

-- Pointers to the ends of a part of at most one byte: the loop is over.
swap_over :
    (fuel : ℕ) (content : List ℕ) (p q : ℕ) → q ≤ p → swap_loop fuel content p q ≡ some content
unfolding swap_loop
swap_over zero content p q h = let e : ltb p q ≡ false = ground arith in rw e refl
swap_over (suc fuel) content p q h = let e : ltb p q ≡ false = ground arith in rw e refl

-- A round and the rest of the loop, whose part is shorter by two bytes.
swap_outer :
    (fuel : ℕ) (pre : List ℕ) (x : ℕ) (ys : List ℕ) (y : ℕ) (post : List ℕ)
    → swap_loop fuel
        ((pre ++ y ∷ []) ++ (ys ++ x ∷ post))
        (length (pre ++ y ∷ []))
        (length (pre ++ y ∷ []) + length ys - 1)
      ≡ some ((pre ++ y ∷ []) ++ (reverse ys ++ x ∷ post))
    → swap_loop
        (suc fuel)
        (pre ++ (x ∷ ((ys ++ y ∷ []) ++ post)))
        (length pre)
        (length pre + suc (length (ys ++ y ∷ [])) - 1)
      ≡ some (pre ++ ((reverse (ys ++ y ∷ []) ++ x ∷ []) ++ post))
swap_outer fuel pre x ys y post inner =
    let n = length-append pre (x ∷ ys) in
    let q : length pre + suc (length (ys ++ y ∷ [])) - 1 ≡ length (pre ++ x ∷ ys) =
      omega (arith, n, length-append ys (y ∷ [])) in
    let p : length (pre ++ y ∷ []) ≡ length pre + 1 = length-append pre (y ∷ []) in
    let r : length pre + 1 + length ys - 1 ≡ length (pre ++ x ∷ ys) - 1 = omega (arith, n) in
    let after =
      rw
        (
          p,
          r,
          append_assoc pre (y ∷ []) (ys ++ x ∷ post),
          append_assoc pre (y ∷ []) (reverse ys ++ x ∷ post),
        )
        at inner in
    rw
      (
        append_assoc ys (y ∷ []) post,
        q,
        swap_round fuel pre x ys y post,
        reverse-append ys (y ∷ []),
        append_assoc (reverse ys) (x ∷ []) post,
      )
      after

-- The loop reverses the part between the pointers.
pub swap_loop-reverse :
    (fuel : ℕ) (pre mid post : List ℕ)
    → length mid ≤ fuel
    → swap_loop fuel (pre ++ (mid ++ post)) (length pre) (length pre + length mid - 1)
      ≡ some (pre ++ (reverse mid ++ post))
swap_loop-reverse fuel pre [] post h = swap_over fuel _ _ _ (omega arith)
swap_loop-reverse fuel pre (x ∷ []) post h = swap_over fuel _ _ _ (omega arith)
swap_loop-reverse zero pre (x ∷ (z ∷ zs)) post h = absurd (omega arith)
swap_loop-reverse (suc fuel) pre (x ∷ (z ∷ zs)) post h =
    let (ys, y, e) = split_last z zs in
    let size : length (z ∷ zs) ≡ length ys + 1 = ap length e ∙ length-append ys (y ∷ []) in
    let inner = swap_loop-reverse fuel (pre ++ y ∷ []) ys (x ∷ post) (omega arith) in
    subst
      (λ (l : List ℕ).
        swap_loop (suc fuel) (pre ++ (x ∷ (l ++ post))) (length pre)
          (length pre + suc (length l) - 1)
        ≡ some (pre ++ ((reverse l ++ x ∷ []) ++ post)))
      (sym e) (swap_outer fuel pre x ys y post inner)
