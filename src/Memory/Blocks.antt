-- ===== src/Memory/Blocks.antt =====
-- Reading, copying and moving in an allocated block.
use cforum_upto.Base.{
  ℕ, ◌+◌, ◌≤◌, ◌≡◌, refl, sym, ap, ◌∙◌, true, Option, none, some, List, [], ◌∷◌, ◌++◌, append_assoc,
  leb, le→leb, if◌then◌else◌, length, take, drop, length-append, length-take, take-append-drop,
  arith,
}
use cforum_upto.Str.Block.{write, realloc, length-realloc, take-realloc}

infixl 5 ◌>>=◌
abbrev pub ◌>>=◌ {ℓ κ} : {A : Type ℓ} {B : Type κ} → Option A → (A → Option B) → Option B
none >>= f = none
some a >>= f = f a

-- The `n` bytes from the position `at`.
unfoldable pub read_block : List ℕ → ℕ → ℕ → Option (List ℕ)
read_block block at n = if leb (at + n) (length block) then some (take n (drop at block)) else none

-- memmove of `n` bytes.
unfoldable pub move_block : List ℕ → ℕ → ℕ → ℕ → Option (List ℕ)
unfolding read_block
move_block block to from n = do bytes ← read_block block from n; write block to bytes

pub drop-front : (a b : List ℕ) → drop (length a) (a ++ b) ≡ b
drop-front [] b = refl
drop-front (x ∷ a) b = drop-front a b

pub take-front : (a b : List ℕ) → take (length a) (a ++ b) ≡ a
take-front [] b = refl
take-front (x ∷ a) b = ap (λ l. x ∷ l) (take-front a b)

drop-two : (a b c : List ℕ) (n : ℕ) → n ≡ length a + length b → drop n (a ++ (b ++ c)) ≡ c
drop-two a b c n is =
    let m : n ≡ length (a ++ b) = omega (arith, length-append a b) in
    rw (m, ← append_assoc) (drop-front (a ++ b) c)

-- A part of a block, behind `a` and before `c`, is read.
pub read_block-part :
    (a b c : List ℕ) (at n : ℕ)
    → at ≡ length a
    → n ≡ length b
    → read_block (a ++ (b ++ c)) at n ≡ some b
unfolding read_block
read_block-part a b c at n is size =
    let fits : leb (at + n) (length (a ++ (b ++ c))) ≡ true =
      le→leb (at + n) (length (a ++ (b ++ c)))
        (omega (arith, length-append a (b ++ c), length-append b c)) in
    rw (fits, is, size, drop-front a (b ++ c), take-front b c) refl

-- A write that fits.
pub write-fits :
    (block d : List ℕ) (at : ℕ)
    → at + length d ≤ length block
    → write block at d ≡ some (take at block ++ (d ++ drop (at + length d) block))
unfolding write
write-fits block d at fits = rw (le→leb (at + length d) (length block) fits) refl

-- A part of a block is overwritten.
pub write-part :
    (a b c d : List ℕ) (at : ℕ)
    → at ≡ length a
    → length d ≡ length b
    → write (a ++ (b ++ c)) at d ≡ some (a ++ (d ++ c))
write-part a b c d at is size =
    let fits : at + length d ≤ length (a ++ (b ++ c)) =
      omega (arith, length-append a (b ++ c), length-append b c) in
    let front : take at (a ++ (b ++ c)) ≡ a =
      ap (λ n. take n (a ++ (b ++ c))) is ∙ take-front a (b ++ c) in
    let back : drop (at + length d) (a ++ (b ++ c)) ≡ c =
      drop-two a b c (at + length d) (omega arith) in
    write-fits (a ++ (b ++ c)) d at fits
    ∙ ap (λ x. some (x ++ (d ++ drop (at + length d) (a ++ (b ++ c))))) front
    ∙ ap (λ x. some (a ++ (d ++ x))) back

-- The front of a block that grows.
pub realloc-grows :
    (junk : ℕ) (a c : List ℕ) (n : ℕ)
    → length (a ++ c) ≤ n
    → (rest : List ℕ) × (realloc junk (a ++ c) n ≡ a ++ rest) × (length (a ++ rest) ≡ n)
realloc-grows junk a c n fits =
    let block = a ++ c in
    let new = realloc junk block n in
    let le : length a ≤ length block = omega (arith, length-append a c) in
    let kept : take (length a) new ≡ a =
      take-realloc junk block (length a) n (omega arith) le ∙ take-front a c in
    let split : a ++ drop (length a) new ≡ new =
      ap (λ x. x ++ drop (length a) new) (sym kept) ∙ take-append-drop (length a) new in
    (drop (length a) new, sym split, ap length split ∙ length-realloc junk block n)

-- A list with room behind its front, split there.
pub split_room :
    (c : List ℕ) (n : ℕ)
    → n ≤ length c
    → (b : List ℕ) × (d : List ℕ) × (c ≡ b ++ d) × (length b ≡ n)
split_room c n fits =
    (take n c, drop n c, sym (take-append-drop n c), omega (arith, length-take n c))
