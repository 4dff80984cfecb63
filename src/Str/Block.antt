-- ===== src/Str/Block.antt =====
-- Allocated blocks of bytes: realloc, and memcpy into a block.
use cforum_upto.Base.{
  ℕ, zero, suc, ◌+◌, ◌≤◌, ◌<◌, ◌≡◌, refl, sym, ap, ◌∙◌, Option, none, some, List, [], ◌∷◌, ◌++◌,
  leb, le→leb, if◌then◌else◌, length, take, drop, length-append, length-take, length-drop,
  append_assoc, arith,
}

abbrev replicate : ℕ → ℕ → List ℕ
replicate zero a = []
replicate (suc n) a = a ∷ replicate n a

length-replicate : (n a : ℕ) → length (replicate n a) ≡ n
length-replicate zero a = refl
length-replicate (suc n) a = ap suc (length-replicate n a)

-- memcpy of `bytes` to the position `at` of a block.
unfoldable pub write : List ℕ → ℕ → List ℕ → Option (List ℕ)
write block at bytes =
    if leb (at + length bytes) (length block)
    then some (take at block ++ (bytes ++ drop (at + length bytes) block))
    else none

-- realloc to `n` bytes keeps what fits; the rest is `junk`.
unfoldable pub realloc : ℕ → List ℕ → ℕ → List ℕ
realloc junk block n = take n (block ++ replicate n junk)

pub length-realloc : (junk : ℕ) (block : List ℕ) (n : ℕ) → length (realloc junk block n) ≡ n
unfolding realloc
length-realloc junk block n = omega (
  arith,
  length-take n (block ++ replicate n junk),
  length-append block (replicate n junk),
  length-replicate n junk,
)

pub take_of_append : (n : ℕ) (xs ys : List ℕ) → n ≤ length xs → take n (xs ++ ys) ≡ take n xs
take_of_append zero xs ys h = refl
take_of_append (suc n) [] ys h = absurd (omega arith)
take_of_append (suc n) (x ∷ xs) ys h = ap (λ l. x ∷ l) (take_of_append n xs ys (omega arith))

pub take-take : (m n : ℕ) (xs : List ℕ) → m ≤ n → take m (take n xs) ≡ take m xs
take-take zero n xs h = refl
take-take (suc m) zero xs h = absurd (omega arith)
take-take (suc m) (suc n) [] h = refl
take-take (suc m) (suc n) (x ∷ xs) h = ap (λ l. x ∷ l) (take-take m n xs (omega arith))

pub take-realloc :
    (junk : ℕ) (block : List ℕ) (m n : ℕ)
    → m ≤ n
    → m ≤ length block
    → take m (realloc junk block n) ≡ take m block
unfolding realloc
take-realloc junk block m n h k =
    take-take m n (block ++ replicate n junk) h ∙ take_of_append m block (replicate n junk) k

pub take_all : (xs ys : List ℕ) → take (length xs) (xs ++ ys) ≡ xs
take_all [] ys = refl
take_all (x ∷ xs) ys = ap (λ l. x ∷ l) (take_all xs ys)

-- A copy into a block that has room for it.
pub record Written (block : List ℕ) (at : ℕ) (bytes result : List ℕ) : Type 0 where
  pub ran : write block at bytes ≡ some result
  pub size : length result ≡ length block
  pub front : take (at + length bytes) result ≡ take at block ++ bytes

pub written : List ℕ → ℕ → List ℕ → List ℕ
written block at bytes = take at block ++ (bytes ++ drop (at + length bytes) block)

pub write-Written :
    (block : List ℕ) (at : ℕ) (bytes : List ℕ)
    → at + length bytes ≤ length block
    → Written block at bytes (written block at bytes)
unfolding write written
write-Written block at bytes h = record {
  ran = rw (le→leb _ _ h);
  size = omega (
    arith,
    length-append (take at block) (bytes ++ drop (at + length bytes) block),
    length-append bytes (drop (at + length bytes) block),
    length-take at block,
    length-drop (at + length bytes) block,
  );
  front =
      let n : length (take at block ++ bytes) ≡ at + length bytes =
        omega (arith, length-append (take at block) bytes, length-take at block) in
      rw (← n, ← append_assoc) (take_all (take at block ++ bytes) _);
}

-- A copy, and a NUL behind it, into a block that has room for both.
pub record Stored (block : List ℕ) (at : ℕ) (bytes filled ended : List ℕ) : Type 0 where
  pub copied : write block at bytes ≡ some filled
  pub closed : write filled (at + length bytes) (0 ∷ []) ≡ some ended
  pub size : length ended ≡ length block
  pub front : take (at + length bytes) ended ≡ take at block ++ bytes
  pub nul : take (at + length bytes + 1) ended ≡ take (at + length bytes) ended ++ 0 ∷ []

pub stored : List ℕ → ℕ → List ℕ → List ℕ
stored block at bytes = written (written block at bytes) (at + length bytes) (0 ∷ [])

pub write-Stored :
    (block : List ℕ) (at : ℕ) (bytes : List ℕ)
    → at + length bytes < length block
    → Stored block at bytes (written block at bytes) (stored block at bytes)
unfolding stored
write-Stored block at bytes h =
    let first = write-Written block at bytes (omega arith) in
    let filled = written block at bytes in
    let n : ℕ = at + length bytes in
    let second = write-Written filled n (0 ∷ []) (let e = first.size in omega arith) in
    let kept : take n (written filled n (0 ∷ [])) ≡ take n filled =
      sym (take-take n (n + 1) _ (omega arith))
      ∙ ap (take n) second.front
      ∙ take_of_append n (take n filled) (0 ∷ []) (omega (arith, length-take n filled, first.size))
      ∙ take-take n n filled (omega arith) in
    record {
      copied = first.ran;
      closed = second.ran;
      size = second.size ∙ first.size;
      front = kept ∙ first.front;
      nul = second.front ∙ ap (λ (l : List ℕ). l ++ 0 ∷ []) (sym kept);
    }
