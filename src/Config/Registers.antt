-- ===== src/Config/Registers.antt =====
-- The registers that the code generator of src/cfgcomp_codegenerator.c has left.
use cforum_upto.Base.{
  ℕ, zero, suc, ◌+◌, ◌≤◌, ◌<◌, ◌≡◌, ◌≢◌, refl, true, false, ◌||◌, Bool-cases, inl, inr, some, ◌==◌,
  ==_iff, ==_false, if◌then◌else◌, arith,
}
use cforum_upto.Config.Codegen.{Bits, next_from, next_unused_register}

-- The unused ones of the `n` bits from `i` on.
unfoldable pub free_from : ℕ → ℕ → Bits → ℕ
free_from zero i used = 0
free_from (suc n) i used = (if used i then 0 else 1) + free_from n (i + 1) used

abbrev pub free : Bits → ℕ
free = free_from 8 0

abbrev pub SameBits : Bits → Bits → Type 0
SameBits u v = (j : ℕ) → u j ≡ v j

free_from-SameBits : (n i : ℕ) (u v : Bits) → SameBits u v → free_from n i u ≡ free_from n i v
unfolding free_from
free_from-SameBits zero i u v same = refl
free_from-SameBits (suc n) i u v same = rw (same i, free_from-SameBits n (i + 1) u v same) refl

pub free-SameBits : (u v : Bits) → SameBits u v → free u ≡ free v
free-SameBits u v same = free_from-SameBits 8 0 u v same

-- The bits with one more.
abbrev pub plus : Bits → ℕ → Bits
plus u r j = u j || j == r

free_from-plus_below : (n i r : ℕ) (u : Bits) → r < i → free_from n i (plus u r) ≡ free_from n i u
unfolding free_from
free_from-plus_below zero i r u lt = refl
free_from-plus_below (suc n) i r u lt =
    rw (==_false i r (omega arith), free_from-plus_below n (i + 1) r u (omega arith))
      (elim (Bool-cases (u i)) [ inl is ↦ rw is refl | inr isnt ↦ rw isnt refl ])

free_from-plus :
    (n i r : ℕ) (u : Bits)
    → u r ≡ false
    → i ≤ r
    → r < i + n
    → free_from n i u ≡ suc (free_from n i (plus u r))
unfolding free_from
free_from-plus zero i r u unused low high = absurd (omega arith)
free_from-plus (suc n) i r u unused low high = elim (Bool-cases (i == r)) [
  | inl here ↦
      let is : i ≡ r = (==_iff i r).0 here in
      let here_free : u i ≡ false = rw is unused in
      rw (here_free, here, free_from-plus_below n (i + 1) r u (omega arith)) (omega arith)
  | inr later ↦
      let ne : i ≢ r = λ k. ground arith in
      let rest = free_from-plus n (i + 1) r u unused (omega arith) (omega arith) in
      elim (Bool-cases (u i)) [
        | inl is ↦ rw (is, rest) (omega arith)
        | inr isnt ↦ rw (isnt, later, rest) (omega arith)
      ]
]

abbrev Found : ℕ → ℕ → Bits → Type 0
Found n i u = (r : ℕ) × (next_from n i u ≡ some r) × (u r ≡ false) × (i ≤ r) × (r < i + n)

used-Found : (n i : ℕ) (u : Bits) → u i ≡ true → Found n (i + 1) u → Found (suc n) i u
unfolding next_from
used-Found n i u is (r, e, unused, low, high) = (r, rw is e, unused, omega arith, omega arith)

unused-Found : (n i : ℕ) (u : Bits) → u i ≡ false → Found (suc n) i u
unfolding next_from
unused-Found n i u isnt = (i, rw isnt refl, isnt, omega arith, omega arith)

free_from-used : (n i : ℕ) (u : Bits) → u i ≡ true → free_from (suc n) i u ≡ free_from n (i + 1) u
unfolding free_from
free_from-used n i u is = rw is (omega arith)

next_from_lem : (n i : ℕ) (u : Bits) → 0 < free_from n i u → Found n i u
unfolding free_from
next_from_lem zero i u some_free = absurd (omega arith)
next_from_lem (suc n) i u some_free = elim (Bool-cases (u i)) [
  | inl is ↦
      used-Found n i u is (next_from_lem n (i + 1) u (omega (arith, free_from-used n i u is)))
  | inr isnt ↦ unused-Found n i u isnt
]

pub free-plus : (u : Bits) (r : ℕ) → u r ≡ false → r < 8 → free u ≡ suc (free (plus u r))
free-plus u r unused high = free_from-plus 8 0 r u unused (omega arith) (omega arith)

-- A register is found while one is free.
pub next_unused_register_lem :
    (u : Bits) → 0 < free u → (r : ℕ) × (next_unused_register u ≡ some r) × (u r ≡ false) × (r < 8)
unfolding next_unused_register
next_unused_register_lem u some_free =
    let (r, e, unused, low, high) = next_from_lem 8 0 u some_free in (r, e, unused, omega arith)
