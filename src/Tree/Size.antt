-- ===== src/Tree/Size.antt =====
-- How high a tree of src/treeutils.c can be.
use cforum_upto.Base.{ℕ, zero, suc, ◌+◌, ◌≤◌, ◌≡◌, max, ap, arith}
use cforum_upto.Tree.{even, left, right, Tree, leaf, node}
use cforum_upto.Tree.Avl.{height, IsAvl}

abbrev pub size {ℓ} : {D : Type ℓ} → Tree D → ℕ
size leaf = 0
size (node b l x r) = suc (size l + size r)

-- The Fibonacci numbers.
abbrev pub fib : ℕ → ℕ
fib zero = 0
fib (suc zero) = 1
fib (suc (suc n)) = fib (suc n) + fib n

fib_mono : (n : ℕ) → fib n ≤ fib (suc n)
fib_mono zero = omega arith
fib_mono (suc n) = omega arith

max_left : (m n : ℕ) → m ≡ suc n → max m n ≡ suc n
max_left m n h = omega arith

max_right : (m n : ℕ) → n ≡ suc m → max m n ≡ suc m
max_right m n h = omega arith

max_same : (m n : ℕ) → m ≡ n → max m n ≡ n
max_same m n h = omega arith

-- A balanced tree of height `h` has at least `fib (h + 2) - 1` entries.
pub fib-height_le_size {ℓ} :
    {D : Type ℓ} (t : Tree D) → IsAvl t → fib (suc (suc (height t))) ≤ size t + 1
fib-height_le_size leaf h = omega arith
fib-height_le_size (node even l x r) h = ground (
  arith,
  fib-height_le_size l h.1,
  fib-height_le_size r h.2,
  max_same (height l) (height r) h.0,
  ap fib h.0,
  ap (λ n. fib (suc n)) h.0,
  fib_mono (height r),
)
fib-height_le_size (node left l x r) h =
    rw (max_left (height l) (height r) h.0)
      (let i = rw (h.0) at (fib-height_le_size l h.1) in omega (arith, i, fib-height_le_size r h.2))
fib-height_le_size (node right l x r) h =
    rw (max_right (height l) (height r) h.0)
      (let i = rw (h.0) at (fib-height_le_size r h.2) in omega (arith, i, fib-height_le_size l h.1))
