-- ===== src/Tree/Avl.antt =====
-- The height balance of src/treeutils.c.
use cforum_upto.Base.{ℕ, suc, ◌≡◌, max, none, some, arith}
use cforum_upto.Tree.{
  Balance, even, left, right, Tree, leaf, node, unchanged, changed, failed, Step, leftgrown,
  rightgrown, leftshrunk, rightshrunk,
}

-- What the balance field claims of the heights of the subtrees.
abbrev pub Slant : Balance → ℕ → ℕ → Type 0
Slant even m n = m ≡ n
Slant left m n = m ≡ suc n
Slant right m n = n ≡ suc m

module _ {ℓ} {D : Type ℓ} where
  abbrev pub height : Tree D → ℕ
  height leaf = 0
  height (node b l x r) = suc (max (height l) (height r))

  -- Every balance field is true: so the heights of siblings differ by at most one.
  abbrev pub IsAvl : Tree D → Type 0
  IsAvl leaf = Unit
  IsAvl (node b l x r) = Slant b (height l) (height r) × IsAvl l × IsAvl r

  -- A tree that has just grown leans to one side, unless it is a single node.
  abbrev pub Leans : Tree D → Type 0
  Leans leaf = ⊥
  Leans (node even l x r) = height l ≡ 0
  Leans (node left l x r) = Unit
  Leans (node right l x r) = Unit

  -- An insertion into a tree of height `n` ran without a fault.
  abbrev pub Grown : ℕ → Step D → Type 0
  Grown n none = ⊥
  Grown n (some (changed, t)) = IsAvl t × (height t ≡ suc n) × Leans t
  Grown n (some (unchanged, t)) = IsAvl t × (height t ≡ n)
  Grown n (some (failed, t)) = IsAvl t × (height t ≡ n)

  -- A removal from a tree of height `n` ran without a fault.
  abbrev pub Shrunk : ℕ → Step D → Type 0
  Shrunk n none = ⊥
  Shrunk n (some (changed, t)) = IsAvl t × (n ≡ suc (height t))
  Shrunk n (some (unchanged, t)) = IsAvl t × (n ≡ height t)
  Shrunk n (some (failed, t)) = IsAvl t × (n ≡ height t)

  pub leftgrown-Grown :
      (b : Balance) (l : Tree D) (x : D) (r : Tree D) {n : ℕ}
      → Slant b n (height r)
      → IsAvl l
      → height l ≡ suc n
      → Leans l
      → IsAvl r
      → Grown (suc (max n (height r))) (leftgrown (node b l x r))
  unfolding leftgrown
  leftgrown-Grown even l x r s a e g c = ground arith
  leftgrown-Grown right l x r s a e g c = ground arith
  leftgrown-Grown left leaf x r s a e g c = ground arith
  leftgrown-Grown left (node left ll lx lr) x r s a e g c = ground arith
  leftgrown-Grown left (node even ll lx lr) x r s a e g c = ground arith
  leftgrown-Grown left (node right ll lx leaf) x r s a e g c = ground arith
  leftgrown-Grown left (node right ll lx (node even ml mx mr)) x r s a e g c = ground arith
  leftgrown-Grown left (node right ll lx (node left ml mx mr)) x r s a e g c = ground arith
  leftgrown-Grown left (node right ll lx (node right ml mx mr)) x r s a e g c = ground arith

  pub rightgrown-Grown :
      (b : Balance) (l : Tree D) (x : D) (r : Tree D) {n : ℕ}
      → Slant b (height l) n
      → IsAvl r
      → height r ≡ suc n
      → Leans r
      → IsAvl l
      → Grown (suc (max (height l) n)) (rightgrown (node b l x r))
  unfolding rightgrown
  rightgrown-Grown even l x r s a e g c = ground arith
  rightgrown-Grown left l x r s a e g c = ground arith
  rightgrown-Grown right l x leaf s a e g c = ground arith
  rightgrown-Grown right l x (node right rl rx rr) s a e g c = ground arith
  rightgrown-Grown right l x (node even rl rx rr) s a e g c = ground arith
  rightgrown-Grown right l x (node left leaf rx rr) s a e g c = ground arith
  rightgrown-Grown right l x (node left (node even ml mx mr) rx rr) s a e g c = ground arith
  rightgrown-Grown right l x (node left (node left ml mx mr) rx rr) s a e g c = ground arith
  rightgrown-Grown right l x (node left (node right ml mx mr) rx rr) s a e g c = ground arith

  pub leftshrunk-Shrunk :
      (b : Balance) (l : Tree D) (x : D) (r : Tree D) {n : ℕ}
      → Slant b n (height r)
      → IsAvl l
      → n ≡ suc (height l)
      → IsAvl r
      → Shrunk (suc (max n (height r))) (leftshrunk (node b l x r))
  unfolding leftshrunk
  leftshrunk-Shrunk even l x r s a e c = ground arith
  leftshrunk-Shrunk left l x r s a e c = ground arith
  leftshrunk-Shrunk right l x leaf s a e c = ground arith
  leftshrunk-Shrunk right l x (node right rl rx rr) s a e c = ground arith
  leftshrunk-Shrunk right l x (node even rl rx rr) s a e c = ground arith
  leftshrunk-Shrunk right l x (node left leaf rx rr) s a e c = ground arith
  leftshrunk-Shrunk right l x (node left (node even ml mx mr) rx rr) s a e c = ground arith
  leftshrunk-Shrunk right l x (node left (node left ml mx mr) rx rr) s a e c = ground arith
  leftshrunk-Shrunk right l x (node left (node right ml mx mr) rx rr) s a e c = ground arith

  pub rightshrunk-Shrunk :
      (b : Balance) (l : Tree D) (x : D) (r : Tree D) {n : ℕ}
      → Slant b (height l) n
      → IsAvl r
      → n ≡ suc (height r)
      → IsAvl l
      → Shrunk (suc (max (height l) n)) (rightshrunk (node b l x r))
  unfolding rightshrunk
  rightshrunk-Shrunk even l x r s a e c = ground arith
  rightshrunk-Shrunk right l x r s a e c = ground arith
  rightshrunk-Shrunk left leaf x r s a e c = ground arith
  rightshrunk-Shrunk left (node left ll lx lr) x r s a e c = ground arith
  rightshrunk-Shrunk left (node even ll lx lr) x r s a e c = ground arith
  rightshrunk-Shrunk left (node right ll lx leaf) x r s a e c = ground arith
  rightshrunk-Shrunk left (node right ll lx (node even ml mx mr)) x r s a e c = ground arith
  rightshrunk-Shrunk left (node right ll lx (node left ml mx mr)) x r s a e c = ground arith
  rightshrunk-Shrunk left (node right ll lx (node right ml mx mr)) x r s a e c = ground arith
