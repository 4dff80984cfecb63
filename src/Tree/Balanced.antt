-- ===== src/Tree/Balanced.antt =====
-- cf_tree_insert and cf_tree_remove of src/treeutils.c keep the height balance and read no null
-- pointer.
use Prim.Native.Nat.{Ordering}
use Prim.Native.Nat.Ordering.{lt, eq, gt}
use cforum_upto.Base.{ℕ, suc, refl, max, Option, none, some, arith}
use cforum_upto.Tree.{
  Balance, Tree, leaf, node, Outcome, unchanged, changed, failed, Step, Found, absent, taken, ◌>>=◌,
  settle, taking, leftgrown, rightgrown, leftshrunk, rightshrunk, find_with, findhighest,
  findlowest, remove_right, remove_root, insert, remove,
}
use cforum_upto.Tree.Avl.{
  Slant, height, IsAvl, Grown, Shrunk, leftgrown-Grown, rightgrown-Grown, leftshrunk-Shrunk,
  rightshrunk-Shrunk,
}

module _ {ℓ} {D : Type ℓ} where
  settle-leftgrown :
      (b : Balance) (x : D) (r : Tree D) (n : ℕ) (s : Outcome) (l : Tree D)
      → Slant b n (height r)
      → IsAvl r
      → Grown n (some (s, l))
      → Grown (suc (max n (height r))) (settle leftgrown s (node b l x r))
  settle-leftgrown b x r n changed l sl c h = leftgrown-Grown b l x r sl h.0 h.1 h.2 c
  settle-leftgrown b x r n unchanged l sl c h = ground arith
  settle-leftgrown b x r n failed l sl c h = ground arith

  settle-rightgrown :
      (b : Balance) (l : Tree D) (x : D) (n : ℕ) (s : Outcome) (r : Tree D)
      → Slant b (height l) n
      → IsAvl l
      → Grown n (some (s, r))
      → Grown (suc (max (height l) n)) (settle rightgrown s (node b l x r))
  settle-rightgrown b l x n changed r sl c h = rightgrown-Grown b l x r sl h.0 h.1 h.2 c
  settle-rightgrown b l x n unchanged r sl c h = ground arith
  settle-rightgrown b l x n failed r sl c h = ground arith

  settle-leftshrunk :
      (b : Balance) (x : D) (r : Tree D) (n : ℕ) (s : Outcome) (l : Tree D)
      → Slant b n (height r)
      → IsAvl r
      → Shrunk n (some (s, l))
      → Shrunk (suc (max n (height r))) (settle leftshrunk s (node b l x r))
  settle-leftshrunk b x r n changed l sl c h = leftshrunk-Shrunk b l x r sl h.0 h.1 c
  settle-leftshrunk b x r n unchanged l sl c h = ground arith
  settle-leftshrunk b x r n failed l sl c h = ground arith

  settle-rightshrunk :
      (b : Balance) (l : Tree D) (x : D) (n : ℕ) (s : Outcome) (r : Tree D)
      → Slant b (height l) n
      → IsAvl l
      → Shrunk n (some (s, r))
      → Shrunk (suc (max (height l) n)) (settle rightshrunk s (node b l x r))
  settle-rightshrunk b l x n changed r sl c h = rightshrunk-Shrunk b l x r sl h.0 h.1 c
  settle-rightshrunk b l x n unchanged r sl c h = ground arith
  settle-rightshrunk b l x n failed r sl c h = ground arith

  -- Detaching an entry from a tree of height `n` ran without a fault, and found one.
  abbrev Detached : ℕ → Option (Found D) → Type 0
  Detached n none = ⊥
  Detached n (some absent) = ⊥
  Detached n (some (taken d s t)) = Shrunk n (some (s, t))

  taking-Detached : (n : ℕ) (d : D) (step : Step D) → Shrunk n step → Detached n (taking d step)
  taking-Detached n d none h = h
  taking-Detached n d (some (s, t)) h = h

  find_right :
      (b : Balance) (l : Tree D) (x : D) (n : ℕ) (o : Option (Found D))
      → Slant b (height l) n
      → IsAvl l
      → Detached n o
      → Detached (suc (max (height l) n)) (find_with rightshrunk (λ r. node b l x r) o)
  find_right b l x n none sl c h = h
  find_right b l x n (some absent) sl c h = h
  find_right b l x n (some (taken d s r)) sl c h =
      taking-Detached _ d _ (settle-rightshrunk b l x n s r sl c h)

  find_left :
      (b : Balance) (x : D) (r : Tree D) (n : ℕ) (o : Option (Found D))
      → Slant b n (height r)
      → IsAvl r
      → Detached n o
      → Detached (suc (max n (height r))) (find_with leftshrunk (λ l. node b l x r) o)
  find_left b x r n none sl c h = h
  find_left b x r n (some absent) sl c h = h
  find_left b x r n (some (taken d s l)) sl c h =
      taking-Detached _ d _ (settle-leftshrunk b x r n s l sl c h)

  findhighest-Detached :
      (b : Balance) (l : Tree D) (x : D) (r : Tree D)
      → IsAvl (node b l x r)
      → Detached (height (node b l x r)) (findhighest (node b l x r))
  unfolding findhighest
  findhighest-Detached b l x leaf h = ground arith
  findhighest-Detached b l x (node rb rl rx rr) h =
      find_right b l x _ _ h.0 h.1 (findhighest-Detached rb rl rx rr h.2)

  findlowest-Detached :
      (b : Balance) (l : Tree D) (x : D) (r : Tree D)
      → IsAvl (node b l x r)
      → Detached (height (node b l x r)) (findlowest (node b l x r))
  unfolding findlowest
  findlowest-Detached b leaf x r h = ground arith
  findlowest-Detached b (node lb ll lx lr) x r h =
      find_left b x r _ _ h.0 h.2 (findlowest-Detached lb ll lx lr h.1)

  put_right :
      (b : Balance) (l : Tree D) (n : ℕ) (o : Option (Found D))
      → Slant b (height l) n
      → IsAvl l
      → Detached n o
      → Shrunk (suc (max (height l) n)) (
          o >>= λ found. elim found [
            | absent ↦ some (changed, leaf)
            | taken d s r ↦ settle rightshrunk s (node b l d r)
          ])
  put_right b l n none sl c h = h
  put_right b l n (some absent) sl c h = elim h [ ]
  put_right b l n (some (taken d s r)) sl c h = settle-rightshrunk b l d n s r sl c h

  put_left :
      (b : Balance) (l r : Tree D) (n : ℕ) (o : Option (Found D))
      → Slant b n (height r)
      → IsAvl r
      → Detached n o
      → Shrunk (suc (max n (height r))) (
          o >>= λ found. elim found [
            | absent ↦ remove_right b l r
            | taken d s l ↦ settle leftshrunk s (node b l d r)
          ])
  put_left b l r n none sl c h = h
  put_left b l r n (some absent) sl c h = elim h [ ]
  put_left b l r n (some (taken d s t)) sl c h = settle-leftshrunk b d r n s t sl c h

  remove_right-Shrunk :
      (b : Balance) (x : D) (r : Tree D)
      → IsAvl (node b leaf x r)
      → Shrunk (height (node b leaf x r)) (remove_right b leaf r)
  unfolding remove_right
  remove_right-Shrunk b x leaf h = ground arith
  remove_right-Shrunk b x (node rb rl rx rr) h =
      put_right b leaf _ _ h.0 tt (findlowest-Detached rb rl rx rr h.2)

  remove_root-Shrunk :
      (b : Balance) (l : Tree D) (x : D) (r : Tree D)
      → IsAvl (node b l x r)
      → Shrunk (height (node b l x r)) (remove_root b l r)
  unfolding remove_root
  remove_root-Shrunk b leaf x r h = remove_right-Shrunk b x r h
  remove_root-Shrunk b (node lb ll lx lr) x r h =
      put_left b _ r _ _ h.0 h.2 (findhighest-Detached lb ll lx lr h.1)

  grow_left :
      (b : Balance) (x : D) (r : Tree D) (n : ℕ) (o : Step D)
      → Slant b n (height r)
      → IsAvl r
      → Grown n o
      → Grown (suc (max n (height r))) (o >>= λ (s, t). settle leftgrown s (node b t x r))
  grow_left b x r n none sl c h = h
  grow_left b x r n (some (s, t)) sl c h = settle-leftgrown b x r n s t sl c h

  grow_right :
      (b : Balance) (l : Tree D) (x : D) (n : ℕ) (o : Step D)
      → Slant b (height l) n
      → IsAvl l
      → Grown n o
      → Grown (suc (max (height l) n)) (o >>= λ (s, t). settle rightgrown s (node b l x t))
  grow_right b l x n none sl c h = h
  grow_right b l x n (some (s, t)) sl c h = settle-rightgrown b l x n s t sl c h

  shrink_left :
      (b : Balance) (x : D) (r : Tree D) (n : ℕ) (o : Step D)
      → Slant b n (height r)
      → IsAvl r
      → Shrunk n o
      → Shrunk (suc (max n (height r))) (o >>= λ (s, t). settle leftshrunk s (node b t x r))
  shrink_left b x r n none sl c h = h
  shrink_left b x r n (some (s, t)) sl c h = settle-leftshrunk b x r n s t sl c h

  shrink_right :
      (b : Balance) (l : Tree D) (x : D) (n : ℕ) (o : Step D)
      → Slant b (height l) n
      → IsAvl l
      → Shrunk n o
      → Shrunk (suc (max (height l) n)) (o >>= λ (s, t). settle rightshrunk s (node b l x t))
  shrink_right b l x n none sl c h = h
  shrink_right b l x n (some (s, t)) sl c h = settle-rightshrunk b l x n s t sl c h

module _ {ℓ} {D : Type ℓ} (compare : D → D → Ordering) where
  -- On a balanced tree cf_tree_insert reads no null pointer and returns a balanced tree. It
  -- returns 1 exactly for a tree that is one higher; otherwise the height is the same.
  pub insert-Grown : (t : Tree D) (d : D) → IsAvl t → Grown (height t) (insert compare t d)
  unfolding insert
  insert-Grown leaf d h = ground arith
  insert-Grown (node b l x r) d h =
      elim (compare d x)
        as (λ c. Grown (suc (max (height l) (height r))) (elim c [
          | lt ↦ insert compare l d >>= λ (s, t). settle leftgrown s (node b t x r)
          | gt ↦ insert compare r d >>= λ (s, t). settle rightgrown s (node b l x t)
          | eq ↦ some (failed, node b l x r)
        ])) [
          | lt ↦ grow_left b x r _ _ h.0 h.2 (insert-Grown l d h.1)
          | gt ↦ grow_right b l x _ _ h.0 h.1 (insert-Grown r d h.2)
          | eq ↦ (h, refl)
        ]

  -- On a balanced tree cf_tree_remove reads no null pointer and returns a balanced tree. It
  -- returns 1 exactly for a tree that is one lower; otherwise the height is the same.
  pub remove-Shrunk : (t : Tree D) (k : D) → IsAvl t → Shrunk (height t) (remove compare t k)
  unfolding remove
  remove-Shrunk leaf k h = ground arith
  remove-Shrunk (node b l x r) k h =
      elim (compare k x)
        as (λ c. Shrunk (suc (max (height l) (height r))) (elim c [
          | lt ↦ remove compare l k >>= λ (s, t). settle leftshrunk s (node b t x r)
          | gt ↦ remove compare r k >>= λ (s, t). settle rightshrunk s (node b l x t)
          | eq ↦ remove_root b l r
        ])) [
          | lt ↦ shrink_left b x r _ _ h.0 h.2 (remove-Shrunk l k h.1)
          | gt ↦ shrink_right b l x _ _ h.0 h.1 (remove-Shrunk r k h.2)
          | eq ↦ remove_root-Shrunk b l x r h
        ]
