-- ===== src/Config/Parser/Shape.antt =====
-- The trees that cf_cfg_parser_insert_node of src/cfgcomp_parser.c builds in the memory.
use cforum_upto.Base.{
  ℕ, suc, ◌≤◌, ◌<◌, ◌≡◌, ◌≢◌, ap, ◌∙◌, Option, none, some, List, [], ◌∷◌, ◌++◌, arith,
}
use cforum_upto.Config.{Token}
use cforum_upto.Config.Parser.{Cell, role, operator, precedence}

-- An expression: its tokens with their addresses.
pub data Expression : Type 0 where
  atom : ℕ → Token → Expression
  apply : ℕ → Token → Expression → Expression → Expression

-- The operators that the current place is to the right of, from the inside to the root, each with
-- its left side.
pub data Spine : Type 0 where
  root : Spine
  right_of : ℕ → Token → Expression → Spine → Spine

abbrev pub address : Expression → ℕ
address (atom a k) = a
address (apply a k l r) = a

abbrev pub root_precedence : Expression → ℕ
root_precedence (atom a k) = precedence k
root_precedence (apply a k l r) = precedence k

abbrev pub tokens : Expression → List Token
tokens (atom a k) = k ∷ []
tokens (apply a k l r) = tokens l ++ k ∷ tokens r

abbrev pub innermost : Spine → Option ℕ
innermost root = none
innermost (right_of a k l f) = some a

abbrev pub inner_precedence : Spine → ℕ
inner_precedence root = 0
inner_precedence (right_of a k l f) = precedence k

abbrev pub spine_tokens : Spine → List Token
spine_tokens root = []
spine_tokens (right_of a k l f) = spine_tokens f ++ (tokens l ++ k ∷ [])

-- An operand, or an operator with both sides. What stands on the left of an operator binds
-- tighter than it, and what stands on the right as tight or tighter.
abbrev pub IsParsed : Expression → Type 0
IsParsed (atom a k) = precedence k ≡ 100
IsParsed (apply a k l r) =
    (role k ≡ operator)
    × (precedence k < root_precedence l)
    × (precedence k ≤ root_precedence r)
    × IsParsed l
    × IsParsed r

abbrev pub IsSpine : Spine → Type 0
IsSpine root = Unit
IsSpine (right_of a k l f) =
    (role k ≡ operator)
    × (precedence k < root_precedence l)
    × (inner_precedence f ≤ precedence k)
    × IsParsed l
    × IsSpine f

-- The addresses in the order of the tokens are those from `lo` up to `hi`.
abbrev pub Spans : ℕ → ℕ → Expression → Type 0
Spans lo hi (atom a k) = (a ≡ lo) × (hi ≡ suc a)
Spans lo hi (apply a k l r) = Spans lo a l × Spans (suc a) hi r

abbrev pub low : Spine → ℕ
low root = 0
low (right_of a k l f) = suc a

abbrev pub SpineSpans : Spine → Type 0
SpineSpans root = Unit
SpineSpans (right_of a k l f) = Spans (low f) a l × SpineSpans f

abbrev pub node : Token → Option ℕ → Option ℕ → Option ℕ → Cell
node k l r p = record { type = k; prec = precedence k; left = l; right = r; parent = p }

-- The memory holds the expression below the parent `p`.
abbrev pub Holds : (ℕ → Cell) → Option ℕ → Expression → Type 0
Holds c p (atom a k) = c a ≡ node k none none p
Holds c p (apply a k l r) =
    (c a ≡ node k (some (address l)) (some (address r)) p) × Holds c (some a) l × Holds c (some a) r

-- The memory holds the operators, and `child` is on the right of the innermost one, or the root.
abbrev pub HoldsSpine : (ℕ → Cell) → Option ℕ → Option ℕ → Spine → Type 0
HoldsSpine c tree child root = tree ≡ child
HoldsSpine c tree child (right_of a k l f) =
    (c a ≡ node k (some (address l)) child (innermost f))
    × Holds c (some a) l
    × HoldsSpine c tree (some a) f

abbrev pub Agree : (ℕ → Cell) → (ℕ → Cell) → ℕ → ℕ → Type 0
Agree c d lo hi = (j : ℕ) → lo ≤ j → j < hi → d j ≡ c j

pub Spans-le : (lo hi : ℕ) (t : Expression) → Spans lo hi t → lo < hi
Spans-le lo hi (atom a k) h = omega arith
Spans-le lo hi (apply a k l r) h = omega (arith, Spans-le lo a l h.0, Spans-le (suc a) hi r h.1)

pub Spans-address :
    (lo hi : ℕ) (t : Expression) → Spans lo hi t → (lo ≤ address t) × (address t < hi)
Spans-address lo hi (atom a k) h = (omega arith, omega arith)
Spans-address lo hi (apply a k l r) h =
    (omega (arith, Spans-le lo a l h.0), omega (arith, Spans-le (suc a) hi r h.1))

pub Agree-Holds :
    (c d : ℕ → Cell) (p : Option ℕ) (lo hi : ℕ) (t : Expression)
    → Spans lo hi t
    → Agree c d lo hi
    → Holds c p t
    → Holds d p t
Agree-Holds c d p lo hi (atom a k) s same h = same a (omega arith) (omega arith) ∙ h
Agree-Holds c d p lo hi (apply a k l r) s same h =
    let le_l = Spans-le lo a l s.0 in
    let le_r = Spans-le (suc a) hi r s.1 in
    (
      same a (omega arith) (omega arith) ∙ h.0,
      Agree-Holds c d (some a) lo a l s.0 (λ j u v. same j u (omega arith)) h.1,
      Agree-Holds c d (some a) (suc a) hi r s.1 (λ j u v. same j (omega arith) v) h.2,
    )

abbrev pub with_parent : Option ℕ → Cell → Cell
with_parent q e = record e { parent = q }

-- The root of an expression has another parent, and nothing else of it is changed.
pub Holds-parent :
    (c d : ℕ → Cell) (p q : Option ℕ) (lo hi : ℕ) (t : Expression)
    → Spans lo hi t
    → ((j : ℕ) → lo ≤ j → j < hi → j ≢ address t → d j ≡ c j)
    → d (address t) ≡ with_parent q (c (address t))
    → Holds c p t
    → Holds d q t
Holds-parent c d p q lo hi (atom a k) s same at h = at ∙ ap (with_parent q) h
Holds-parent c d p q lo hi (apply a k l r) s same at h =
    let le_l = Spans-le lo a l s.0 in
    let le_r = Spans-le (suc a) hi r s.1 in
    (
      at ∙ ap (with_parent q) h.0,
      Agree-Holds c d (some a) lo a l s.0 (λ j u v. same j u (omega arith) (omega arith)) h.1,
      Agree-Holds c d (some a) (suc a) hi r s.1 (λ j u v. same j (omega arith) v (omega arith)) h.2,
    )

-- The operators lie below `low`.
pub Agree-HoldsSpine :
    (c d : ℕ → Cell) (tree child : Option ℕ) (f : Spine)
    → SpineSpans f
    → Agree c d 0 (low f)
    → HoldsSpine c tree child f
    → HoldsSpine d tree child f
Agree-HoldsSpine c d tree child root s same h = h
Agree-HoldsSpine c d tree child (right_of a k l f) s same h =
    let le = Spans-le (low f) a l s.0 in
    (
      same a (omega arith) (omega arith) ∙ h.0,
      Agree-Holds c d (some a) (low f) a l s.0 (λ j u v. same j (omega arith) (omega arith)) h.1,
      Agree-HoldsSpine c d tree (some a) f s.1 (λ j u v. same j u (omega arith)) h.2,
    )

abbrev pub depth : Spine → ℕ
depth root = 0
depth (right_of a k l f) = suc (depth f)

pub depth-low : (f : Spine) → SpineSpans f → depth f ≤ low f
depth-low root s = omega arith
depth-low (right_of a k l f) s = omega (arith, depth-low f s.1, Spans-le (low f) a l s.0)
