-- ===== src/Config/Parser/Compile.antt =====
-- The parser of src/cfgcomp_parser.c and the code generator of src/cfgcomp_codegenerator.c one
-- after the other.
use cforum_upto.Base.{
  ℕ, suc, ◌+◌, ◌*◌, ◌≤◌, ◌≡◌, ◌≢◌, refl, sym, ap, none, List, [], ◌∷◌, ◌++◌, length, length-append,
  arith,
}
use mathlib.Core.Path.{subst}
use cforum_upto.Config.{Token}
use cforum_upto.Config.Codegen.{
  Tree, absent, node, no_trees, Line, Bits, Shape, two, same, assign, dot, negation, num, ident,
  array_value, bracket, str, dollar, unexpected, shape, codegenerator_tokens,
}
use cforum_upto.Config.Machine.{Machine, eval, IsShape, IsValue, need_shape, need}
use cforum_upto.Config.Registers.{free}
use cforum_upto.Config.Emits.{Good}
use cforum_upto.Config.Compiled.{codegenerator_tokens-Good}
use cforum_upto.Config.Parser.{Cell, parse_tokens, begin}
use cforum_upto.Config.Parser.Tokens.{IsLeaf, leaf_lem}
use cforum_upto.Config.Parser.Shape.{Expression, atom, apply, tokens, IsParsed}
use cforum_upto.Config.Parser.Infix.{IsInfix, all_stored, Read, parse_tokens-Read}

-- The tree that the code generator gets, with the numbers and texts that the tokens have.
abbrev pub as_tree : (ℕ → ℕ) → (ℕ → List ℕ) → Expression → Tree
as_tree ival sval (atom a k) = node k (ival a) (sval a) absent absent no_trees
as_tree ival sval (apply a k l r) =
    node k (ival a) (sval a) (as_tree ival sval l) (as_tree ival sval r) no_trees

-- Neither an assignment nor a dot.
abbrev pub IsPlain : Shape → Type 0
IsPlain (two m) = Unit
IsPlain (same m) = Unit
IsPlain negation = Unit
IsPlain num = Unit
IsPlain ident = Unit
IsPlain str = Unit
IsPlain _ = ⊥

abbrev pub AllPlain : List Token → Type 0
AllPlain [] = Unit
AllPlain (k ∷ ks) = IsPlain (shape k) × AllPlain ks

AllPlain-split :
    (xs : List Token) (k : Token) (ys : List Token)
    → AllPlain (xs ++ k ∷ ys)
    → AllPlain xs × IsPlain (shape k) × AllPlain ys
AllPlain-split [] k ys h = (tt, h.0, h.1)
AllPlain-split (x ∷ xs) k ys h =
    let rest = AllPlain-split xs k ys h.1 in ((h.0, rest.0), rest.1, rest.2)

leaf-IsShape : (s : Shape) (L R A : Type 0) (t : Tree) → IsLeaf s → IsShape s L R t A
leaf-IsShape num L R A t h = tt
leaf-IsShape ident L R A t h = tt
leaf-IsShape str L R A t h = tt
leaf-IsShape (two m) L R A t h = elim h [ ]
leaf-IsShape (same m) L R A t h = elim h [ ]
leaf-IsShape assign L R A t h = elim h [ ]
leaf-IsShape dot L R A t h = elim h [ ]
leaf-IsShape negation L R A t h = elim h [ ]
leaf-IsShape array_value L R A t h = elim h [ ]
leaf-IsShape bracket L R A t h = elim h [ ]
leaf-IsShape dollar L R A t h = elim h [ ]
leaf-IsShape unexpected L R A t h = elim h [ ]

plain-IsShape : (s : Shape) (L R A : Type 0) (t : Tree) → IsPlain s → L → R → IsShape s L R t A
plain-IsShape (two m) L R A t h l r = (l, r)
plain-IsShape (same m) L R A t h l r = (l, r)
plain-IsShape negation L R A t h l r = l
plain-IsShape num L R A t h l r = tt
plain-IsShape ident L R A t h l r = tt
plain-IsShape str L R A t h l r = tt
plain-IsShape assign L R A t h l r = elim h [ ]
plain-IsShape dot L R A t h l r = elim h [ ]
plain-IsShape array_value L R A t h l r = elim h [ ]
plain-IsShape bracket L R A t h l r = elim h [ ]
plain-IsShape dollar L R A t h l r = elim h [ ]
plain-IsShape unexpected L R A t h l r = elim h [ ]

as_tree-IsValue :
    (ival : ℕ → ℕ) (sval : ℕ → List ℕ) (e : Expression)
    → IsParsed e
    → AllPlain (tokens e)
    → IsValue (as_tree ival sval e)
unfolding IsValue
as_tree-IsValue ival sval (atom a k) parsed plain =
    leaf-IsShape (shape k) ⊥ ⊥ Unit absent (leaf_lem k parsed)
as_tree-IsValue ival sval (apply a k l r) parsed plain =
    let p = AllPlain-split (tokens l) k (tokens r) plain in
    plain-IsShape (shape k) (IsValue (as_tree ival sval l)) (IsValue (as_tree ival sval r)) Unit
      (as_tree ival sval r) p.1 (as_tree-IsValue ival sval l parsed.3 p.0)
      (as_tree-IsValue ival sval r parsed.4 p.2)

abbrev operands : Expression → ℕ
operands (atom a k) = 1
operands (apply a k l r) = operands l + operands r

operands-tokens : (e : Expression) → 2 * operands e ≡ length (tokens e) + 1
operands-tokens (atom a k) = refl
operands-tokens (apply a k l r) =
    omega (arith, operands-tokens l, operands-tokens r, length-append (tokens l) (k ∷ tokens r))

leaf-need : (s : Shape) → IsLeaf s → need_shape s 0 0 0 ≡ 1
leaf-need num h = refl
leaf-need ident h = refl
leaf-need str h = refl
leaf-need (two m) h = elim h [ ]
leaf-need (same m) h = elim h [ ]
leaf-need assign h = elim h [ ]
leaf-need dot h = elim h [ ]
leaf-need negation h = elim h [ ]
leaf-need array_value h = elim h [ ]
leaf-need bracket h = elim h [ ]
leaf-need dollar h = elim h [ ]
leaf-need unexpected h = elim h [ ]

plain-need : (s : Shape) (l r n : ℕ) → IsPlain s → l ≤ n → suc r ≤ n → need_shape s l r 0 ≤ n
plain-need (two m) l r n h x y = omega arith
plain-need (same m) l r n h x y = omega arith
plain-need negation l r n h x y = x
plain-need num l r n h x y = omega arith
plain-need ident l r n h x y = omega arith
plain-need str l r n h x y = omega arith
plain-need assign l r n h x y = elim h [ ]
plain-need dot l r n h x y = elim h [ ]
plain-need array_value l r n h x y = elim h [ ]
plain-need bracket l r n h x y = elim h [ ]
plain-need dollar l r n h x y = elim h [ ]
plain-need unexpected l r n h x y = elim h [ ]

-- A register for each operand is enough.
need-operands :
    (ival : ℕ → ℕ) (sval : ℕ → List ℕ) (e : Expression)
    → IsParsed e
    → AllPlain (tokens e)
    → need (as_tree ival sval e) ≤ operands e
unfolding need
need-operands ival sval (atom a k) parsed plain =
    omega (arith, leaf-need (shape k) (leaf_lem k parsed))
need-operands ival sval (apply a k l r) parsed plain =
    let p = AllPlain-split (tokens l) k (tokens r) plain in
    plain-need (shape k) (need (as_tree ival sval l)) (need (as_tree ival sval r))
      (operands l + operands r) p.1 (omega (arith, need-operands ival sval l parsed.3 p.0))
      (omega (arith, need-operands ival sval r parsed.4 p.2, operands-tokens l))

length-all_stored : (ks : List Token) → length (all_stored ks) ≡ length ks
length-all_stored [] = refl
length-all_stored (k ∷ ks) = ap suc (length-all_stored ks)

-- The text is none of the words that begin the statements for modules.
abbrev pub IsPlainText : List ℕ → Type 0
IsPlainText s =
    (s ≢ b'L' ∷ b'o' ∷ b'a' ∷ b'd' ∷ [])
    × (s ≢ b'M' ∷ b'o' ∷ b'd' ∷ b'u' ∷ b'l' ∷ b'e' ∷ b'P' ∷ b'a' ∷ b't' ∷ b'h' ∷ [])

-- An expression of operands with operators between them, without a dot and without an assignment,
-- is parsed without an error. From the tree that is in the memory then, with any numbers and texts
-- of the tokens but the words `Load` and `ModulePath`, which begin other statements, the code generator writes code that leaves the value of the tree in a free
-- register and keeps those in use, on any machine, if there is a free register for each operand.
pub parse_tokens-codegenerator_tokens :
    {V : Type 0} (M : Machine V) (ks : List Token) (fuel : ℕ) (c : ℕ → Cell) (ival : ℕ → ℕ)
    (sval : ℕ → List ℕ) (used : Bits) (out : List Line)
    → ((a : ℕ) → IsPlainText (sval a))
    → IsInfix ks
    → AllPlain (all_stored ks)
    → length ks ≤ fuel
    → length ks + 1 ≤ 2 * free used
    → (h : Read (all_stored ks) (parse_tokens fuel ks (begin c))) × Good M used out
        (λ f. eval M (as_tree ival sval h.expression) M.global)
        (codegenerator_tokens (as_tree ival sval h.expression) none used out)
parse_tokens-codegenerator_tokens M ks fuel c ival sval used out texts is plain enough room =
    let h = parse_tokens-Read ks fuel c is enough in
    let e = h.expression in
    let all = subst AllPlain (sym h.same) plain in
    let small : need (as_tree ival sval e) ≤ free used = omega (
      arith,
      need-operands ival sval e h.is_parsed all,
      operands-tokens e,
      ap length h.same,
      length-all_stored ks,
    ) in
    (
      h,
      codegenerator_tokens-Good M (as_tree ival sval e) none used out
          (as_tree-IsValue ival sval e h.is_parsed all) tt small,
    )
