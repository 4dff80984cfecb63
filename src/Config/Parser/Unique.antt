-- ===== src/Config/Parser/Unique.antt =====
-- The tree that src/cfgcomp_parser.c builds is the only one that the precedences allow.
use mathlib.Core.Path.{subst}
use cforum_upto.Base.{
  ℕ, suc, ◌≤◌, ◌≡◌, refl, sym, ap, ◌∙◌, List, [], ◌∷◌, ◌++◌, length, length-append, drop, arith,
}
use cforum_upto.Config.{Token}
use cforum_upto.Config.Codegen.{Tree, absent, node, no_trees}
use cforum_upto.Config.Parser.{Cell, precedence, next_of, parse_tokens, begin}
use cforum_upto.Config.Parser.Shape.{Expression, atom, apply, tokens, root_precedence, IsParsed}
use cforum_upto.Config.Parser.Infix.{IsInfix, all_stored, Read, parse_tokens-Read}

abbrev AtLeast : ℕ → List Token → Type 0
AtLeast p [] = Unit
AtLeast p (k ∷ ks) = (p ≤ precedence k) × AtLeast p ks

AtLeast-le : (p q : ℕ) (ks : List Token) → p ≤ q → AtLeast q ks → AtLeast p ks
AtLeast-le p q [] le h = tt
AtLeast-le p q (k ∷ ks) le h = (omega arith, AtLeast-le p q ks le h.1)

AtLeast-append : (p : ℕ) (xs ys : List Token) → AtLeast p xs → AtLeast p ys → AtLeast p (xs ++ ys)
AtLeast-append p [] ys h k = k
AtLeast-append p (x ∷ xs) ys h k = (h.0, AtLeast-append p xs ys h.1 k)

AtLeast-middle :
    (p : ℕ) (xs ys : List Token) (k : Token) → AtLeast p (xs ++ k ∷ ys) → p ≤ precedence k
AtLeast-middle p [] ys k h = h.0
AtLeast-middle p (x ∷ xs) ys k h = AtLeast-middle p xs ys k h.1

-- No token of an expression binds less tight than its root.
tokens-AtLeast : (t : Expression) → IsParsed t → AtLeast (root_precedence t) (tokens t)
tokens-AtLeast (atom a k) h = (omega arith, tt)
tokens-AtLeast (apply a k l r) h =
    AtLeast-append (precedence k) (tokens l) (k ∷ tokens r)
      (AtLeast-le (precedence k) (root_precedence l) (tokens l) (omega (arith, h.1))
        (tokens-AtLeast l h.3))
      (
        omega arith,
        AtLeast-le (precedence k) (root_precedence r) (tokens r) h.2 (tokens-AtLeast r h.4),
      )

abbrev SameSplit : List Token → Token → List Token → List Token → Token → List Token → Type 0
SameSplit xs a ys us b vs = (xs ≡ us) × (a ≡ b) × (ys ≡ vs)

-- The operator at the root is the first one of the lowest precedence.
first_lowest :
    (xs us ys vs : List Token) (a b : Token)
    → xs ++ a ∷ ys ≡ us ++ b ∷ vs
    → AtLeast (suc (precedence a)) xs
    → AtLeast (precedence a) ys
    → AtLeast (suc (precedence b)) us
    → AtLeast (precedence b) vs
    → SameSplit xs a ys us b vs
first_lowest [] [] ys vs a b e hx hy hu hv = (refl, ap next_of e, ap (drop 1) e)
first_lowest [] (u ∷ us) ys vs a b e hx hy hu hv =
    let first : a ≡ u = ap next_of e in
    let rest : ys ≡ us ++ b ∷ vs = ap (drop 1) e in
    let le = AtLeast-middle (precedence a) us vs b (subst (AtLeast (precedence a)) rest hy) in
    absurd (omega (arith, le, hu.0, ap precedence first))
first_lowest (x ∷ xs) [] ys vs a b e hx hy hu hv =
    let first : x ≡ b = ap next_of e in
    let rest : xs ++ a ∷ ys ≡ vs = ap (drop 1) e in
    let le = AtLeast-middle (precedence b) xs ys a (subst (AtLeast (precedence b)) (sym rest) hv) in
    absurd (omega (arith, le, hx.0, ap precedence first))
first_lowest (x ∷ xs) (u ∷ us) ys vs a b e hx hy hu hv =
    let first : x ≡ u = ap next_of e in
    let k = first_lowest xs us ys vs a b (ap (drop 1) e) hx.1 hy hu.1 hv in
    (ap (λ y. y ∷ xs) first ∙ ap (λ l. u ∷ l) k.0, k.1, k.2)

-- The tree without the addresses.
abbrev pub skeleton : Expression → Tree
skeleton (atom a k) = node k 0 [] absent absent no_trees
skeleton (apply a k l r) = node k 0 [] (skeleton l) (skeleton r) no_trees

tokens-length : (t : Expression) → 1 ≤ length (tokens t)
tokens-length (atom a k) = omega arith
tokens-length (apply a k l r) = omega (arith, length-append (tokens l) (k ∷ tokens r))

atom-no_apply : (k o : Token) (l r : Expression) → k ∷ [] ≡ tokens l ++ o ∷ tokens r → ⊥
atom-no_apply k o l r e =
    omega (arith, ap length e, length-append (tokens l) (o ∷ tokens r), tokens-length l)

skeleton-tokens :
    (t u : Expression) → IsParsed t → IsParsed u → tokens t ≡ tokens u → skeleton t ≡ skeleton u
skeleton-tokens (atom a k) (atom b o) ht hu e =
    ap (λ x. node x 0 [] absent absent no_trees) (ap next_of e)
skeleton-tokens (atom a k) (apply b o l r) ht hu e = absurd (atom-no_apply k o l r e)
skeleton-tokens (apply a k l r) (atom b o) ht hu e = absurd (atom-no_apply o k l r (sym e))
skeleton-tokens (apply a k l r) (apply b o m s) ht hu e =
    let same =
      first_lowest (tokens l) (tokens m) (tokens r) (tokens s) k o e
        (AtLeast-le (suc (precedence k)) (root_precedence l) (tokens l) ht.1
          (tokens-AtLeast l ht.3))
        (AtLeast-le (precedence k) (root_precedence r) (tokens r) ht.2 (tokens-AtLeast r ht.4))
        (AtLeast-le (suc (precedence o)) (root_precedence m) (tokens m) hu.1
          (tokens-AtLeast m hu.3))
        (AtLeast-le (precedence o) (root_precedence s) (tokens s) hu.2 (tokens-AtLeast s hu.4)) in
    ap (λ x. node x 0 [] (skeleton l) (skeleton r) no_trees) same.1
    ∙ ap (λ x. node o 0 [] x (skeleton r) no_trees) (skeleton-tokens l m ht.3 hu.3 same.0)
    ∙ ap (λ x. node o 0 [] (skeleton m) x no_trees) (skeleton-tokens r s ht.4 hu.4 same.2)

-- Operands with operators between them are read into the one tree that has these tokens in their
-- order, and in which what stands on the left of an operator binds tighter than it, and what
-- stands on the right as tight or tighter.
pub parse_tokens-skeleton :
    (ks : List Token) (fuel : ℕ) (c : ℕ → Cell) (u : Expression)
    → IsInfix ks
    → length ks ≤ fuel
    → IsParsed u
    → tokens u ≡ all_stored ks
    → (h : Read (all_stored ks) (parse_tokens fuel ks (begin c))) × (skeleton h.expression
        ≡ skeleton u)
parse_tokens-skeleton ks fuel c u is enough parsed same =
    let h = parse_tokens-Read ks fuel c is enough in
    (h, skeleton-tokens h.expression u h.is_parsed parsed (h.same ∙ sym same))
