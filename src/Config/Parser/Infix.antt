-- ===== src/Config/Parser/Infix.antt =====
-- The loop of cf_cfg_parser of src/cfgcomp_parser.c over operands with operators between them.
use cforum_upto.Base.{
  ℕ, ◌+◌, ◌≤◌, ◌≡◌, refl, sym, ap, ◌∙◌, none, some, List, [], ◌∷◌, ◌++◌, append-nil, append_assoc,
  length, arith,
}
use cforum_upto.Config.{Token}
use cforum_upto.Config.Parser.{
  Cell, Parse, Parsing, parsed, role, operator, operand, stored_type, new_token, insert_node,
  add_token, next_of, then_parse, parse_tokens, begin,
}
use cforum_upto.Config.Parser.Tokens.{operand_lem}
use cforum_upto.Config.Parser.Shape.{
  Expression, atom, apply, Spine, root, right_of, address, tokens, IsParsed, Holds,
}
use cforum_upto.Config.Parser.Place.{Focus, raise-Focus, seen, seen-apply}
use cforum_upto.Config.Parser.Insert.{write_here}
use cforum_upto.Config.Parser.Steps.{
  stored_type-operand, stored_type-operator, new_token-node, with_token, AfterOperand,
  add_token-operator, add_token-operand,
}

abbrev pub InfixRest : List Token → Type 0
InfixRest [] = Unit
InfixRest (o ∷ []) = ⊥
InfixRest (o ∷ k ∷ ks) = (role o ≡ operator) × (role k ≡ operand) × InfixRest ks

-- Operands with one operator between each two of them.
abbrev pub IsInfix : List Token → Type 0
IsInfix [] = ⊥
IsInfix (k ∷ ks) = (role k ≡ operand) × InfixRest ks

-- The tokens as they are stored: an identifier before a dot has another type.
abbrev pub all_stored : List Token → List Token
all_stored [] = []
all_stored (k ∷ ks) = stored_type k (next_of ks) ∷ all_stored ks

-- The call returns, and the tree in the memory is one with these tokens in their order.
pub record Read (ts : List Token) (r : Parsing) : Type 0 where
  pub state : Parse
  pub expression : Expression
  pub ran : r ≡ parsed state
  pub tree : state.tree ≡ some (address expression)
  pub holds : Holds state.cells none expression
  pub is_parsed : IsParsed expression
  pub same : tokens expression ≡ ts

close-Read :
    (s : Parse) (n : ℕ) (t : Expression) (f : Spine)
    → Focus s.cells s.tree n t f
    → Read (seen t f) (parsed s)
close-Read s n t root h = record {
  state = s;
  expression = t;
  ran = refl;
  tree = h.spine;
  holds = h.holds;
  is_parsed = h.parsed;
  same = refl;
}
close-Read s n t (right_of a k l f) h =
    let up = close-Read s n (apply a k l t) f (raise-Focus s.cells s.tree n a k l t f h) in
    record {
      state = up.state;
      expression = up.expression;
      ran = up.ran;
      tree = up.tree;
      holds = up.holds;
      is_parsed = up.is_parsed;
      same = up.same ∙ seen-apply a k l t f;
    }

Read-of : (ts us : List Token) (q r : Parsing) → ts ≡ us → q ≡ r → Read us r → Read ts q
Read-of ts us q r same run h = rw (same, run) h

parse_tokens-rest :
    (ks : List Token) (fuel a : ℕ) (s : Parse) (k : Token) (f : Spine) (ts : List Token)
    → InfixRest ks
    → AfterOperand s a k f ts
    → s.fresh + length ks ≤ fuel
    → Read (ts ++ all_stored ks) (parse_tokens fuel ks s)
unfolding parse_tokens
parse_tokens-rest [] fuel a s k f ts is h enough =
    Read-of (ts ++ []) (seen (atom a k) f) (parsed s) (parsed s) (append-nil ts ∙ sym h.same) refl
      (close-Read s s.fresh (atom a k) f h.focus)
parse_tokens-rest (o ∷ []) fuel a s k f ts is h enough = absurd is
parse_tokens-rest (o ∷ x ∷ ks) fuel a s k f ts is h enough =
    let op = add_token-operator fuel a k o x s f ts h is.0 (omega arith) in
    let next =
      add_token-operand fuel op.address o x (next_of ks) op.state op.left op.spine (ts ++ o ∷ [])
        op.after is.1 in
    let y = stored_type x (next_of ks) in
    let rest =
      parse_tokens-rest ks fuel next.address next.state y (right_of op.address o op.left op.spine)
        ((ts ++ o ∷ []) ++ y ∷ []) is.2 next.after (omega (arith, op.counted, next.counted)) in
    Read-of (ts ++ stored_type o x ∷ y ∷ all_stored ks)
      (((ts ++ o ∷ []) ++ y ∷ []) ++ all_stored ks) (parse_tokens fuel (o ∷ x ∷ ks) s)
      (parse_tokens fuel ks next.state)
      (ap (λ t. ts ++ t ∷ y ∷ all_stored ks) (stored_type-operator o x is.0)
        ∙ sym (append_assoc ts (o ∷ []) (y ∷ all_stored ks))
        ∙ sym (append_assoc (ts ++ o ∷ []) (y ∷ []) (all_stored ks)))
      (ap (λ r. then_parse r (parse_tokens fuel (x ∷ ks))) op.ran
        ∙ ap (λ r. then_parse r (parse_tokens fuel ks)) next.ran)
      rest

first_token :
    (fuel : ℕ) (k next : Token) (c : ℕ → Cell)
    → role k ≡ operand
    → add_token fuel k next (begin c)
      ≡ parsed (record (with_token k next (begin c)) { tree = some 0; cur = some 0 })
unfolding add_token insert_node
first_token fuel k next c is = rw is refl

-- Operands with operators between them are read without an error, NULL is not followed, and the
-- search for a place ends. The tree has the tokens in their order, an operand in each leaf and an
-- operator above two sides; what stands on the left of an operator has a higher precedence, and
-- what stands on the right one as high or higher. All links of the tree, up and down, are right.
pub parse_tokens-Read :
    (ks : List Token) (fuel : ℕ) (c : ℕ → Cell)
    → IsInfix ks
    → length ks ≤ fuel
    → Read (all_stored ks) (parse_tokens fuel ks (begin c))
unfolding parse_tokens
parse_tokens-Read [] fuel c is enough = absurd is
parse_tokens-Read (k ∷ ks) fuel c is enough =
    let next = next_of ks in
    let facts = stored_type-operand k next is.0 in
    let s : Parse = record (with_token k next (begin c)) { tree = some 0; cur = some 0 } in
    let at = new_token-node k next ((operand_lem k is.0).0 ∙ sym facts.0) in
    let after : AfterOperand s 0 (stored_type k next) root (stored_type k next ∷ []) = record {
      focus = record {
        holds = write_here 0 (new_token k next) c ∙ at;
        spine = refl;
        parsed = facts.0;
        is_spine = tt;
        spans = (refl, refl);
        spine_spans = tt;
        order = omega arith;
      };
      cur = refl;
      prev = refl;
      no_operator = facts.1;
      same = refl;
    } in
    Read-of (all_stored (k ∷ ks)) (stored_type k next ∷ all_stored ks)
      (parse_tokens fuel (k ∷ ks) (begin c)) (parse_tokens fuel ks s) refl
      (ap (λ r. then_parse r (parse_tokens fuel ks)) (first_token fuel k next c is.0))
      (parse_tokens-rest ks fuel 0 s (stored_type k next) root (stored_type k next ∷ []) is.1 after
        (omega arith))
