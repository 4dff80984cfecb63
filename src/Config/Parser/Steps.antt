-- ===== src/Config/Parser/Steps.antt =====
-- The branch of cf_cfg_parser of src/cfgcomp_parser.c for one token of an expression.
use cforum_upto.Base.{
  ℕ, suc, ◌≤◌, ◌≡◌, refl, sym, ap, ◌∙◌, Bool, true, false, ◌&&◌, Bool-cases, inl, inr, Option, none,
  some, List, [], ◌∷◌, ◌++◌, append_assoc, if◌then◌else◌, arith,
}
use cforum_upto.Config.{Token}
use cforum_upto.Config.Parser.{
  Cell, Parse, Parsing, parsed, refused, write, insert_node, role, operator, operand, precedence,
  isoperator, accepts, prev_operator, is_ident, is_dot, stored_type, new_token, add_token,
}
use cforum_upto.Config.Parser.Tokens.{operator_lem, operand_lem}
use cforum_upto.Config.Parser.Shape.{
  Expression, atom, Spine, right_of, tokens, innermost, address, low, spine_tokens, node,
  Agree-Holds, Agree-HoldsSpine, Spans-le,
}
use cforum_upto.Config.Parser.Place.{Focus, seen}
use cforum_upto.Config.Parser.Insert.{write_here, write_elsewhere, Awaits}
use cforum_upto.Config.Parser.Calls.{insert_node-operator, insert_node-operand}

pub stored_type-operand :
    (k next : Token)
    → role k ≡ operand
    → (precedence (stored_type k next) ≡ 100) × (isoperator (stored_type k next) ≡ false)
stored_type-operand k next is = elim (Bool-cases (is_ident k && is_dot next)) [
  | inl fid ↦ rw fid (refl, refl)
  | inr plain ↦ rw plain (operand_lem k is)
]

pub stored_type-operator : (o next : Token) → role o ≡ operator → stored_type o next ≡ o
stored_type-operator o next is = rw (operator_lem o is).2 refl

abbrev leaf : Token → ℕ → Cell
leaf k p = record { type = k; prec = p; left = none; right = none; parent = none }

pub new_token-node :
    (k next : Token)
    → precedence k ≡ precedence (stored_type k next)
    → new_token k next ≡ node (stored_type k next) none none none
new_token-node k next same = ap (leaf (stored_type k next)) same

-- A new token in the memory.
Focus-fresh :
    (c : ℕ → Cell) (tree : Option ℕ) (n : ℕ) (t : Expression) (f : Spine) (e : Cell)
    → Focus c tree n t f
    → Focus (write n e c) tree n t f
Focus-fresh c tree n t f e h =
    let le = Spans-le (low f) n t h.spans in
    record {
      holds =
          Agree-Holds c (write n e c) (innermost f) (low f) n t h.spans
            (λ j u v. write_elsewhere n j e c (omega arith)) h.holds;
      spine =
          Agree-HoldsSpine c (write n e c) tree (some (address t)) f h.spine_spans
            (λ j u v. write_elsewhere n j e c (omega arith)) h.spine;
      parsed = h.parsed;
      is_spine = h.is_spine;
      spans = h.spans;
      spine_spans = h.spine_spans;
      order = h.order;
    }

Awaits-fresh :
    (c : ℕ → Cell) (tree : Option ℕ) (n a : ℕ) (k : Token) (l : Expression) (f : Spine) (e : Cell)
    → n ≡ suc a
    → Awaits c tree a k l f
    → Awaits (write n e c) tree a k l f
Awaits-fresh c tree n a k l f e next h = record {
  spine =
      Agree-HoldsSpine c (write n e c) tree none (right_of a k l f) h.spine_spans
        (λ j u v. write_elsewhere n j e c (omega arith)) h.spine;
  is_spine = h.is_spine;
  spine_spans = h.spine_spans;
}

-- The state after an operand, with the tokens `ts` in the tree.
pub record AfterOperand (s : Parse) (a : ℕ) (k : Token) (f : Spine) (ts : List Token) : Type 0 where
  pub focus : Focus s.cells s.tree s.fresh (atom a k) f
  pub cur : s.cur ≡ some a
  pub prev : s.prev ≡ some a
  pub no_operator : isoperator k ≡ false
  pub same : seen (atom a k) f ≡ ts

-- The state after an operator.
pub record AfterOperator (s : Parse) (a : ℕ) (o : Token) (l : Expression) (f : Spine)
    (ts : List Token) : Type 0 where
  pub awaits : Awaits s.cells s.tree a o l f
  pub cur : s.cur ≡ some a
  pub prev : s.prev ≡ some a
  pub next : s.fresh ≡ suc a
  pub same : spine_tokens (right_of a o l f) ≡ ts

-- The state in which the new token is inserted.
abbrev pub with_token : Token → Token → Parse → Parse
with_token ret next s = record s {
  cells = write s.fresh (new_token ret next) s.cells;
  prev = some s.fresh;
  fresh = suc s.fresh;
}

add_token-insert_node :
    (fuel a : ℕ) (ret next k : Token) (s : Parse)
    → s.prev ≡ some a
    → (s.cells a).type ≡ k
    → accepts (role ret) (some (isoperator k)) ≡ true
    → add_token fuel ret next s ≡ insert_node fuel s.fresh (with_token ret next s)
unfolding add_token
add_token-insert_node fuel a ret next k s prev type ok =
    let run =
      λ (b : Bool). if b then insert_node fuel s.fresh (with_token ret next s) else refused in
    ap (λ p. run (accepts (role ret) (prev_operator p s.cells))) prev
    ∙ ap (λ t. run (accepts (role ret) (some (isoperator t)))) type
    ∙ ap run ok

-- An operator behind an operand.
pub record OperatorRead (s : Parse) (o : Token) (ts : List Token) (r : Parsing) : Type 0 where
  pub state : Parse
  pub address : ℕ
  pub left : Expression
  pub spine : Spine
  pub ran : r ≡ parsed state
  pub counted : state.fresh ≡ suc s.fresh
  pub after : AfterOperator state address o left spine (ts ++ o ∷ [])

pub add_token-operator :
    (fuel a : ℕ) (k o next : Token) (s : Parse) (f : Spine) (ts : List Token)
    → AfterOperand s a k f ts
    → role o ≡ operator
    → s.fresh ≤ fuel
    → OperatorRead s o ts (add_token fuel o next s)
add_token-operator fuel a k o next s f ts h is enough =
    let n = s.fresh in
    let s1 = with_token o next s in
    let type : (s.cells a).type ≡ k = ap (λ e. e.type) h.focus.holds in
    let ok : accepts (role o) (some (isoperator k)) ≡ true = rw (is, h.no_operator) refl in
    let same = stored_type-operator o next is in
    let at : s1.cells n ≡ node o none none none =
      write_here n (new_token o next) s.cells
      ∙ new_token-node o next (ap precedence (sym same))
      ∙ ap (λ t. node t none none none) same in
    let facts = operator_lem o is in
    let op =
      insert_node-operator fuel n k o a s1 f
        (Focus-fresh s.cells s.tree n (atom a k) f (new_token o next) h.focus) h.cur at is facts.0
        enough in
    record {
      state = record s1 { tree = op.placed.tree; cells = op.placed.cells; cur = some n };
      address = n;
      left = op.left;
      spine = op.spine;
      ran = add_token-insert_node fuel a o next k s h.prev type ok ∙ op.placed.ran;
      counted = refl;
      after = record {
        awaits = op.placed.awaits;
        cur = refl;
        prev = refl;
        next = refl;
        same =
            sym (append_assoc (spine_tokens op.spine) (tokens op.left) (o ∷ []))
            ∙ ap (λ ks. ks ++ o ∷ []) (op.same ∙ h.same);
      };
    }

-- An operand behind an operator.
pub record OperandRead (s : Parse) (k : Token) (f : Spine) (ts : List Token) (r : Parsing)
    : Type 0 where
  pub state : Parse
  pub address : ℕ
  pub ran : r ≡ parsed state
  pub counted : state.fresh ≡ suc s.fresh
  pub after : AfterOperand state address k f (ts ++ k ∷ [])

pub add_token-operand :
    (fuel a : ℕ) (o k next : Token) (s : Parse) (l : Expression) (f : Spine) (ts : List Token)
    → AfterOperator s a o l f ts
    → role k ≡ operand
    → OperandRead s (stored_type k next) (right_of a o l f) ts (add_token fuel k next s)
add_token-operand fuel a o k next s l f ts h is =
    let n = s.fresh in
    let s1 = with_token k next s in
    let op = operator_lem o h.awaits.is_spine.0 in
    let facts = stored_type-operand k next is in
    let type : (s.cells a).type ≡ o = ap (λ e. e.type) h.awaits.spine.0 in
    let ok : accepts (role k) (some (isoperator o)) ≡ true = rw (is, op.1) refl in
    let at : s1.cells n ≡ node (stored_type k next) none none none =
      write_here n (new_token k next) s.cells
      ∙ new_token-node k next ((operand_lem k is).0 ∙ sym facts.0) in
    let done =
      insert_node-operand fuel n a o (stored_type k next) s1 l f
        (Awaits-fresh s.cells s.tree n a o l f (new_token k next) h.next h.awaits) h.cur h.next at
        facts.0 op.0 in
    record {
      state = record s1 { cells = done.0; cur = some n };
      address = n;
      ran = add_token-insert_node fuel a k next o s h.prev type ok ∙ done.1;
      counted = refl;
      after = record {
        focus = done.2;
        cur = refl;
        prev = refl;
        no_operator = facts.1;
        same = ap (λ ks. ks ++ stored_type k next ∷ []) h.same;
      };
    }
