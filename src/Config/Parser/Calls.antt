-- ===== src/Config/Parser/Calls.antt =====
-- cf_cfg_parser_insert_node of src/cfgcomp_parser.c as a whole: an operator behind an operand, and
-- an operand behind an operator.
use cforum_upto.Base.{
  ℕ, suc, ◌≤◌, ◌<◌, ◌≡◌, ◌≢◌, refl, ap, ◌∙◌, false, Option, none, some, ltb, lt→ltb, ==_false,
  arith,
}
use cforum_upto.Config.{Token}
use cforum_upto.Config.Parser.{
  Cell, Parse, Parsing, parsed, set_right, set_parent, append_child, hang, climb, at_position,
  insert_at, insert_behind, insert_node, role, operator, precedence,
}
use cforum_upto.Config.Parser.Shape.{
  Expression, atom, Spine, right_of, address, innermost, low, node, Spans-le, Agree-Holds,
  with_parent, Agree-HoldsSpine, depth, depth-low,
}
use cforum_upto.Config.Parser.Place.{Focus, seen, climb-Found}
use cforum_upto.Config.Parser.Insert.{
  write_here, write_elsewhere, Awaits, Placed, at_position-Placed, with_right,
}

-- After an operator: the tree that it closed, and the state.
pub record Operated (s : Parse) (n : ℕ) (k : Token) (t : Expression) (f : Spine) (r : Parsing)
    : Type 0 where
  pub left : Expression
  pub spine : Spine
  pub placed : Placed s n k left spine r
  pub same : seen left spine ≡ seen t f

insert_node-at :
    (fuel n a p q : ℕ) (s : Parse)
    → s.cur ≡ some a
    → (s.cells a).prec ≡ p
    → (s.cells n).prec ≡ q
    → insert_node fuel n s ≡ insert_at p q a fuel n s
unfolding insert_node
insert_node-at fuel n a p q s cur at new =
    ap (λ o. insert_behind o fuel n s) cur
    ∙ ap (λ i. insert_at i (s.cells n).prec a fuel n s) at
    ∙ ap (λ i. insert_at p i a fuel n s) new

insert_at-position :
    (fuel n a q : ℕ) (o : Option ℕ) (s : Parse)
    → q < 100
    → climb s.cells q (some a) fuel ≡ some o
    → insert_at 100 q a fuel n s ≡ at_position (some o) n s
unfolding insert_at
insert_at-position fuel n a q o s less found =
    let not_less : ltb 100 q ≡ false = ground arith in
    rw (not_less, ==_false 100 q (omega arith), found) refl

-- The current token is the operand that was read last, and the new one an operator.
pub insert_node-operator :
    (fuel n : ℕ) (k o : Token) (a : ℕ) (s : Parse) (f : Spine)
    → Focus s.cells s.tree n (atom a k) f
    → s.cur ≡ some a
    → s.cells n ≡ node o none none none
    → role o ≡ operator
    → precedence o < 100
    → n ≤ fuel
    → Operated s n o (atom a k) f (insert_node fuel n s)
insert_node-operator fuel n k o a s f h cur is is_op low_prec enough =
    let at : (s.cells a).prec ≡ 100 = ap (λ e. e.prec) h.holds ∙ h.parsed in
    let q : (s.cells n).prec ≡ precedence o = ap (λ e. e.prec) is in
    let tight : precedence o < precedence k = omega (arith, h.parsed) in
    let deep : depth f < fuel =
      omega (arith, depth-low f h.spine_spans, Spans-le (low f) n (atom a k) h.spans) in
    let found = climb-Found fuel s.cells s.tree n (precedence o) (atom a k) f h tight deep in
    let here =
      at_position-Placed n o found.expression is_op found.tighter s found.spine found.focus
        found.looser is in
    record {
      left = found.expression;
      spine = found.spine;
      placed = record {
        tree = here.tree;
        cells = here.cells;
        ran =
            insert_node-at fuel n a 100 (precedence o) s cur at q
            ∙ insert_at-position fuel n a (precedence o) (innermost found.spine) s low_prec
                found.result
            ∙ here.ran;
        awaits = here.awaits;
      };
      same = found.same;
    }

insert_at-hang :
    (fuel n a q : ℕ) (s : Parse) → q < 100 → insert_at q 100 a fuel n s ≡ append_child a n s
unfolding insert_at
insert_at-hang fuel n a q s less = rw (lt→ltb q 100 less) refl

-- The current token is an operator, and the new one its right side.
pub insert_node-operand :
    (fuel n a : ℕ) (o k : Token) (s : Parse) (l : Expression) (f : Spine)
    → Awaits s.cells s.tree a o l f
    → s.cur ≡ some a
    → n ≡ suc a
    → s.cells n ≡ node k none none none
    → precedence k ≡ 100
    → precedence o < 100
    → (c : ℕ → Cell) × (insert_node fuel n s ≡ parsed (record s { cells = c; cur = some n }))
      × Focus c s.tree (suc n) (atom n k) (right_of a o l f)
insert_node-operand fuel n a o k s l f h cur next is prec low_prec =
    let c1 = set_parent n (some a) s.cells in
    let c = set_right a (some n) c1 in
    let e = record (s.cells n) { parent = some a } in
    let same1 : c1 a ≡ s.cells a = write_elsewhere n a e s.cells (omega arith) in
    let same : (j : ℕ) → j ≢ n → j ≢ a → c j ≡ s.cells j = λ j nn na.
      write_elsewhere a j (with_right (some n) (c1 a)) c1 na ∙ write_elsewhere n j e s.cells nn in
    let le = Spans-le (low f) a l h.spine_spans.0 in
    let at : (s.cells a).prec ≡ precedence o = ap (λ x. x.prec) h.spine.0 in
    let q : (s.cells n).prec ≡ 100 = ap (λ x. x.prec) is ∙ prec in
    let left : (c1 a).left ≡ some (address l) = ap (λ x. x.left) (same1 ∙ h.spine.0) in
    (
      c,
      insert_node-at fuel n a (precedence o) 100 s cur at q
          ∙ insert_at-hang fuel n a (precedence o) s low_prec
          ∙ ap (λ x. hang x a n c1 s) left,
      record {
        holds =
            write_elsewhere a n (with_right (some n) (c1 a)) c1 (omega arith)
            ∙ write_here n e s.cells
            ∙ ap (with_parent (some a)) is;
        spine = (
          write_here a (with_right (some n) (c1 a)) c1
              ∙ ap (with_right (some n)) (same1 ∙ h.spine.0),
          Agree-Holds s.cells c (some a) (low f) a l h.spine_spans.0
              (λ j u v. same j (omega arith) (omega arith)) h.spine.1,
          Agree-HoldsSpine s.cells c s.tree (some a) f h.spine_spans.1
              (λ j u v. same j (omega arith) (omega arith)) h.spine.2,
        );
        parsed = prec;
        is_spine = h.is_spine;
        spans = (next, refl);
        spine_spans = h.spine_spans;
        order = omega arith;
      },
    )
