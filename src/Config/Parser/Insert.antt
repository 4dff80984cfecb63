-- ===== src/Config/Parser/Insert.antt =====
-- The assignments of cf_cfg_parser_insert_node of src/cfgcomp_parser.c on the tree of an
-- expression.
use cforum_upto.Base.{
  ℕ, suc, ◌≤◌, ◌<◌, ◌≡◌, ◌≢◌, refl, ap, ◌∙◌, Option, none, some, ==_iff, ==_false, arith,
}
use cforum_upto.Config.{Token}
use cforum_upto.Config.Parser.{
  Cell, Parse, Parsing, parsed, inserted, write, set_left, set_right, set_parent, take_place,
  insert_below, new_root, at_position, role, operator, precedence,
}
use cforum_upto.Config.Parser.Shape.{
  Expression, Spine, root, right_of, address, root_precedence, innermost, inner_precedence, IsSpine,
  low, SpineSpans, node, HoldsSpine, Spans-le, Spans-address, Agree-Holds, with_parent,
  Holds-parent, Agree-HoldsSpine,
}
use cforum_upto.Config.Parser.Place.{Focus}

pub write_here : (a : ℕ) (e : Cell) (c : ℕ → Cell) → write a e c a ≡ e
write_here a e c = rw ((==_iff a a).1 refl) refl

pub write_elsewhere : (a j : ℕ) (e : Cell) (c : ℕ → Cell) → j ≢ a → write a e c j ≡ c j
write_elsewhere a j e c ne = rw (==_false j a ne) refl

-- An operator whose left side is `l` waits for its right side; it was the last token.
pub record Awaits (c : ℕ → Cell) (tree : Option ℕ) (n : ℕ) (k : Token) (l : Expression) (f : Spine)
    : Type 0 where
  pub spine : HoldsSpine c tree none (right_of n k l f)
  pub is_spine : IsSpine (right_of n k l f)
  pub spine_spans : SpineSpans (right_of n k l f)

-- The memory after the operator `n` is placed above the root of an expression.
abbrev pub above : ℕ → ℕ → (ℕ → Cell) → ℕ → Cell
above n r c = set_parent r (some n) (set_left n (some r) c)

above_new :
    (n r : ℕ) (k : Token) (p : Option ℕ) (c : ℕ → Cell)
    → n ≢ r
    → c n ≡ node k none none p
    → above n r c n ≡ node k (some r) none p
above_new n r k p c ne is =
    let c1 = set_left n (some r) c in
    write_elsewhere r n (with_parent (some n) (c1 r)) c1 ne
    ∙ write_here n (record (c n) { left = some r }) c
    ∙ rw is refl

above_root : (n r : ℕ) (c : ℕ → Cell) → r ≢ n → above n r c r ≡ with_parent (some n) (c r)
above_root n r c ne =
    let c1 = set_left n (some r) c in
    write_here r (with_parent (some n) (c1 r)) c1
    ∙ ap (with_parent (some n)) (write_elsewhere n r (record (c n) { left = some r }) c ne)

above_others : (n r j : ℕ) (c : ℕ → Cell) → j ≢ n → j ≢ r → above n r c j ≡ c j
above_others n r j c ne ner =
    let c1 = set_left n (some r) c in
    write_elsewhere r j (with_parent (some n) (c1 r)) c1 ner
    ∙ write_elsewhere n j (record (c n) { left = some r }) c ne

-- What a call leaves: a state with the new operator.
pub record Placed (s : Parse) (n : ℕ) (k : Token) (t : Expression) (f : Spine) (r : Parsing)
    : Type 0 where
  pub tree : Option ℕ
  pub cells : ℕ → Cell
  pub ran : r ≡ parsed (record s { tree = tree; cells = cells; cur = some n })
  pub awaits : Awaits cells tree n k t f

abbrev pub with_right : Option ℕ → Cell → Cell
with_right r e = record e { right = r }

insert_below-some :
    (a n : ℕ) (s : Parse) (r : ℕ)
    → (set_parent n (some a) s.cells a).right ≡ some r
    → insert_below a n s
      ≡ inserted n (set_right a (some n) (above n r (set_parent n (some a) s.cells))) s
insert_below-some a n s r is =
    let c = set_parent n (some a) s.cells in ap (λ right. take_place right (c a).left a n c s) is

module _ (n : ℕ) (k : Token) (t : Expression) (is_op : role k ≡ operator)
    (tight : precedence k < root_precedence t) where
  -- The search came to the root.
  new_root-Placed :
      (s : Parse)
      → Focus s.cells s.tree n t root
      → s.cells n ≡ node k none none none
      → Placed s n k t root (new_root n s)
  new_root-Placed s h is =
      let r = address t in
      let c = above n r s.cells in
      let at = Spans-address 0 n t h.spans in
      record {
        tree = some n;
        cells = c;
        ran = rw h.spine refl;
        awaits = record {
          spine = (
            above_new n r k none s.cells (omega arith) is,
            Holds-parent s.cells c none (some n) 0 n t h.spans
                (λ j u v ne. above_others n r j s.cells (omega arith) ne)
                (above_root n r s.cells (omega arith)) h.holds,
            refl,
          );
          is_spine = (is_op, tight, omega arith, h.parsed, tt);
          spine_spans = (h.spans, tt);
        };
      }

  module _ (s : Parse) (a : ℕ) (o : Token) (l : Expression) (f : Spine) where
    parent_set : ℕ → Cell
    parent_set = set_parent n (some a) s.cells

    placed : ℕ → Cell
    placed = set_right a (some n) (above n (address t) parent_set)

    -- The search came to an operator that binds as tight or less tight.
    insert_below-Placed :
        Focus s.cells s.tree n t (right_of a o l f)
        → precedence o ≤ precedence k
        → s.cells n ≡ node k none none none
        → Placed s n k t (right_of a o l f) (insert_below a n s)
    unfolding placed parent_set
    insert_below-Placed h looser is =
        let r = address t in
        let at = Spans-address (suc a) n t h.spans in
        let le = Spans-le (low f) a l h.spine_spans.0 in
        let c1 = parent_set in
        let c2 = above n r c1 in
        let first : c1 n ≡ node k none none (some a) =
          write_here n (record (s.cells n) { parent = some a }) s.cells
          ∙ ap (with_parent (some a)) is in
        let same1 : (j : ℕ) → j ≢ n → c1 j ≡ s.cells j =
          λ j ne. write_elsewhere n j (record (s.cells n) { parent = some a }) s.cells ne in
        let same : (j : ℕ) → j ≢ n → j ≢ r → j ≢ a → placed j ≡ s.cells j = λ j nn nr na.
          write_elsewhere a j (record (c2 a) { right = some n }) c2 na
          ∙ above_others n r j c1 nn nr
          ∙ same1 j nn in
        let kept : c2 a ≡ s.cells a =
          above_others n r a c1 (omega arith) (omega arith) ∙ same1 a (omega arith) in
        let at_new : placed n ≡ node k (some r) none (some a) =
          write_elsewhere a n (record (c2 a) { right = some n }) c2 (omega arith)
          ∙ above_new n r k (some a) c1 (omega arith) first in
        let at_root : placed r ≡ with_parent (some n) (s.cells r) =
          write_elsewhere a r (record (c2 a) { right = some n }) c2 (omega arith)
          ∙ above_root n r c1 (omega arith)
          ∙ ap (with_parent (some n)) (same1 r (omega arith)) in
        let at_operator : placed a ≡ node o (some (address l)) (some n) (innermost f) =
          write_here a (record (c2 a) { right = some n }) c2
          ∙ ap (with_right (some n)) (kept ∙ h.spine.0) in
        let right : (c1 a).right ≡ some r = ap (λ e. e.right) (same1 a (omega arith) ∙ h.spine.0) in
        record {
          tree = s.tree;
          cells = placed;
          ran = insert_below-some a n s r right;
          awaits = record {
            spine = (
              at_new,
              Holds-parent s.cells placed (some a) (some n) (suc a) n t h.spans
                  (λ j u v ne. same j (omega arith) ne (omega arith)) at_root h.holds,
              (
                at_operator,
                Agree-Holds s.cells placed (some a) (low f) a l h.spine_spans.0
                    (λ j u v. same j (omega arith) (omega arith) (omega arith)) h.spine.1,
                Agree-HoldsSpine s.cells placed s.tree (some a) f h.spine_spans.1
                    (λ j u v. same j (omega arith) (omega arith) (omega arith)) h.spine.2,
              ),
            );
            is_spine = (is_op, tight, looser, h.parsed, h.is_spine);
            spine_spans = (h.spans, h.spine_spans);
          };
        }

  -- The operator takes its place where the search ended.
  pub at_position-Placed :
      (s : Parse) (f : Spine)
      → Focus s.cells s.tree n t f
      → inner_precedence f ≤ precedence k
      → s.cells n ≡ node k none none none
      → Placed s n k t f (at_position (some (innermost f)) n s)
  at_position-Placed s root h looser is = new_root-Placed s h is
  at_position-Placed s (right_of a o l f) h looser is = insert_below-Placed s a o l f h looser is
