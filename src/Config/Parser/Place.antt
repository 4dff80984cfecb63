-- ===== src/Config/Parser/Place.antt =====
-- One call of cf_cfg_parser_insert_node of src/cfgcomp_parser.c on the tree of an expression.
use cforum_upto.Base.{
  ℕ, zero, suc, ◌≤◌, ◌<◌, ◌≡◌, refl, sym, ap, ◌∙◌, Bool-cases, inl, inr, Option, none, some, List,
  [], ◌∷◌, ◌++◌, append_assoc, ltb, ltb→lt, lt→ltb, arith,
}
use cforum_upto.Config.{Token}
use cforum_upto.Config.Parser.{Cell, climb, precedence}
use cforum_upto.Config.Parser.Shape.{
  Expression, atom, apply, Spine, root, right_of, address, root_precedence, tokens, innermost,
  inner_precedence, spine_tokens, IsParsed, IsSpine, Spans, low, SpineSpans, Holds, HoldsSpine,
  depth,
}

-- The memory holds an expression on the right of the operators of a spine, with all tokens up to
-- the address `n`.
pub record Focus (c : ℕ → Cell) (tree : Option ℕ) (n : ℕ) (t : Expression) (f : Spine)
    : Type 0 where
  pub holds : Holds c (innermost f) t
  pub spine : HoldsSpine c tree (some (address t)) f
  pub parsed : IsParsed t
  pub is_spine : IsSpine f
  pub spans : Spans (low f) n t
  pub spine_spans : SpineSpans f
  pub order : inner_precedence f ≤ root_precedence t

-- The innermost operator gets its right side.
pub raise-Focus :
    (c : ℕ → Cell) (tree : Option ℕ) (n a : ℕ) (k : Token) (l t : Expression) (f : Spine)
    → Focus c tree n t (right_of a k l f)
    → Focus c tree n (apply a k l t) f
raise-Focus c tree n a k l t f h = record {
  holds = (h.spine.0, h.spine.1, h.holds);
  spine = h.spine.2;
  parsed = (h.is_spine.0, h.is_spine.1, h.order, h.is_spine.3, h.parsed);
  is_spine = h.is_spine.4;
  spans = (h.spine_spans.0, h.spans);
  spine_spans = h.spine_spans.1;
  order = h.is_spine.2;
}

abbrev pub seen : Expression → Spine → List Token
seen t f = spine_tokens f ++ tokens t

pub seen-apply :
    (a : ℕ) (k : Token) (l t : Expression) (f : Spine)
    → seen (apply a k l t) f ≡ seen t (right_of a k l f)
seen-apply a k l t f = sym (
    append_assoc (spine_tokens f) (tokens l ++ k ∷ []) (tokens t)
    ∙ ap (λ ks. spine_tokens f ++ ks) (append_assoc (tokens l) (k ∷ []) (tokens t)))

-- Where the search ends: the operators that bind tighter are closed.
pub record Found (c : ℕ → Cell) (tree : Option ℕ) (n q : ℕ) (ts : List Token)
    (r : Option (Option ℕ)) : Type 0 where
  pub expression : Expression
  pub spine : Spine
  pub focus : Focus c tree n expression spine
  pub tighter : q < root_precedence expression
  pub looser : inner_precedence spine ≤ q
  pub same : seen expression spine ≡ ts
  pub result : r ≡ some (innermost spine)

Holds-precedence :
    (c : ℕ → Cell) (p : Option ℕ) (t : Expression)
    → Holds c p t
    → ((c (address t)).prec ≡ root_precedence t) × ((c (address t)).parent ≡ p)
Holds-precedence c p (atom a k) h = (ap (λ e. e.prec) h, ap (λ e. e.parent) h)
Holds-precedence c p (apply a k l r) h = (ap (λ e. e.prec) h.0, ap (λ e. e.parent) h.0)

pub climb-Found :
    (fuel : ℕ) (c : ℕ → Cell) (tree : Option ℕ) (n q : ℕ) (t : Expression) (f : Spine)
    → Focus c tree n t f
    → q < root_precedence t
    → depth f < fuel
    → Found c tree n q (seen t f) (climb c q (some (address t)) fuel)
unfolding climb
climb-Found zero c tree n q t f h tight enough = absurd (omega arith)
climb-Found (suc fuel) c tree n q t root h tight enough =
    let at = Holds-precedence c none t h.holds in
    record {
      expression = t;
      spine = root;
      focus = h;
      tighter = tight;
      looser = omega arith;
      same = refl;
      result = rw (at.0, at.1, lt→ltb q (root_precedence t) tight) refl;
    }
climb-Found (suc zero) c tree n q t (right_of a k l f) h tight enough = absurd (omega arith)
climb-Found (suc (suc fuel)) c tree n q t (right_of a k l f) h tight enough =
    let at = Holds-precedence c (some a) t h.holds in
    let up = lt→ltb q (root_precedence t) tight in
    let prec : (c a).prec ≡ precedence k = ap (λ e. e.prec) h.spine.0 in
    elim (Bool-cases (ltb q (precedence k))) [
      | inl more ↦
          let rest =
            climb-Found (suc fuel) c tree n q (apply a k l t) f (raise-Focus c tree n a k l t f h)
              (ltb→lt q (precedence k) more) (omega arith) in
          record {
            expression = rest.expression;
            spine = rest.spine;
            focus = rest.focus;
            tighter = rest.tighter;
            looser = rest.looser;
            same = rest.same ∙ seen-apply a k l t f;
            result = rw (at.0, at.1, up) rest.result;
          }
      | inr stop ↦ record {
        expression = t;
        spine = right_of a k l f;
        focus = h;
        tighter = tight;
        looser = ground (arith, lt→ltb q (precedence k));
        same = refl;
        result = rw (at.0, at.1, up, prec, stop) refl;
      }
    ]
