-- ===== src/Config/Combine.antt =====
-- The bodies of cf_cfg_codegenerator_tokens of src/cfgcomp_codegenerator.c, each over code for its
-- children.
use cforum_upto.Base.{
  ℕ, suc, ◌%◌, ◌^◌, ◌≤◌, ◌≡◌, ◌≢◌, refl, sym, ap, ◌∙◌, Option, none, some, List, [], ◌∷◌, ◌++◌, max,
  arith,
}
use cforum_upto.Config.{tok_ident}
use cforum_upto.Config.Codegen.{
  Tree, absent, node, Mnemonic, m_arraysubs, Line, regs, neg, load, register, minus_one,
  parse_error, to_uint16, Bits, set_unused, Gen, outside, gen, Emitter, second_side, both_sides,
  subscript, after_left, dot_name,
}
use cforum_upto.Config.Registers.{free, SameBits, plus, free-plus, free-SameBits}
use cforum_upto.Config.Machine.{Machine, Registers, namespace, name_of, IsName}
use cforum_upto.Config.Emits.{
  Made, Good, Holds, Emits, Combines, more-Made, pair-Made, put_at, put_elsewhere, was_used,
}

module _ {V : Type 0} (M : Machine V) where
  -- What is free behind the code of a value.
  pub free-Made :
      (used after : Bits) (out text : List Line) (r : ℕ) (val : Registers M → V)
      → Made M used after out text r val
      → free used ≡ suc (free after)
  free-Made used after out text r val m =
      free-plus used r m.unused m.in_range ∙ ap suc (sym (free-SameBits after (plus used r) m.bits))

  pub after-Holds :
      (regarg : Option ℕ) (used after : Bits) (r : ℕ)
      → SameBits after (plus used r)
      → Holds M regarg used
      → Holds M regarg after
  after-Holds none used after r s h = tt
  after-Holds (some k) used after r s h = was_used M used after r k s h

  module _ (regarg : Option ℕ) (left right : V → V) (w : V → V → V) (line : ℕ → ℕ → Line)
      (combines : (a b : ℕ) → a ≢ b → Combines M (line a b) a b w) where
    abbrev pub both_values : Registers M → V
    both_values f = w (left (namespace M regarg f)) (right (namespace M regarg f))

    abbrev pub emit_line : ℕ → ℕ → Emitter
    emit_line a b used out = gen (register b) (set_unused a used) (out ++ line a b ∷ [])

    second-Good :
        (used u1 : Bits) (out o1 : List Line) (a : ℕ) (o : Gen)
        → Holds M regarg used
        → Made M used u1 out o1 a (λ f. left (namespace M regarg f))
        → Good M u1 o1 (λ f. right (namespace M regarg f)) o
        → Good M used out both_values (second_side (register a) o emit_line)
    second-Good used u1 out o1 a outside h m g = g
    second-Good used u1 out o1 a (gen (register b) u2 o2) h m g =
        pair-Made M used u1 u2 out o1 o2 a b regarg left right (line a b) w m g h (combines a b)
    second-Good used u1 out o1 a (gen minus_one u2 o2) h m g = g
    second-Good used u1 out o1 a (gen parse_error u2 o2) h m g = g

    both_sides-Good :
        (used : Bits) (out : List Line) (n : ℕ) (o : Gen) (emit : Emitter)
        → Holds M regarg used
        → suc n ≤ free used
        → Emits M emit n regarg right
        → Good M used out (λ f. left (namespace M regarg f)) o
        → Good M used out both_values (both_sides o emit emit_line)
    both_sides-Good used out n outside emit h enough e g = g
    both_sides-Good used out n (gen (register a) u1 o1) emit h enough e g =
        second-Good used u1 out o1 a (emit u1 o1) h g (
          e u1 o1 (after-Holds regarg used u1 a g.bits h)
            (omega (arith, free-Made used u1 out o1 a _ g)))
    both_sides-Good used out n (gen minus_one u1 o1) emit h enough e g = absurd g
    both_sides-Good used out n (gen parse_error u1 o1) emit h enough e g = absurd g

    pub both_sides-Emits :
        (first second : Emitter) (n k : ℕ)
        → Emits M first n regarg left
        → Emits M second k regarg right
        → Emits M
            (λ used out. both_sides (first used out) second emit_line)
            (max n (suc k))
            regarg
            (λ v. w (left v) (right v))
    both_sides-Emits first second n k e1 e2 used out h enough =
        both_sides-Good used out k (first used out) second h (omega arith) e2
          (e1 used out h (omega arith))

  pub two-Combines :
      (m : Mnemonic) (a b : ℕ) → a ≢ b → Combines M (regs m a b) a b (λ x y. M.op m x y)
  two-Combines m a b ne f = (put_at M b _ f, λ j na nb. put_elsewhere M b j _ f nb)

  pub same-Combines : (m : Mnemonic) (a b : ℕ) → a ≢ b → Combines M (regs m a a) a b (λ x y. y)
  same-Combines m a b ne f =
      (put_elsewhere M a b _ f (λ e. ne (sym e)), λ j na nb. put_elsewhere M a j _ f na)

  module _ (regarg : Option ℕ) (left right : V → V) where
    abbrev pub subscript_value : Registers M → V
    subscript_value f =
        M.op m_arraysubs (left (namespace M regarg f)) (right (namespace M regarg f))

    subscript-Good :
        (used u1 : Bits) (out o1 : List Line) (a : ℕ) (o : Gen)
        → Holds M regarg used
        → Made M used u1 out o1 a (λ f. left (namespace M regarg f))
        → Good M u1 o1 (λ f. right (namespace M regarg f)) o
        → Good M used out subscript_value (subscript (register a) o)
    subscript-Good used u1 out o1 a outside h m g = g
    subscript-Good used u1 out o1 a (gen (register b) u2 o2) h m g =
        let small : b % 2 ^ 16 ≡ b = omega (arith, g.in_range) in
        rw small (
          pair-Made M used u1 u2 out o1 o2 a b regarg left right (regs m_arraysubs a b)
            (λ x y. M.op m_arraysubs x y) m g h (two-Combines m_arraysubs a b))
    subscript-Good used u1 out o1 a (gen minus_one u2 o2) h m g = absurd g
    subscript-Good used u1 out o1 a (gen parse_error u2 o2) h m g = absurd g

    pub bracket-Good :
        (used : Bits) (out : List Line) (n : ℕ) (o : Gen) (emit : Emitter)
        → Holds M regarg used
        → suc n ≤ free used
        → Emits M emit n regarg right
        → Good M used out (λ f. left (namespace M regarg f)) o
        → Good M used out subscript_value
            (after_left o (λ reg used1 out1. subscript reg (emit used1 out1)))
    bracket-Good used out n outside emit h enough e g = g
    bracket-Good used out n (gen (register a) u1 o1) emit h enough e g =
        subscript-Good used u1 out o1 a (emit u1 o1) h g (
          e u1 o1 (after-Holds regarg used u1 a g.bits h)
            (omega (arith, free-Made used u1 out o1 a _ g)))
    bracket-Good used out n (gen minus_one u1 o1) emit h enough e g = absurd g
    bracket-Good used out n (gen parse_error u1 o1) emit h enough e g = absurd g

  module _ (used : Bits) (out : List Line) (val : Registers M → V) where
    dot_name-Good :
        (rt : Tree) (u1 : Bits) (o1 : List Line) (a : ℕ)
        → IsName rt
        → Made M used u1 out o1 a val
        → Good M used out (λ f. M.lookup (name_of M rt) (val f)) (dot_name rt (register a) u1 o1)
    dot_name-Good absent u1 o1 a is m = absurd is
    dot_name-Good (node tok_ident i s l r args) u1 o1 a is m =
        let small : a % 2 ^ 16 ≡ a = omega (arith, m.in_range) in
        rw small (more-Made M used u1 out o1 a val (M.lookup s) (load s (some a) a) (λ f. refl) m)
    dot_name-Good (node _ i s l r args) u1 o1 a is m = absurd is

    pub dot-Good :
        (rt : Tree) (o : Gen)
        → IsName rt
        → Good M used out val o
        → Good M used out (λ f. M.lookup (name_of M rt) (val f)) (after_left o (dot_name rt))
    dot-Good rt outside is g = g
    dot-Good rt (gen (register a) u1 o1) is g = dot_name-Good rt u1 o1 a is g
    dot-Good rt (gen minus_one u1 o1) is g = absurd g
    dot-Good rt (gen parse_error u1 o1) is g = absurd g

    pub negation-Good :
        (o : Gen)
        → Good M used out val o
        → Good M used out
            (λ f. M.negate (val f))
            (after_left o (λ reg used1 out1. gen reg used1 (out1 ++ neg (to_uint16 reg) ∷ [])))
    negation-Good outside g = g
    negation-Good (gen (register a) u1 o1) g =
        let small : a % 2 ^ 16 ≡ a = omega (arith, g.in_range) in
        rw small (more-Made M used u1 out o1 a val M.negate (neg a) (λ f. refl) g)
    negation-Good (gen minus_one u1 o1) g = absurd g
    negation-Good (gen parse_error u1 o1) g = absurd g
