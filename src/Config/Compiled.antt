-- ===== src/Config/Compiled.antt =====
-- The code that cf_cfg_codegenerator_tokens of src/cfgcomp_codegenerator.c writes for an expression
-- computes the value of the expression.
use cforum_upto.Base.{ℕ, ◌≤◌, refl, Option, none, List, arith}
use cforum_upto.Config.Codegen.{
  Tree, absent, node, Trees, no_trees, trees, Line, regs, cpy_num, cpy_str, load, Bits, Emitter,
  Shape, two, same, assign, dot, negation, num, ident, array_value, bracket, str, dollar,
  unexpected, shape, generate, arglen, codegenerator_tokens, push_args,
}
use cforum_upto.Config.Registers.{free}
use cforum_upto.Config.Machine.{
  Machine, namespace, evaluate, eval, push_values, IsShape, IsValue, AreValues, need_shape, need,
  need_args,
}
use cforum_upto.Config.Emits.{Good, Holds, Emits, leaf-Emits}
use cforum_upto.Config.Combine.{
  both_sides-Emits, bracket-Good, dot-Good, negation-Good, two-Combines, same-Combines,
}
use cforum_upto.Config.Arrays.{ArgsEmit, no_trees-ArgsEmit, push_arg-ArgsGood, array-Emits}

module _ {V : Type 0} (M : Machine V) where
  -- Each body of the switch, for the shapes of values.
  generate-Emits :
      (sh : Shape) (i : ℕ) (s : List ℕ) (rt : Tree) (n : ℕ) (regarg : Option ℕ)
      (first second : Emitter) (args : ℕ → Emitter) (nl nr na : ℕ) (left right : V → V)
      (push : V → V) {L R A : Type 0}
      → IsShape sh L R rt A
      → (L → Emits M first nl regarg left)
      → (R → Emits M second nr regarg right)
      → (A → ArgsEmit M args na push)
      → Emits M
          (generate sh i s rt n regarg first second args)
          (need_shape sh nl nr na)
          regarg
          (λ ns. evaluate M sh i s rt n ns (left ns) (right ns) push)
  generate-Emits (two m) i s rt n g first second args nl nr na left right push is el er ea =
      both_sides-Emits M g left right (λ x y. M.op m x y) (regs m) (two-Combines M m) first second
        nl nr (el is.0) (er is.1)
  generate-Emits (same m) i s rt n g first second args nl nr na left right push is el er ea =
      both_sides-Emits M g left right (λ x y. y) (λ a b. regs m a a) (same-Combines M m) first
        second nl nr (el is.0) (er is.1)
  generate-Emits assign i s rt n g first second args nl nr na left right push is el er ea =
      absurd is
  generate-Emits dot i s rt n g first second args nl nr na left right push is el er ea =
      λ used out h enough.
        dot-Good M used out _ rt (first used out) is.1 (el is.0 used out h enough)
  generate-Emits negation i s rt n g first second args nl nr na left right push is el er ea =
      λ used out h enough. negation-Good M used out _ (first used out) (el is used out h enough)
  generate-Emits num i s rt n g first second args nl nr na left right push is el er ea =
      leaf-Emits M (cpy_num i) g (λ ns. M.number i) (λ r f. refl)
  generate-Emits ident i s rt n g first second args nl nr na left right push is el er ea =
      leaf-Emits M (load s g) g (M.lookup s) (λ r f. refl)
  generate-Emits array_value i s rt n g first second args nl nr na left right push is el er ea =
      array-Emits M n na args g push (ea is)
  generate-Emits bracket i s rt n g first second args nl nr na left right push is el er ea =
      λ used out h enough.
        bracket-Good M g left right used out nr (first used out) second h (omega arith) (er is.1)
          (el is.0 used out h (omega arith))
  generate-Emits str i s rt n g first second args nl nr na left right push is el er ea =
      leaf-Emits M (cpy_str s) g (λ ns. M.text s) (λ r f. refl)
  generate-Emits dollar i s rt n g first second args nl nr na left right push is el er ea =
      absurd is
  generate-Emits unexpected i s rt n g first second args nl nr na left right push is el er ea =
      absurd is

  mutual
    unfolding codegenerator_tokens need eval IsValue

    codegenerator_tokens-Emits :
        (t : Tree) (regarg : Option ℕ)
        → IsValue t
        → Emits M (codegenerator_tokens t regarg) (need t) regarg (eval M t)
    codegenerator_tokens-Emits absent g is = absurd is
    codegenerator_tokens-Emits (node tok i s l r args) g is =
        generate-Emits (shape tok) i s r (arglen args) g (codegenerator_tokens l g)
          (codegenerator_tokens r g) (push_args args) (need l) (need r) (need_args args) (eval M l)
          (eval M r) (push_values M args) is (codegenerator_tokens-Emits l g)
          (codegenerator_tokens-Emits r g) (push_args-ArgsEmit args)

    push_args-ArgsEmit :
        (ts : Trees) → AreValues ts → ArgsEmit M (push_args ts) (need_args ts) (push_values M ts)
    push_args-ArgsEmit no_trees is used out r u enough = no_trees-ArgsEmit M used out r u enough
    push_args-ArgsEmit (trees t ts) is used out r u enough =
        push_arg-ArgsGood M used out r (need_args ts) (eval M t M.global) (push_values M ts)
          (push_args ts r) (codegenerator_tokens t none used out) u (omega arith)
          (λ used1 out1 u1 enough1. push_args-ArgsEmit ts is.1 used1 out1 r u1 enough1)
          (codegenerator_tokens-Emits t none is.0 used out tt (omega arith))

  -- For an expression with all its operands and without an assignment, and with as many registers
  -- free as it needs, the code generator comes to an end without undefined behaviour. On any machine
  -- the code that it appends leaves the value of the expression in the register that is the result,
  -- which was free and is now the only one more in use, and changes no register that was in use. A
  -- comparison by order has the value of its right side.
  pub codegenerator_tokens-Good :
      (t : Tree) (regarg : Option ℕ) (used : Bits) (out : List Line)
      → IsValue t
      → Holds M regarg used
      → need t ≤ free used
      → Good M used out
          (λ f. eval M t (namespace M regarg f))
          (codegenerator_tokens t regarg used out)
  codegenerator_tokens-Good t regarg used out is holds enough =
      codegenerator_tokens-Emits t regarg is used out holds enough
