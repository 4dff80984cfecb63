-- ===== src/Config/Codegen.antt =====
-- cf_cfg_codegenerator_tokens of src/cfgcomp_codegenerator.c. The text that it appends is a list of
-- lines of assembler, each with its mnemonic and its arguments.
use cforum_upto.Base.{
  ℕ, zero, suc, ◌+◌, ◌%◌, ◌^◌, Bool, true, false, Option, none, some, List, [], ◌∷◌, ◌++◌, ◌==◌,
  if◌then◌else◌,
}
use cforum_upto.Config.{
  Token, tok_dot, tok_plus, tok_minus, tok_div, tok_mult, tok_perc, tok_eq, tok_set, tok_noteq,
  tok_not, tok_lteq, tok_lt, tok_gteq, tok_gt, tok_num, tok_and, tok_or, tok_ident, tok_dollar,
  tok_string, tok_lbracket, tok_array, tok_fid,
}

-- The fields of `cf_cfg_token_t` that the function reads. `ival` and `sval` are those of `data`, and
-- `absent` is NULL; the arguments are the trees of `arguments`.
mutual
  pub data Tree : Type 0 where
    absent : Tree
    node : Token → ℕ → List ℕ → Tree → Tree → Trees → Tree

  pub data Trees : Type 0 where
    no_trees : Trees
    trees : Tree → Trees → Trees

pub data Mnemonic : Type 0 where
  m_add : Mnemonic
  m_sub : Mnemonic
  m_div : Mnemonic
  m_mul : Mnemonic
  m_mod : Mnemonic
  m_eq : Mnemonic
  m_ne : Mnemonic
  m_gt : Mnemonic
  m_gte : Mnemonic
  m_lt : Mnemonic
  m_lte : Mnemonic
  m_and : Mnemonic
  m_or : Mnemonic
  m_set : Mnemonic
  m_arraysubs : Mnemonic
  m_arraypush : Mnemonic

-- `regs m a b` is the mnemonic with the registers `a` and `b`; a `load` from no register is one from
-- `"global"`.
pub data Line : Type 0 where
  regs : Mnemonic → ℕ → ℕ → Line
  neg : ℕ → Line
  cpy_num : ℕ → ℕ → Line
  cpy_str : List ℕ → ℕ → Line
  load : List ℕ → Option ℕ → ℕ → Line
  array : ℕ → ℕ → Line

-- The result of the function: a register, -1, or CF_RETVAL_PARSEERROR.
pub data Reg : Type 0 where
  register : ℕ → Reg
  minus_one : Reg
  parse_error : Reg

-- The cast to u_int16_t.
abbrev pub to_uint16 : Reg → ℕ
to_uint16 (register n) = n % 2 ^ 16
to_uint16 minus_one = 65535
to_uint16 parse_error = 65533

-- The bits of `registers`.
abbrev pub Bits : Type 0
Bits = ℕ → Bool

abbrev pub set_used : ℕ → Bits → Bits
set_used reg used j = if j == reg then true else used j

abbrev pub set_unused : ℕ → Bits → Bits
set_unused reg used j = if j == reg then false else used j

-- The loop of cf_cfg_gencode_next_unused_register over the `n` bits from `i` on.
unfoldable pub next_from : ℕ → ℕ → Bits → Option ℕ
next_from zero i used = none
next_from (suc n) i used = let rest = next_from n (i + 1) used in if used i then rest else some i

-- If all eight bits are used the char is negative, each higher bit counts as used, and the loop
-- comes to a shift by the width of an int, which is undefined.
unfoldable pub next_unused_register : Bits → Option ℕ
unfolding next_from
next_unused_register = next_from 8 0

-- What a call ends with: the result, the bits and the text, or undefined behaviour.
pub data Gen : Type 0 where
  outside : Gen
  gen : Reg → Bits → List Line → Gen

abbrev pub Emitter : Type 0
Emitter = Bits → List Line → Gen

abbrev pub with_unused : Option ℕ → (ℕ → Gen) → Gen
with_unused none f = outside
with_unused (some reg) f = f reg

abbrev pub second_side : Reg → Gen → (ℕ → ℕ → Emitter) → Gen
second_side reg outside emit = outside
second_side (register a) (gen (register b) used out) emit = emit a b used out
second_side (register a) (gen minus_one used out) emit = gen minus_one used out
second_side (register a) (gen parse_error used out) emit = gen minus_one used out
second_side minus_one (gen reg used out) emit = gen minus_one used out
second_side parse_error (gen reg used out) emit = gen minus_one used out

-- Both children in turn, and then the line, unless a result is negative.
abbrev pub both_sides : Gen → Emitter → (ℕ → ℕ → Emitter) → Gen
both_sides outside right emit = outside
both_sides (gen reg used out) right emit = second_side reg (right used out) emit

abbrev pub emit_two : Mnemonic → ℕ → ℕ → Emitter
emit_two m a b used out = gen (register b) (set_unused a used) (out ++ regs m a b ∷ [])

-- The line of the comparisons by order, which names the first register twice.
abbrev pub emit_same : Mnemonic → ℕ → ℕ → Emitter
emit_same m a b used out = gen (register b) (set_unused a used) (out ++ regs m a a ∷ [])

abbrev pub emit_set : ℕ → ℕ → Emitter
emit_set a b used out =
    gen (register 0) (set_unused b (set_unused a used)) (out ++ regs m_set b a ∷ [])

-- For a subscript the results are not tested; a shift by a negative register is undefined.
abbrev pub subscript : Reg → Gen → Gen
subscript reg outside = outside
subscript (register a) (gen reg used out) =
    gen reg (set_unused a used) (out ++ regs m_arraysubs a (to_uint16 reg) ∷ [])
subscript minus_one (gen reg used out) = outside
subscript parse_error (gen reg used out) = outside

abbrev pub after_left : Gen → (Reg → Emitter) → Gen
after_left outside f = outside
after_left (gen reg used out) f = f reg used out

-- The name behind a dot.
abbrev pub dot_name : Tree → Reg → Emitter
dot_name absent reg used out = outside
dot_name (node tok_ident i name l r args) reg used out =
    gen reg used (out ++ load name (some (to_uint16 reg)) (to_uint16 reg) ∷ [])
dot_name (node _ i name l r args) reg used out = gen minus_one used out

-- An argument of an array is pushed, and its register is free again.
abbrev pub push_arg : ℕ → Gen → Emitter → Gen
push_arg reg outside more = outside
push_arg reg (gen (register b) used out) more =
    more (set_unused b used) (out ++ regs m_arraypush b reg ∷ [])
push_arg reg (gen minus_one used out) more = gen minus_one used out
push_arg reg (gen parse_error used out) more = gen minus_one used out

-- The cases of the switch that share a body.
pub data Shape : Type 0 where
  two : Mnemonic → Shape
  same : Mnemonic → Shape
  assign : Shape
  dot : Shape
  negation : Shape
  num : Shape
  ident : Shape
  array_value : Shape
  bracket : Shape
  str : Shape
  dollar : Shape
  unexpected : Shape

abbrev pub shape : Token → Shape
shape tok_dot = dot
shape tok_minus = two m_sub
shape tok_plus = two m_add
shape tok_div = two m_div
shape tok_mult = two m_mul
shape tok_perc = two m_mod
shape tok_noteq = two m_ne
shape tok_eq = two m_eq
shape tok_set = assign
shape tok_not = negation
shape tok_gt = same m_gt
shape tok_gteq = same m_gte
shape tok_lt = same m_lt
shape tok_lteq = same m_lte
shape tok_and = two m_and
shape tok_or = two m_or
shape tok_num = num
shape tok_ident = ident
shape tok_array = array_value
shape tok_lbracket = bracket
shape tok_fid = str
shape tok_string = str
shape tok_dollar = dollar
shape _ = unexpected

-- The bodies. `left` and `right` are the calls on the children, `args` is the loop over the
-- arguments with the register of the array, and `n` is their number.
abbrev pub generate :
    Shape → ℕ → List ℕ → Tree → ℕ → Option ℕ → Emitter → Emitter → (ℕ → Emitter) → Emitter
generate (two m) i s rt n regarg left right args used out =
    both_sides (left used out) right (emit_two m)
generate (same m) i s rt n regarg left right args used out =
    both_sides (left used out) right (emit_same m)
generate assign i s rt n regarg left right args used out = both_sides (left used out) right emit_set
generate dot i s rt n regarg left right args used out = after_left (left used out) (dot_name rt)
generate negation i s rt n regarg left right args used out =
    after_left (left used out) (λ reg used1 out1. gen reg used1 (out1 ++ neg (to_uint16 reg) ∷ []))
generate num i s rt n regarg left right args used out =
    with_unused (next_unused_register used)
      (λ reg. gen (register reg) (set_used reg used) (out ++ cpy_num i reg ∷ []))
generate ident i s rt n regarg left right args used out =
    with_unused (next_unused_register used)
      (λ reg. gen (register reg) (set_used reg used) (out ++ load s regarg reg ∷ []))
generate array_value i s rt n regarg left right args used out =
    with_unused (next_unused_register used)
      (λ reg. args reg (set_used reg used) (out ++ array reg n ∷ []))
generate bracket i s rt n regarg left right args used out =
    after_left (left used out) (λ reg used1 out1. subscript reg (right used1 out1))
generate str i s rt n regarg left right args used out =
    with_unused (next_unused_register used)
      (λ reg. gen (register reg) (set_used reg used) (out ++ cpy_str s reg ∷ []))
generate dollar i s rt n regarg left right args used out = gen (register 0) used out
generate unexpected i s rt n regarg left right args used out = gen parse_error used out

abbrev pub arglen : Trees → ℕ
arglen no_trees = 0
arglen (trees t ts) = suc (arglen ts)

-- cf_cfg_codegenerator_tokens, and the loop over the arguments of an array.
unfoldable mutual
  unfolding next_unused_register

  pub codegenerator_tokens : Tree → Option ℕ → Emitter
  codegenerator_tokens absent regarg used out = outside
  codegenerator_tokens (node tok i s l r args) regarg used out =
      generate (shape tok) i s r (arglen args) regarg (codegenerator_tokens l regarg)
        (codegenerator_tokens r regarg) (push_args args) used out

  pub push_args : Trees → ℕ → Emitter
  push_args no_trees reg used out = gen (register reg) used out
  push_args (trees t ts) reg used out =
      push_arg reg (codegenerator_tokens t none used out) (push_args ts reg)
