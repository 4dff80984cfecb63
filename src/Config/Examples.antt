-- ===== src/Config/Examples.antt =====
-- Runs of the lexer and of the code generator of the configuration language.
use cforum_upto.Base.{
  ℕ, zero, suc, ◌+◌, ◌≡◌, refl, true, false, Option, none, some, List, [], ◌∷◌, ◌++◌, length, ◌==◌,
  if◌then◌else◌, arith,
}
use cforum_upto.Str.Equal.{strcmp, strcasecmp, strncmp}
use cforum_upto.Utf8.Strings.{done, outside, is_valid_utf8_string}
use cforum_upto.Config.Parser.{
  Cell, Parse, Parsing, parsed, climb, insert_at, insert_node, add_token, parse_tokens, begin,
  new_token,
}
use cforum_upto.Config.Parser.Shape.{Expression, atom, apply}
use cforum_upto.Config.Parser.Compile.{as_tree, parse_tokens-codegenerator_tokens}
use cforum_upto.Config.Parser.Unique.{skeleton, parse_tokens-skeleton}
use cforum_upto.Config.Parser.Infix.{all_stored, Read, parse_tokens-Read}
use cforum_upto.Config.Parser.Cycle.{insert_node-cycle}
use cforum_upto.Config.{
  Token, Stream, tok_ident, tok_set, tok_num, tok_semi, tok_eof, tok_plus, tok_mult, tok_lbracket,
  tok_gt, tok_array,
}
use cforum_upto.Validate.{isalpha}
use cforum_upto.Utf8.{utf8_to_unicode}
use cforum_upto.Config.Lexer.{readstr, begun}
use cforum_upto.Config.Progress.{tokens, Ended, tokens-Ended}
use cforum_upto.Config.Escape.{append_str, asm_readstr, NoLineEnd, append_str_lem}
use cforum_upto.Config.Codegen.{
  Tree, absent, node, no_trees, trees, Mnemonic, m_add, m_set, regs, cpy_num, load, register,
  outside, gen, Bits, set_used, set_unused, codegenerator_tokens,
}
use cforum_upto.Config.Machine.{Machine, namespace, eval, need, IsValue}
use cforum_upto.Config.Registers.{free_from}
use cforum_upto.Config.Emits.{Good}
use cforum_upto.Config.Compiled.{codegenerator_tokens-Good}

-- A comment, an assignment and what is no token.
abbrev config : Stream
config = record {
  content =
      b'#' ∷ b'x' ∷ 10 ∷ b'a' ∷ b' ' ∷ b'=' ∷ b' ' ∷ b'0' ∷ b'x' ∷ b'1' ∷ b'F' ∷ b';' ∷ b'@' ∷ b';'
      ∷ [];
  pos = none;
  numtok = 0;
  stok = [];
}

-- The lexer takes the at sign for the end.
all_tokens : tokens 15 config ≡ done (tok_ident ∷ tok_set ∷ tok_num ∷ tok_semi ∷ tok_eof ∷ [])
unfolding tokens strcmp strcasecmp strncmp isalpha
all_tokens = refl

-- A string without a byte is read through a NULL pointer.
empty_string : readstr (b'"' ∷ b';' ∷ []) true b'"' ≡ none
unfolding readstr
empty_string = refl

tokens-Ended_example : Ended (suc (length (begun config))) (tokens 15 config)
unfolding strncmp
tokens-Ended_example = tokens-Ended 15 config (omega arith)

abbrev quoted : List ℕ
quoted = b'a' ∷ b'"' ∷ b'\\' ∷ 10 ∷ []

append_str_lem_example :
    NoLineEnd (append_str quoted)
    × (asm_readstr (append_str quoted ++ b'"' ∷ b';' ∷ [])
        ≡ done (some (some quoted, b'"' ∷ b';' ∷ [])))
    × (readstr (append_str quoted ++ b'"' ∷ b';' ∷ []) true b'"' ≡ some (some (quoted, b';' ∷ [])))
unfolding is_valid_utf8_string utf8_to_unicode
append_str_lem_example = append_str_lem quoted (b';' ∷ [])

abbrev number : ℕ → Tree
number n = node tok_num n [] absent absent no_trees

abbrev name : Tree
name = node tok_ident 0 (b'a' ∷ []) absent absent no_trees

abbrev binary : Token → Tree → Tree → Tree
binary tok l r = node tok 0 [] l r no_trees

abbrev unused : Bits
unused j = false

-- `a = a = 1`: the inner assignment gives 0, and the outer one names register 0 twice.
chained :
    codegenerator_tokens (binary tok_set name (binary tok_set name (number 1))) none unused []
    ≡ gen
        (register 0)
        (set_unused 0 (
          set_unused 0 (set_unused 2 (set_unused 1 (set_used 2 (set_used 1 (set_used 0 unused)))))))
        (load (b'a' ∷ []) none 0
          ∷ load (b'a' ∷ []) none 1
          ∷ cpy_num 1 2
          ∷ regs m_set 2 1
          ∷ regs m_set 0 0
          ∷ [])
unfolding codegenerator_tokens
chained = refl

-- `1 +`: the right side is NULL.
no_operand : codegenerator_tokens (binary tok_plus (number 1) absent) none unused [] ≡ outside
unfolding codegenerator_tokens
no_operand = refl

abbrev add : Mnemonic → ℕ → ℕ → ℕ
add m_add v w = v + w
add _ v w = 0

abbrev machine : Machine ℕ
machine = record {
  op = add;
  negate = λ v. 0;
  number = λ n. n;
  text = λ s. 0;
  lookup = λ s ns. 7;
  global = 0;
  new_array = λ n. 0;
}

-- `(1, a) > 2 + 3`.
abbrev expression : Tree
expression =
    binary tok_gt (node tok_array 0 [] absent absent (trees (number 1) (trees name no_trees)))
      (binary tok_plus (number 2) (number 3))

expression_value : eval machine expression 0 ≡ 5
unfolding eval
expression_value = refl

codegenerator_tokens-Good_example :
    Good machine unused []
      (λ f. eval machine expression (namespace machine none f))
      (codegenerator_tokens expression none unused [])
unfolding IsValue need free_from
codegenerator_tokens-Good_example =
    codegenerator_tokens-Good machine expression none unused [] (((tt, (tt, tt))), (tt, tt)) tt
      (omega arith)

abbrev no_cells : ℕ → Cell
no_cells j = new_token tok_num tok_eof

-- `1 + 2 * 3`.
abbrev sum : List Token
sum = tok_num ∷ tok_plus ∷ tok_num ∷ tok_mult ∷ tok_num ∷ []

parse_tokens-Read_example : Read (all_stored sum) (parse_tokens 5 sum (begin no_cells))
parse_tokens-Read_example =
    parse_tokens-Read sum 5 no_cells (refl, (refl, refl, (refl, refl, tt))) (omega arith)

-- `(1 + 2) * 3`, as it is read.
abbrev product : Expression
product = apply 3 tok_mult (apply 1 tok_plus (atom 0 tok_num) (atom 2 tok_num)) (atom 4 tok_num)

parse_tokens-skeleton_example :
    (h : Read (all_stored sum) (parse_tokens 5 sum (begin no_cells))) × (skeleton h.expression
      ≡ skeleton product)
parse_tokens-skeleton_example =
    parse_tokens-skeleton sum 5 no_cells product (refl, (refl, refl, (refl, refl, tt)))
      (omega arith)
      (refl, omega arith, omega arith, (refl, omega arith, omega arith, refl, refl), refl) refl

parse_tokens-codegenerator_tokens_example :
    (h : Read (all_stored sum) (parse_tokens 5 sum (begin no_cells))) × Good machine unused []
      (λ f. eval machine (as_tree (λ a. a) (λ a. []) h.expression) machine.global)
      (codegenerator_tokens (as_tree (λ a. a) (λ a. []) h.expression) none unused [])
unfolding free_from
parse_tokens-codegenerator_tokens_example =
    parse_tokens-codegenerator_tokens machine sum 5 no_cells (λ a. a) (λ a. []) unused []
      (λ a. ground arith) (refl, (refl, refl, (refl, refl, tt))) (tt, (tt, (tt, (tt, (tt, tt)))))
      (omega arith) (omega arith)

-- `0 + 0 + …` with nine operands, as it is read, takes more registers than there are.
abbrev chain : ℕ → Tree
chain zero = number 0
chain (suc n) = binary tok_plus (number 0) (chain n)

too_many : codegenerator_tokens (chain 8) none unused [] ≡ outside
unfolding codegenerator_tokens
too_many = refl

abbrev root_type : Parsing → Option (Token × Option ℕ)
root_type (parsed s) = elim s.tree [
  | none ↦ none
  | some a ↦ some ((s.cells a).type, (s.cells a).left)
]
root_type _ = none

-- The multiplication is at the root, and the addition on its left.
sum_root : root_type (parse_tokens 5 sum (begin no_cells)) ≡ some (tok_mult, some 1)
unfolding parse_tokens add_token insert_node insert_at climb
sum_root = refl

-- `x = a[` was read, and `[` comes again.
abbrev subscript_cells : ℕ → Cell
subscript_cells j =
    if j == 0
    then record { type = tok_set; prec = 10; left = none; right = some 1; parent = none }
    else record { type = tok_lbracket; prec = 83; left = none; right = none; parent = some 0 }

abbrev subscripts : Parse
subscripts = record {
  tree = some 0;
  cur = some 1;
  prev = some 1;
  cells = subscript_cells;
  fresh = 2;
}

insert_node-cycle_example :
    (c : ℕ → Cell) × (insert_node 3 2 subscripts
      ≡ parsed (record subscripts { cells = c; cur = some 2 }))
    × ((c 1).parent ≡ some 2)
    × ((c 2).parent ≡ some 1)
    × ((more : ℕ) → climb c 60 (some 2) more ≡ none)
insert_node-cycle_example =
    insert_node-cycle 3 1 2 0 60 subscripts refl refl refl (omega arith) (omega arith)
