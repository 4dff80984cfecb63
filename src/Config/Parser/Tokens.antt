-- ===== src/Config/Parser/Tokens.antt =====
-- The tokens of expressions that src/cfgcomp_parser.c knows, case by case.
use cforum_upto.Base.{◌<◌, ◌≡◌, refl, true, false, arith}
use cforum_upto.Config.{
  Token, no_tok, tok_err, tok_dq, tok_sq, tok_lparen, tok_rparen, tok_dot, tok_plus, tok_minus,
  tok_div, tok_mult, tok_semi, tok_perc, tok_eq, tok_set, tok_noteq, tok_not, tok_lteq, tok_lt,
  tok_gteq, tok_gt, tok_num, tok_if, tok_elseif, tok_else, tok_with, tok_end, tok_and, tok_or,
  tok_ident, tok_dollar, tok_eof, tok_string, tok_comma, tok_rbracket, tok_lbracket, tok_array,
  tok_fid,
}
use cforum_upto.Config.Codegen.{Shape, num, ident, str, shape}
use cforum_upto.Config.Parser.{operator, operand, role, precedence, isoperator, is_ident}

pub operator_lem :
    (k : Token)
    → role k ≡ operator
    → (precedence k < 100) × (isoperator k ≡ true) × (is_ident k ≡ false)
operator_lem no_tok h = cc
operator_lem tok_err h = cc
operator_lem tok_dq h = cc
operator_lem tok_sq h = cc
operator_lem tok_lparen h = cc
operator_lem tok_rparen h = cc
operator_lem tok_dot h = (omega arith, refl, refl)
operator_lem tok_plus h = (omega arith, refl, refl)
operator_lem tok_minus h = (omega arith, refl, refl)
operator_lem tok_div h = (omega arith, refl, refl)
operator_lem tok_mult h = (omega arith, refl, refl)
operator_lem tok_semi h = cc
operator_lem tok_perc h = (omega arith, refl, refl)
operator_lem tok_eq h = (omega arith, refl, refl)
operator_lem tok_set h = (omega arith, refl, refl)
operator_lem tok_noteq h = (omega arith, refl, refl)
operator_lem tok_not h = (omega arith, refl, refl)
operator_lem tok_lteq h = (omega arith, refl, refl)
operator_lem tok_lt h = (omega arith, refl, refl)
operator_lem tok_gteq h = (omega arith, refl, refl)
operator_lem tok_gt h = (omega arith, refl, refl)
operator_lem tok_num h = cc
operator_lem tok_if h = cc
operator_lem tok_elseif h = cc
operator_lem tok_else h = cc
operator_lem tok_with h = cc
operator_lem tok_end h = cc
operator_lem tok_and h = (omega arith, refl, refl)
operator_lem tok_or h = (omega arith, refl, refl)
operator_lem tok_ident h = cc
operator_lem tok_dollar h = cc
operator_lem tok_eof h = cc
operator_lem tok_string h = cc
operator_lem tok_comma h = cc
operator_lem tok_rbracket h = cc
operator_lem tok_lbracket h = cc
operator_lem tok_array h = cc
operator_lem tok_fid h = cc

pub operand_lem : (k : Token) → role k ≡ operand → (precedence k ≡ 100) × (isoperator k ≡ false)
operand_lem no_tok h = cc
operand_lem tok_err h = cc
operand_lem tok_dq h = cc
operand_lem tok_sq h = cc
operand_lem tok_lparen h = cc
operand_lem tok_rparen h = cc
operand_lem tok_dot h = cc
operand_lem tok_plus h = cc
operand_lem tok_minus h = cc
operand_lem tok_div h = cc
operand_lem tok_mult h = cc
operand_lem tok_semi h = cc
operand_lem tok_perc h = cc
operand_lem tok_eq h = cc
operand_lem tok_set h = cc
operand_lem tok_noteq h = cc
operand_lem tok_not h = cc
operand_lem tok_lteq h = cc
operand_lem tok_lt h = cc
operand_lem tok_gteq h = cc
operand_lem tok_gt h = cc
operand_lem tok_num h = (refl, refl)
operand_lem tok_if h = cc
operand_lem tok_elseif h = cc
operand_lem tok_else h = cc
operand_lem tok_with h = cc
operand_lem tok_end h = cc
operand_lem tok_and h = cc
operand_lem tok_or h = cc
operand_lem tok_ident h = (refl, refl)
operand_lem tok_dollar h = cc
operand_lem tok_eof h = cc
operand_lem tok_string h = (refl, refl)
operand_lem tok_comma h = cc
operand_lem tok_rbracket h = cc
operand_lem tok_lbracket h = cc
operand_lem tok_array h = cc
operand_lem tok_fid h = cc

-- What the code generator makes of an operand alone.
abbrev pub IsLeaf : Shape → Type 0
IsLeaf num = Unit
IsLeaf ident = Unit
IsLeaf str = Unit
IsLeaf _ = ⊥

pub leaf_lem : (k : Token) → precedence k ≡ 100 → IsLeaf (shape k)
leaf_lem no_tok h = absurd (omega arith)
leaf_lem tok_err h = absurd (omega arith)
leaf_lem tok_dq h = absurd (omega arith)
leaf_lem tok_sq h = absurd (omega arith)
leaf_lem tok_lparen h = absurd (omega arith)
leaf_lem tok_rparen h = absurd (omega arith)
leaf_lem tok_dot h = absurd (omega arith)
leaf_lem tok_plus h = absurd (omega arith)
leaf_lem tok_minus h = absurd (omega arith)
leaf_lem tok_div h = absurd (omega arith)
leaf_lem tok_mult h = absurd (omega arith)
leaf_lem tok_semi h = absurd (omega arith)
leaf_lem tok_perc h = absurd (omega arith)
leaf_lem tok_eq h = absurd (omega arith)
leaf_lem tok_set h = absurd (omega arith)
leaf_lem tok_noteq h = absurd (omega arith)
leaf_lem tok_not h = absurd (omega arith)
leaf_lem tok_lteq h = absurd (omega arith)
leaf_lem tok_lt h = absurd (omega arith)
leaf_lem tok_gteq h = absurd (omega arith)
leaf_lem tok_gt h = absurd (omega arith)
leaf_lem tok_num h = tt
leaf_lem tok_if h = absurd (omega arith)
leaf_lem tok_elseif h = absurd (omega arith)
leaf_lem tok_else h = absurd (omega arith)
leaf_lem tok_with h = absurd (omega arith)
leaf_lem tok_end h = absurd (omega arith)
leaf_lem tok_and h = absurd (omega arith)
leaf_lem tok_or h = absurd (omega arith)
leaf_lem tok_ident h = tt
leaf_lem tok_dollar h = absurd (omega arith)
leaf_lem tok_eof h = absurd (omega arith)
leaf_lem tok_string h = tt
leaf_lem tok_comma h = absurd (omega arith)
leaf_lem tok_rbracket h = absurd (omega arith)
leaf_lem tok_lbracket h = absurd (omega arith)
leaf_lem tok_array h = absurd (omega arith)
leaf_lem tok_fid h = tt
