-- ===== src/Config.antt =====
-- The compiler of the configuration language: the tokens and the stream of src/cfgcomp.h.
pub mod Lexer
pub mod Lengths
pub mod Progress
pub mod Escape
pub mod Parser
pub mod Codegen
pub mod Registers
pub mod Machine
pub mod Emits
pub mod Combine
pub mod Arrays
pub mod Compiled
mod Examples
use cforum_upto.Base.{ℕ, Bool, true, false, Option, List}

-- The CF_TOK_ constants that the lexer gives, CF_ERR, and those that the parser makes of them.
pub data Token : Type 0 where
  no_tok : Token
  tok_err : Token
  tok_dq : Token
  tok_sq : Token
  tok_lparen : Token
  tok_rparen : Token
  tok_dot : Token
  tok_plus : Token
  tok_minus : Token
  tok_div : Token
  tok_mult : Token
  tok_semi : Token
  tok_perc : Token
  tok_eq : Token
  tok_set : Token
  tok_noteq : Token
  tok_not : Token
  tok_lteq : Token
  tok_lt : Token
  tok_gteq : Token
  tok_gt : Token
  tok_num : Token
  tok_if : Token
  tok_elseif : Token
  tok_else : Token
  tok_with : Token
  tok_end : Token
  tok_and : Token
  tok_or : Token
  tok_ident : Token
  tok_dollar : Token
  tok_eof : Token
  tok_string : Token
  tok_comma : Token
  tok_rbracket : Token
  tok_lbracket : Token
  tok_array : Token
  tok_fid : Token

-- The fields of `cf_cfg_stream_t` that the lexer uses. `pos` is what follows the pointer, and none
-- while it is NULL; `numtok` is the 32 bits of the int.
pub record Stream : Type 0 where
  pub content : List ℕ
  pub pos : Option (List ℕ)
  pub numtok : ℕ
  pub stok : List ℕ

-- The parser leaves its loop.
abbrev pub ends : Token → Bool
ends tok_eof = true
ends tok_err = true
ends _ = false
