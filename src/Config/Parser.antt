-- ===== src/Config/Parser.antt =====
-- src/cfgcomp_parser.c: cf_cfg_parser_insert_node, which hangs a token into the tree of an
-- expression, and the branch of cf_cfg_parser for the tokens of an expression without brackets. The
-- tokens lie in a memory, an address is a number, and a null pointer is none.
pub mod Tokens
pub mod Shape
pub mod Place
pub mod Insert
pub mod Calls
pub mod Steps
pub mod Infix
pub mod Cycle
pub mod Compile
pub mod Unique
use cforum_upto.Base.{
  ℕ, zero, suc, ◌+◌, Bool, true, false, ◌&&◌, Option, none, some, List, [], ◌∷◌, ltb, ◌==◌,
  if◌then◌else◌,
}
use cforum_upto.Config.{
  Token, tok_dot, tok_minus, tok_plus, tok_div, tok_mult, tok_perc, tok_noteq, tok_eq, tok_set,
  tok_not, tok_gt, tok_gteq, tok_lt, tok_lteq, tok_and, tok_or, tok_num, tok_ident, tok_string,
  tok_dollar, tok_fid, tok_eof,
}

-- The fields of `cf_cfg_token_t` that the parser reads. `type` is the constant, `prec` its
-- precedence.
pub record Cell : Type 0 where
  pub type : Token
  pub prec : ℕ
  pub left : Option ℕ
  pub right : Option ℕ
  pub parent : Option ℕ

-- The memory, the pointers `tree`, `cur` and `prev`, and the address that is allocated next.
pub record Parse : Type 0 where
  pub tree : Option ℕ
  pub cur : Option ℕ
  pub prev : Option ℕ
  pub cells : ℕ → Cell
  pub fresh : ℕ

-- What a call ends with: the state, CF_RETVAL_PARSEERROR, a NULL that is followed, or a search
-- that is not over when its fuel is.
pub data Parsing : Type 0 where
  parsed : Parse → Parsing
  refused : Parsing
  outside : Parsing
  out_of_fuel : Parsing

abbrev pub write : ℕ → Cell → (ℕ → Cell) → ℕ → Cell
write a e c j = if j == a then e else c j

abbrev pub set_left : ℕ → Option ℕ → (ℕ → Cell) → ℕ → Cell
set_left a l c = write a (record (c a) { left = l }) c

abbrev pub set_right : ℕ → Option ℕ → (ℕ → Cell) → ℕ → Cell
set_right a r c = write a (record (c a) { right = r }) c

abbrev pub set_parent : ℕ → Option ℕ → (ℕ → Cell) → ℕ → Cell
set_parent a p c = write a (record (c a) { parent = p }) c

-- `return tok;` with the links that were set.
abbrev pub inserted : ℕ → (ℕ → Cell) → Parse → Parsing
inserted tok c s = parsed (record s { cells = c; cur = some tok })

-- The new token is a child: on the right if there is one on the left.
abbrev pub hang : Option ℕ → ℕ → ℕ → (ℕ → Cell) → Parse → Parsing
hang (some l) cur tok c s = inserted tok (set_right cur (some tok) c) s
hang none cur tok c s = inserted tok (set_left cur (some tok) c) s

-- The precedence of the current token is smaller.
abbrev pub append_child : ℕ → ℕ → Parse → Parsing
append_child cur tok s = let c = set_parent tok (some cur) s.cells in hang (c cur).left cur tok c s

-- The new token becomes the root.
abbrev pub new_root : ℕ → Parse → Parsing
new_root tok s = elim s.tree [
  | none ↦ outside
  | some root ↦
      inserted tok (set_parent root (some tok) (set_left tok (some root) s.cells))
        (record s { tree = some tok })
]

abbrev pub points_to : Option ℕ → ℕ → Bool
points_to none a = false
points_to (some b) a = b == a

-- The precedences are equal; the parent of the current token is given.
abbrev pub replace_below : Option ℕ → ℕ → ℕ → Parse → Parsing
replace_below none cur tok s = new_root tok s
replace_below (some p) cur tok s =
    let c =
      if points_to (s.cells p).left cur
      then set_left p (some tok) s.cells
      else set_right p (some tok) s.cells in
    inserted tok (set_left tok (some cur) (set_parent cur (some tok) (set_parent tok (some cur) c)))
      s

abbrev pub replace_current : ℕ → ℕ → Parse → Parsing
replace_current cur tok s = replace_below (s.cells cur).parent cur tok s

-- `while(cur && cur->prec > tok->prec) cur = cur->parent;`
unfoldable pub climb : (ℕ → Cell) → ℕ → Option ℕ → ℕ → Option (Option ℕ)
climb c q none fuel = some none
climb c q (some cur) zero = none
climb c q (some cur) (suc fuel) =
    let rest = climb c q (c cur).parent fuel in if ltb q (c cur).prec then rest else some (some cur)

-- The child on the right, or else the one on the left, comes to the left of the new token, which
-- takes its place.
abbrev pub take_place : Option ℕ → Option ℕ → ℕ → ℕ → (ℕ → Cell) → Parse → Parsing
take_place (some r) left cur tok c s =
    inserted tok (set_right cur (some tok) (set_parent r (some tok) (set_left tok (some r) c))) s
take_place none (some l) cur tok c s =
    inserted tok (set_left cur (some tok) (set_parent l (some tok) (set_left tok (some l) c))) s
take_place none none cur tok c s = outside

abbrev pub insert_below : ℕ → ℕ → Parse → Parsing
insert_below cur tok s =
    let c = set_parent tok (some cur) s.cells in take_place (c cur).right (c cur).left cur tok c s

abbrev pub at_position : Option (Option ℕ) → ℕ → Parse → Parsing
at_position none tok s = out_of_fuel
at_position (some none) tok s = new_root tok s
at_position (some (some cur)) tok s = insert_below cur tok s

-- The new token meets the current one, of the precedence `p`; its own is `q`.
unfoldable pub insert_at : ℕ → ℕ → ℕ → ℕ → ℕ → Parse → Parsing
unfolding climb
insert_at p q cur fuel tok s =
    if ltb p q
    then append_child cur tok s
    else if p == q
    then replace_current cur tok s
    else at_position (climb s.cells q (some cur) fuel) tok s

abbrev pub insert_behind : Option ℕ → ℕ → ℕ → Parse → Parsing
insert_behind none fuel tok s = parsed (record s { tree = some tok; cur = some tok })
insert_behind (some cur) fuel tok s = insert_at (s.cells cur).prec (s.cells tok).prec cur fuel tok s

-- cf_cfg_parser_insert_node.
unfoldable pub insert_node : ℕ → ℕ → Parse → Parsing
unfolding insert_at
insert_node fuel tok s = insert_behind s.cur fuel tok s

-- cf_cfg_parser_isoperator.
abbrev pub isoperator : Token → Bool
isoperator tok_dot = true
isoperator tok_minus = true
isoperator tok_plus = true
isoperator tok_div = true
isoperator tok_mult = true
isoperator tok_perc = true
isoperator tok_noteq = true
isoperator tok_eq = true
isoperator tok_set = true
isoperator tok_not = true
isoperator tok_gt = true
isoperator tok_gteq = true
isoperator tok_lt = true
isoperator tok_lteq = true
isoperator tok_and = true
isoperator tok_or = true
isoperator _ = false

-- What the switch asks of the token before.
pub data Role : Type 0 where
  operator : Role
  operand : Role
  no_check : Role
  unexpected : Role

abbrev pub role : Token → Role
role tok_dot = operator
role tok_minus = operator
role tok_plus = operator
role tok_div = operator
role tok_mult = operator
role tok_perc = operator
role tok_noteq = operator
role tok_eq = operator
role tok_set = operator
role tok_not = operator
role tok_gt = operator
role tok_gteq = operator
role tok_lt = operator
role tok_lteq = operator
role tok_and = operator
role tok_or = operator
role tok_num = operand
role tok_ident = operand
role tok_string = operand
role tok_dollar = no_check
role _ = unexpected

-- The precedences of src/cfgcomp.h. CF_TOK_FID is made of CF_TOK_IDENT, and has its own.
abbrev pub precedence : Token → ℕ
precedence tok_dot = 90
precedence tok_minus = 60
precedence tok_plus = 60
precedence tok_div = 50
precedence tok_mult = 50
precedence tok_perc = 50
precedence tok_noteq = 80
precedence tok_eq = 80
precedence tok_set = 10
precedence tok_not = 82
precedence tok_gt = 70
precedence tok_gteq = 70
precedence tok_lt = 70
precedence tok_lteq = 70
precedence tok_and = 40
precedence tok_or = 30
precedence tok_num = 100
precedence tok_ident = 100
precedence tok_string = 100
precedence tok_fid = 100
precedence _ = 0

-- `prev && cf_cfg_parser_isoperator(prev)` and `prev && !cf_cfg_parser_isoperator(prev)`.
abbrev pub accepts : Role → Option Bool → Bool
accepts operator (some true) = false
accepts operand (some false) = false
accepts unexpected o = false
accepts _ o = true

abbrev pub prev_operator : Option ℕ → (ℕ → Cell) → Option Bool
prev_operator none c = none
prev_operator (some p) c = some (isoperator (c p).type)

abbrev pub is_ident : Token → Bool
is_ident tok_ident = true
is_ident _ = false

abbrev pub is_dot : Token → Bool
is_dot tok_dot = true
is_dot _ = false

-- An identifier before a dot is CF_TOK_FID.
abbrev pub stored_type : Token → Token → Token
stored_type ret next = if is_ident ret && is_dot next then tok_fid else ret

abbrev pub new_token : Token → Token → Cell
new_token ret next = record {
  type = stored_type ret next;
  prec = precedence ret;
  left = none;
  right = none;
  parent = none;
}

-- The branch for a token of an expression; `next` is the token that the lexer gives behind it.
unfoldable pub add_token : ℕ → Token → Token → Parse → Parsing
unfolding insert_node
add_token fuel ret next s =
    if accepts (role ret) (prev_operator s.prev s.cells)
    then insert_node fuel s.fresh (record s {
      cells = write s.fresh (new_token ret next) s.cells;
      prev = some s.fresh;
      fresh = suc s.fresh;
    })
    else refused

abbrev pub next_of : List Token → Token
next_of [] = tok_eof
next_of (k ∷ ks) = k

abbrev pub then_parse : Parsing → (Parse → Parsing) → Parsing
then_parse (parsed s) f = f s
then_parse refused f = refused
then_parse outside f = outside
then_parse out_of_fuel f = out_of_fuel

-- The loop of cf_cfg_parser over the tokens of an expression, with one that is no dot behind the
-- last. Those of the other branches, such as brackets, semicolons and keywords, do not occur.
unfoldable pub parse_tokens : ℕ → List Token → Parse → Parsing
unfolding add_token
parse_tokens fuel [] s = parsed s
parse_tokens fuel (k ∷ ks) s = then_parse (add_token fuel k (next_of ks) s) (parse_tokens fuel ks)

-- The pointers at the begin of a statement.
abbrev pub begin : (ℕ → Cell) → Parse
begin c = record { tree = none; cur = none; prev = none; cells = c; fresh = 0 }
