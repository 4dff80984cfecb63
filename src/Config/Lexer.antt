-- ===== src/Config/Lexer.antt =====
-- src/cfgcomp_lexer.c. Texts are the bytes of C strings; none stands for a read outside of one, or
-- through a NULL pointer.
use cforum_upto.Base.{
  ℕ, ◌+◌, ◌-◌, ◌*◌, ◌%◌, ◌^◌, min, Bool, true, false, not, ◌&&◌, ◌||◌, Option, none, some, List, [],
  ◌∷◌, leb, ltb, ◌==◌, if◌then◌else◌, length, drop,
}
use cforum_upto.Str.Equal.{first, strcmp, strcasecmp}
use cforum_upto.Utf8.Strings.{Scan, done, outside, is_valid_utf8_string}
use cforum_upto.Validate.{isdigit, isalpha, starts}
use cforum_upto.Url.{isspace}
use cforum_upto.Config.{
  Token, Stream, no_tok, tok_err, tok_dq, tok_sq, tok_lparen, tok_rparen, tok_dot, tok_plus,
  tok_minus, tok_div, tok_mult, tok_semi, tok_perc, tok_eq, tok_set, tok_noteq, tok_not, tok_lteq,
  tok_lt, tok_gteq, tok_gt, tok_num, tok_if, tok_elseif, tok_else, tok_with, tok_end, tok_and,
  tok_or, tok_ident, tok_dollar, tok_eof, tok_string, tok_comma, tok_rbracket, tok_lbracket,
}

-- The bytes that are a token whatever follows.
unfoldable pub k1_token : ℕ → Token
k1_token c =
    if c == b'"'
    then tok_dq
    else if c == b'\''
    then tok_sq
    else if c == b'('
    then tok_lparen
    else if c == b')'
    then tok_rparen
    else if c == b'['
    then tok_lbracket
    else if c == b']'
    then tok_rbracket
    else if c == b'.'
    then tok_dot
    else if c == b','
    then tok_comma
    else if c == b'+'
    then tok_plus
    else if c == b'-'
    then tok_minus
    else if c == b'/'
    then tok_div
    else if c == b'*'
    then tok_mult
    else if c == b';'
    then tok_semi
    else if c == b'%'
    then tok_perc
    else if c == b'$'
    then tok_dollar
    else no_tok

-- The tokens with a longer one that an equals sign makes of them.
abbrev pub k2_token : List ℕ → Token → Token → Token × List ℕ
k2_token cs long short = if first cs == b'=' then (long, drop 1 cs) else (short, cs)

-- cf_cfg_lex_is_k12_token: the token, and the position behind it, which counts if there is one.
unfoldable pub is_k12_token : List ℕ → Token × List ℕ
unfolding k1_token
is_k12_token [] = (no_tok, [])
is_k12_token (c ∷ cs) =
    if c == b'='
    then k2_token cs tok_eq tok_set
    else if c == b'!'
    then k2_token cs tok_noteq tok_not
    else if c == b'<'
    then k2_token cs tok_lteq tok_lt
    else if c == b'>'
    then k2_token cs tok_gteq tok_gt
    else (k1_token c, cs)

-- cf_cfg_lex_isspace.
abbrev pub lex_isspace : ℕ → Bool
lex_isspace c = isspace c || (c == 13 || c == 10)

-- From the label cf_cfg_lex_comment_state on, the loops over comments and blanks; `comment` tells
-- whether the byte is looked at by the loop over a comment, which ends before a line's end.
unfoldable pub skip : Bool → List ℕ → List ℕ
unfolding isspace
skip comment [] = []
skip comment (c ∷ cs) =
    let line_end = c == 10 || c == 13 in
    let rest = skip (if comment then not line_end else c == b'#') cs in
    if comment || (c == b'#' || lex_isspace c) then rest else c ∷ cs

-- The byte that an escape stands for.
abbrev pub escaped_byte : ℕ → ℕ → ℕ
escaped_byte delim c =
    if c == delim
    then delim
    else if c == b'n'
    then 10
    else if c == b't'
    then 9
    else if c == b'r'
    then 13
    else c

-- What was read of a string, and what follows its delimiter.
abbrev pub push_byte : ℕ → Scan (Option (List ℕ × List ℕ)) → Scan (Option (List ℕ × List ℕ))
push_byte c (done (some (text, rest))) = done (some (c ∷ text, rest))
push_byte c other = other

-- The loop of cf_cfg_lex_readstr. `done none` is the end of the content before the delimiter, and
-- `outside` what follows a backslash at the end in a string with escapes: the loop moves behind the
-- NUL. Without escapes a backslash only counts before the delimiter.
unfoldable pub readstr_loop : Bool → ℕ → Bool → List ℕ → Scan (Option (List ℕ × List ℕ))
readstr_loop do_seq delim true [] = outside
readstr_loop do_seq delim false [] = done none
readstr_loop do_seq delim true (c ∷ cs) =
    push_byte (escaped_byte delim c) (readstr_loop do_seq delim false cs)
readstr_loop do_seq delim false (c ∷ cs) =
    let escape = c == b'\\' && (do_seq || first cs == delim) in
    let rest = readstr_loop do_seq delim escape cs in
    if c == delim then done (some ([], cs)) else if escape then rest else push_byte c rest

-- The string is valid UTF-8. Of an empty one the content is NULL, which is read.
abbrev pub check_string : List ℕ → List ℕ → Scan Bool → Option (Option (List ℕ × List ℕ))
check_string [] rest valid = none
check_string (c ∷ text) rest (done true) = some (some (c ∷ text, rest))
check_string (c ∷ text) rest (done false) = some none
check_string (c ∷ text) rest _ = none

abbrev pub string_read : Scan (Option (List ℕ × List ℕ)) → Option (Option (List ℕ × List ℕ))
string_read (done none) = some none
string_read (done (some (text, rest))) =
    check_string text rest (is_valid_utf8_string text (length text))
string_read _ = none

-- cf_cfg_lex_readstr: the string and the position behind it, or `some none` for the result -1.
unfoldable pub readstr : List ℕ → Bool → ℕ → Option (Option (List ℕ × List ℕ))
unfolding readstr_loop is_valid_utf8_string
readstr s do_seq delim = string_read (readstr_loop do_seq delim false s)

-- A digit of strtol, or 99.
unfoldable pub digit_value : ℕ → ℕ
unfolding isdigit
digit_value c =
    if isdigit c
    then c - 48
    else if leb b'a' c && leb c b'z'
    then c - 87
    else if leb b'A' c && leb c b'Z'
    then c - 55
    else 99

-- The digits of strtol: their value and what follows them.
unfoldable pub strtol_loop : ℕ → ℕ → List ℕ → ℕ × List ℕ
unfolding digit_value
strtol_loop base acc [] = (acc, [])
strtol_loop base acc (c ∷ cs) =
    let rest = strtol_loop base (acc * base + digit_value c) cs in
    if ltb (digit_value c) base then rest else (acc, c ∷ cs)

-- The result of strtol, a long of 64 bits that stops at its largest value, stored in an int.
abbrev pub to_int : ℕ → ℕ
to_int n = min n (2 ^ 63 - 1) % 2 ^ 32

-- A number at a digit: its 32 bits and the position behind it. `0x` without a digit is a 0.
unfoldable pub read_number : List ℕ → ℕ × List ℕ
unfolding strtol_loop isdigit
read_number [] = (0, [])
read_number (c ∷ cs) =
    let hex = strtol_loop 16 0 (drop 1 cs) in
    let octal = strtol_loop 8 0 (c ∷ cs) in
    let decimal = strtol_loop 10 0 (c ∷ cs) in
    if c == b'0'
    then if first cs == b'x'
      then if ltb (digit_value (first (drop 1 cs))) 16 then (to_int hex.0, hex.1) else (0, cs)
      else if isdigit (first cs)
      then (to_int octal.0, octal.1)
      else (0, cs)
    else (to_int decimal.0, decimal.1)

abbrev pub is_token : Token → Bool
is_token no_tok = false
is_token _ = true

-- The loop over an identifier: the name and what follows it.
unfoldable pub read_name : List ℕ → List ℕ × List ℕ
unfolding isspace is_k12_token
read_name [] = ([], [])
read_name (c ∷ cs) =
    let rest = read_name cs in
    if lex_isspace c || is_token (is_k12_token (c ∷ cs)).0
    then ([], c ∷ cs)
    else (c ∷ rest.0, rest.1)

-- `strndup(ptr1,ptr-ptr1)` is a keyword, or the text of a token of its own.
unfoldable pub name_token : List ℕ → Token × Option ℕ
unfolding strcmp strcasecmp
name_token tname =
    if strcmp tname (b'i' ∷ b'f' ∷ []) == 0
    then (tok_if, none)
    else if strcmp tname (b'e' ∷ b'l' ∷ b's' ∷ b'e' ∷ b'i' ∷ b'f' ∷ []) == 0
    then (tok_elseif, none)
    else if strcmp tname (b'e' ∷ b'l' ∷ b's' ∷ b'e' ∷ []) == 0
    then (tok_else, none)
    else if strcmp tname (b'w' ∷ b'i' ∷ b't' ∷ b'h' ∷ []) == 0
    then (tok_with, none)
    else if strcmp tname (b'e' ∷ b'n' ∷ b'd' ∷ []) == 0
    then (tok_end, none)
    else if strcmp tname (b'a' ∷ b'n' ∷ b'd' ∷ []) == 0
    then (tok_and, none)
    else if strcmp tname (b'o' ∷ b'r' ∷ []) == 0
    then (tok_or, none)
    else if strcasecmp tname (b'y' ∷ b'e' ∷ b's' ∷ []) == 0
    then (tok_num, some 1)
    else if strcasecmp tname (b'n' ∷ b'o' ∷ []) == 0
    then (tok_num, some 0)
    else (tok_ident, none)

-- `if(changestate) stream->pos = ptr;`
abbrev pub move : Bool → List ℕ → Stream → Stream
move changestate ptr stream = if changestate then record stream { pos = some ptr } else stream

abbrev pub with_number : Option ℕ → Stream → Stream
with_number none stream = stream
with_number (some n) stream = record stream { numtok = n }

abbrev pub with_name : Token → List ℕ → Stream → Stream
with_name tok_ident tname stream = record stream { stok = tname }
with_name _ tname stream = stream

-- The string that a quote begins. The position is moved behind the quote before it is read.
abbrev pub string_token :
    Bool → List ℕ → Stream → Option (Option (List ℕ × List ℕ)) → Option (Token × Stream)
string_token changestate ptr stream none = none
string_token changestate ptr stream (some none) = some (tok_err, move changestate ptr stream)
string_token changestate ptr stream (some (some (text, rest))) =
    some (tok_string, move changestate rest (record stream { stok = text }))

-- The symbols, where `ptr` is behind the one that was found.
abbrev pub symbol : Bool → Stream → Token → List ℕ → Option (Token × Stream)
symbol changestate stream tok_dq ptr = string_token changestate ptr stream (readstr ptr true b'"')
symbol changestate stream tok_sq ptr = string_token changestate ptr stream (readstr ptr false b'\'')
symbol changestate stream tok ptr = some (tok, move changestate ptr stream)

abbrev pub number_token : Bool → Stream → ℕ × List ℕ → Option (Token × Stream)
number_token changestate stream (n, rest) =
    some (tok_num, move changestate rest (record stream { numtok = n }))

abbrev pub word : Bool → Stream → List ℕ × List ℕ → Option (Token × Stream)
word changestate stream (tname, rest) =
    let t = name_token tname in
    some (t.0, move changestate rest (with_number t.1 (with_name t.0 tname stream)))

-- The token at `ptr`, behind comments and blanks.
unfoldable pub token_at : Bool → Stream → List ℕ → Option (Token × Stream)
unfolding is_k12_token readstr read_number read_name name_token
token_at changestate stream ptr =
    let k12 = is_k12_token ptr in
    if is_token k12.0
    then symbol changestate stream k12.0 k12.1
    else if isdigit (first ptr)
    then number_token changestate stream (read_number ptr)
    else if isalpha (first ptr)
    then word changestate stream (read_name ptr)
    else some (tok_eof, stream)

-- At the first call the position is the content, without a byte order mark.
abbrev pub begun : Stream → List ℕ
begun stream = elim stream.pos [
  | some ptr ↦ ptr
  | none ↦
      if starts (0xEF ∷ 0xBB ∷ 0xBF ∷ []) stream.content
      then drop 3 stream.content
      else stream.content
]

-- cf_cfg_lexer.
unfoldable pub lexer : Stream → Bool → Option (Token × Stream)
unfolding token_at skip
lexer stream changestate =
    let ptr = begun stream in
    token_at changestate (record stream { pos = some ptr }) (skip false ptr)
