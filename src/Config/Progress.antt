-- ===== src/Config/Progress.antt =====
-- The lexer of src/cfgcomp_lexer.c moves on with each token.
use cforum_upto.Base.{
  ℕ, zero, suc, ◌≤◌, ◌<◌, ◌≡◌, refl, Bool, true, false, Option, none, some, List, [], ◌∷◌,
  if◌then◌else◌, length, arith,
}
use cforum_upto.Utf8.Strings.{Scan, done, outside, out_of_fuel}
use cforum_upto.Validate.{isdigit, isalpha}
use cforum_upto.Config.{Token, Stream, tok_dq, tok_sq, ends}
use cforum_upto.Config.Lexer.{
  is_k12_token, skip, readstr, read_number, is_token, read_name, symbol, string_token, number_token,
  word, token_at, begun, lexer,
}
use cforum_upto.Config.Lengths.{
  length-skip, length-is_k12_token, length-readstr, length-read_number, length-read_name_letter,
}

-- The position after a token lies behind the pointer, unless the parser ends with the token.
abbrev Moves : List ℕ → Token → Stream → Type 0
Moves ptr tok stream =
    ends tok ≡ false → (rest : List ℕ) × (stream.pos ≡ some rest) × (length rest < length ptr)

abbrev After : List ℕ → Option (Token × Stream) → Type 0
After ptr none = Unit
After ptr (some (tok, stream)) = Moves ptr tok stream

string_token-After :
    (whole ptr : List ℕ) (stream : Stream) (o : Option (Option (List ℕ × List ℕ)))
    → ((text rest : List ℕ) → o ≡ some (some (text, rest)) → length rest < length whole)
    → After whole (string_token true ptr stream o)
string_token-After whole ptr stream none short = tt
string_token-After whole ptr stream (some none) short = λ e. absurd (ground arith)
string_token-After whole ptr stream (some (some (text, rest))) short =
    λ e. (rest, refl, short text rest refl)

symbol-After :
    (whole ptr : List ℕ) (stream : Stream) (tok : Token)
    → length ptr < length whole
    → After whole (symbol true stream tok ptr)
symbol-After whole ptr stream tok_dq shorter =
    string_token-After whole ptr stream (readstr ptr true b'"')
      (λ text rest e. let inner = length-readstr ptr true b'"' text rest e in omega arith)
symbol-After whole ptr stream tok_sq shorter =
    string_token-After whole ptr stream (readstr ptr false b'\'')
      (λ text rest e. let inner = length-readstr ptr false b'\'' text rest e in omega arith)
symbol-After whole ptr stream tok shorter = λ e. (ptr, refl, shorter)

number_token-After :
    (whole : List ℕ) (stream : Stream) (p : ℕ × List ℕ)
    → length p.1 < length whole
    → After whole (number_token true stream p)
number_token-After whole stream (n, rest) shorter = λ e. (rest, refl, shorter)

word-After :
    (whole : List ℕ) (stream : Stream) (p : List ℕ × List ℕ)
    → length p.1 < length whole
    → After whole (word true stream p)
word-After whole stream (tname, rest) shorter = λ e. (rest, refl, shorter)

branch {ℓ κ} :
    {A : Type ℓ} (P : A → Type κ) (b : Bool) {x y : A}
    → (b ≡ true → P x)
    → (b ≡ false → P y)
    → P (if b then x else y)
branch P true p q = p refl
branch P false p q = q refl

token_at-After : (stream : Stream) (ptr : List ℕ) → After ptr (token_at true stream ptr)
unfolding token_at isalpha
token_at-After stream [] = λ e. absurd (ground arith)
token_at-After stream (c ∷ cs) =
    let whole : List ℕ = c ∷ cs in
    branch (After whole) (is_token (is_k12_token whole).0)
      (λ is.
        symbol-After whole (is_k12_token whole).1 stream (is_k12_token whole).0
          (length-is_k12_token c cs))
      (λ isnt.
        branch (After whole) (isdigit c)
          (λ digit.
            number_token-After whole stream (read_number whole) (length-read_number c cs digit))
          (λ other.
            branch (After whole) (isalpha c)
              (λ letter.
                word-After whole stream (read_name whole) (length-read_name_letter c cs letter))
              (λ none_of e. absurd (ground arith))))

After-longer :
    (short long : List ℕ) (o : Option (Token × Stream))
    → length short ≤ length long
    → After short o
    → After long o
After-longer short long none le a = tt
After-longer short long (some (tok, stream)) le a =
    λ e. let (rest, at_rest, shorter) = a e in (rest, at_rest, omega arith)

lexer-After : (stream : Stream) → After (begun stream) (lexer stream true)
unfolding lexer
lexer-After stream =
    let ptr = begun stream in
    After-longer (skip false ptr) ptr _ (length-skip false ptr)
      (token_at-After (record stream { pos = some ptr }) (skip false ptr))

abbrev pub push_token : Token → Scan (List Token) → Scan (List Token)
push_token tok (done toks) = done (tok ∷ toks)
push_token tok other = other

abbrev pub next_token : Option (Token × Stream) → (Stream → Scan (List Token)) → Scan (List Token)
next_token none more = outside
next_token (some (tok, stream)) more =
    if ends tok then done (tok ∷ []) else push_token tok (more stream)

-- The tokens that calls of cf_cfg_lexer give, one after the other, up to the end or an error.
unfoldable pub tokens : ℕ → Stream → Scan (List Token)
unfolding lexer
tokens zero stream = out_of_fuel
tokens (suc fuel) stream = next_token (lexer stream true) (tokens fuel)

-- The calls come to an end, with at most so many tokens, or read outside of the string.
abbrev pub Ended : ℕ → Scan (List Token) → Type 0
Ended most (done toks) = length toks ≤ most
Ended most outside = Unit
Ended most out_of_fuel = ⊥

push_token-Ended :
    (tok : Token) (most : ℕ) (o : Scan (List Token))
    → Ended most o
    → Ended (suc most) (push_token tok o)
push_token-Ended tok most (done toks) h = omega arith
push_token-Ended tok most outside h = tt
push_token-Ended tok most out_of_fuel h = absurd h

Ended-le : (few most : ℕ) (o : Scan (List Token)) → few ≤ most → Ended few o → Ended most o
Ended-le few most (done toks) le h = omega arith
Ended-le few most outside le h = tt
Ended-le few most out_of_fuel le h = absurd h

next_token-Ended :
    (fuel : ℕ) (ptr : List ℕ) (o : Option (Token × Stream))
    → length ptr < suc fuel
    → After ptr o
    → ((stream : Stream)
        → length (begun stream) < fuel
        → Ended (suc (length (begun stream))) (tokens fuel stream))
    → Ended (suc (length ptr)) (next_token o (tokens fuel))
next_token-Ended fuel ptr none enough a ih = tt
next_token-Ended fuel ptr (some (tok, stream)) enough a ih =
    branch (Ended (suc (length ptr))) (ends tok) (λ is. omega arith)
      (λ isnt.
        let (rest, at_rest, shorter) = a isnt in
        let same : begun stream ≡ rest = rw at_rest refl in
        let few = ih stream (rw same (omega arith)) in
        let le : suc (length (begun stream)) ≤ length ptr = rw same (omega arith) in
        push_token-Ended tok (length ptr) (tokens fuel stream)
          (Ended-le (suc (length (begun stream))) (length ptr) (tokens fuel stream) le few))

-- The calls of cf_cfg_lexer end: with one call for each byte that is left and one for the end, the
-- last gives CF_TOK_EOF or an error, or the lexer reads outside of the string before. So there are
-- at most as many tokens as bytes, and the end.
pub tokens-Ended :
    (fuel : ℕ) (stream : Stream)
    → length (begun stream) < fuel
    → Ended (suc (length (begun stream))) (tokens fuel stream)
unfolding tokens
tokens-Ended zero stream enough = absurd (omega arith)
tokens-Ended (suc fuel) stream enough =
    next_token-Ended fuel (begun stream) (lexer stream true) enough (lexer-After stream)
      (λ next shorter. tokens-Ended fuel next shorter)
