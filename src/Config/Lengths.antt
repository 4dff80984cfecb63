-- ===== src/Config/Lengths.antt =====
-- What the parts of the lexer of src/cfgcomp_lexer.c leave of the content.
use cforum_upto.Base.{
  ℕ, suc, ◌+◌, ◌*◌, ◌≤◌, ◌<◌, ◌≡◌, ap, ◌⊎◌, inl, inr, Bool, true, false, not, ◌&&◌, ◌||◌,
  Bool-cases, Option, none, some, List, [], ◌∷◌, ltb, ◌==◌, ==_iff, if◌then◌else◌, length, drop,
  length-drop, arith,
}
use cforum_upto.Str.Equal.{first}
use cforum_upto.Utf8.Strings.{Scan, done, outside, out_of_fuel, is_valid_utf8_string}
use cforum_upto.Validate.{isdigit, isalpha}
use cforum_upto.Url.{isspace}
use cforum_upto.Config.{
  Token, tok_eq, tok_set, tok_noteq, tok_not, tok_lteq, tok_lt, tok_gteq, tok_gt,
}
use cforum_upto.Config.Lexer.{
  k1_token, k2_token, is_k12_token, lex_isspace, skip, readstr_loop, push_byte, readstr,
  string_read, check_string, digit_value, strtol_loop, read_number, is_token, read_name,
}

pub length-skip : (comment : Bool) (s : List ℕ) → length (skip comment s) ≤ length s
unfolding skip
length-skip comment [] = omega arith
length-skip comment (c ∷ cs) =
    let rest = length-skip (if comment then not (c == 10 || c == 13) else c == b'#') cs in
    elim (Bool-cases (comment || (c == b'#' || lex_isspace c))) [
      | inl passed ↦ rw passed (omega arith)
      | inr stays ↦ rw stays (omega arith)
    ]

-- What holds of both branches.
both {ℓ κ} : {A : Type ℓ} (P : A → Type κ) (b : Bool) {x y : A} → P x → P y → P (if b then x else y)
both P true p q = p
both P false p q = q

length-k2_token :
    (cs : List ℕ) (long short : Token) → length (k2_token cs long short).1 < suc (length cs)
length-k2_token cs long short =
    both (λ (p : Token × List ℕ). length p.1 < suc (length cs)) (first cs == b'=')
      (omega (arith, length-drop 1 cs)) (omega arith)

pub length-is_k12_token : (c : ℕ) (cs : List ℕ) → length (is_k12_token (c ∷ cs)).1 < suc (length cs)
unfolding is_k12_token
length-is_k12_token c cs =
    let short = λ (p : Token × List ℕ). length p.1 < suc (length cs) in
    both short (c == b'=') (length-k2_token cs tok_eq tok_set) (
      both short (c == b'!') (length-k2_token cs tok_noteq tok_not) (
        both short (c == b'<') (length-k2_token cs tok_lteq tok_lt)
          (both short (c == b'>') (length-k2_token cs tok_gteq tok_gt) (omega arith))))

push_byte-done :
    (c : ℕ) (o : Scan (Option (List ℕ × List ℕ))) (text rest : List ℕ)
    → push_byte c o ≡ done (some (text, rest))
    → (t : List ℕ) × (o ≡ done (some (t, rest)))
push_byte-done c (done none) text rest e = absurd (ground arith)
push_byte-done c (done (some (t, r))) text rest e = (t, ground arith)
push_byte-done c outside text rest e = absurd (ground arith)
push_byte-done c out_of_fuel text rest e = absurd (ground arith)

readstr_step :
    (c : ℕ) (cs : List ℕ) (ends_here escape : Bool) (o : Scan (Option (List ℕ × List ℕ)))
    (text rest : List ℕ)
    → (if ends_here then done (some ([], cs)) else if escape then o else push_byte c o)
      ≡ done (some (text, rest))
    → (cs ≡ rest) ⊎ ((t : List ℕ) × (o ≡ done (some (t, rest))))
readstr_step c cs true escape o text rest e = inl (ground arith)
readstr_step c cs false true o text rest e = inr (text, e)
readstr_step c cs false false o text rest e = inr (push_byte-done c o text rest e)

length-readstr_loop :
    (do_seq : Bool) (delim : ℕ) (escape : Bool) (s text rest : List ℕ)
    → readstr_loop do_seq delim escape s ≡ done (some (text, rest))
    → length rest < length s
unfolding readstr_loop
length-readstr_loop do_seq delim true [] text rest e = absurd (ground arith)
length-readstr_loop do_seq delim false [] text rest e = absurd (ground arith)
length-readstr_loop do_seq delim true (c ∷ cs) text rest e =
    let (t, inner) = push_byte-done _ (readstr_loop do_seq delim false cs) text rest e in
    let shorter = length-readstr_loop do_seq delim false cs t rest inner in omega arith
length-readstr_loop do_seq delim false (c ∷ cs) text rest e =
    let escape = c == b'\\' && (do_seq || first cs == delim) in
    let step =
      readstr_step c cs (c == delim) escape (readstr_loop do_seq delim escape cs) text rest e in
    elim step [
      | inl same ↦ rw (← same) (omega arith)
      | inr (t, inner) ↦
          let shorter = length-readstr_loop do_seq delim escape cs t rest inner in omega arith
    ]

length-strtol_loop : (base acc : ℕ) (s : List ℕ) → length (strtol_loop base acc s).1 ≤ length s
unfolding strtol_loop
length-strtol_loop base acc [] = omega arith
length-strtol_loop base acc (c ∷ cs) =
    let rest = length-strtol_loop base (acc * base + digit_value c) cs in
    elim (Bool-cases (ltb (digit_value c) base)) [
      | inl digit ↦ rw digit (omega arith)
      | inr other ↦ rw other (omega arith)
    ]

digit_lt_ten : (c : ℕ) → isdigit c ≡ true → ltb (digit_value c) 10 ≡ true
unfolding digit_value isdigit
digit_lt_ten c digit = ground arith

pub length-read_number :
    (c : ℕ) (cs : List ℕ) → isdigit c ≡ true → length (read_number (c ∷ cs)).1 < suc (length cs)
unfolding read_number strtol_loop digit_value isdigit
length-read_number c cs digit =
    let short = λ (p : ℕ × List ℕ). length p.1 < suc (length cs) in
    elim (Bool-cases (c == b'0')) [
      | inl is ↦ rw ((==_iff c b'0').0 is) (
          both short (first cs == b'x')
            (both short (ltb (digit_value (first (drop 1 cs))) 16)
              (omega (arith, length-strtol_loop 16 0 (drop 1 cs), length-drop 1 cs)) (omega arith))
            (both short (isdigit (first cs)) (omega (arith, length-strtol_loop 8 0 cs))
              (omega arith)))
      | inr isnt ↦
          rw (isnt, digit_lt_ten c digit)
            (omega (arith, length-strtol_loop 10 (0 + digit_value c) cs))
    ]

length-read_name : (s : List ℕ) → length (read_name s).1 ≤ length s
unfolding read_name
length-read_name [] = omega arith
length-read_name (c ∷ cs) =
    let rest = length-read_name cs in
    elim (Bool-cases (lex_isspace c || is_token (is_k12_token (c ∷ cs)).0)) [
      | inl stops ↦ rw stops (omega arith)
      | inr goes ↦ rw goes (omega arith)
    ]

isalpha-goes :
    (c : ℕ) (cs : List ℕ)
    → isalpha c ≡ true
    → (lex_isspace c || is_token (is_k12_token (c ∷ cs)).0) ≡ false
unfolding isalpha isspace is_k12_token k1_token
isalpha-goes c cs letter = ground arith

pub length-read_name_letter :
    (c : ℕ) (cs : List ℕ) → isalpha c ≡ true → length (read_name (c ∷ cs)).1 < suc (length cs)
unfolding read_name
length-read_name_letter c cs letter =
    rw (isalpha-goes c cs letter) (omega (arith, length-read_name cs))

check_string-some :
    (t r : List ℕ) (valid : Scan Bool) (text rest : List ℕ)
    → check_string t r valid ≡ some (some (text, rest))
    → r ≡ rest
check_string-some [] r valid text rest e = absurd (ground arith)
check_string-some (c ∷ t) r (done true) text rest e = ground arith
check_string-some (c ∷ t) r (done false) text rest e = absurd (ground arith)
check_string-some (c ∷ t) r outside text rest e = absurd (ground arith)
check_string-some (c ∷ t) r out_of_fuel text rest e = absurd (ground arith)

string_read-some :
    (o : Scan (Option (List ℕ × List ℕ))) (text rest : List ℕ)
    → string_read o ≡ some (some (text, rest))
    → (t : List ℕ) × (o ≡ done (some (t, rest)))
string_read-some (done none) text rest e = absurd (ground arith)
string_read-some (done (some (t, r))) text rest e = (
  t,
  ap (λ l. done (some (t, l)))
      (check_string-some t r (is_valid_utf8_string t (length t)) text rest e),
)
string_read-some outside text rest e = absurd (ground arith)
string_read-some out_of_fuel text rest e = absurd (ground arith)

pub length-readstr :
    (s : List ℕ) (do_seq : Bool) (delim : ℕ) (text rest : List ℕ)
    → readstr s do_seq delim ≡ some (some (text, rest))
    → length rest < length s
unfolding readstr
length-readstr s do_seq delim text rest e =
    let (t, inner) = string_read-some (readstr_loop do_seq delim false s) text rest e in
    length-readstr_loop do_seq delim false s t rest inner
