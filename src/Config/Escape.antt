-- ===== src/Config/Escape.antt =====
-- Texts in quotes: cf_cfg_codegen_append_str of src/cfgcomp_codegenerator.c writes them, and
-- cf_cfg_asm_readstr of src/cfgcomp_assembler.c and the lexer of src/cfgcomp_lexer.c read them.
use cforum_upto.Base.{
  ℕ, ◌≡◌, ◌≢◌, refl, inl, inr, Bool, true, false, Bool-cases, Option, none, some, List, [], ◌∷◌,
  ◌++◌, ◌==◌, ==_iff, ap, length, if◌then◌else◌, arith,
}
use cforum_upto.Utf8.Strings.{Scan, done, outside, out_of_fuel, is_valid_utf8_string}
use cforum_upto.Config.Lexer.{
  push_byte, escaped_byte, readstr_loop, readstr, string_read, check_string,
}

-- What cf_cfg_codegen_append_str appends.
unfoldable pub append_str : List ℕ → List ℕ
append_str [] = []
append_str (c ∷ cs) =
    let rest = append_str cs in
    if c == b'"'
    then b'\\' ∷ b'"' ∷ rest
    else if c == b'\\'
    then b'\\' ∷ b'\\' ∷ rest
    else if c == 10
    then b'\\' ∷ b'n' ∷ rest
    else if c == 13
    then b'\\' ∷ b'r' ∷ rest
    else c ∷ rest

-- The loop of cf_cfg_asm_readstr: the text, and what follows from the quote on; `done none` is the
-- result NULL. `escape` tells whether the byte stands behind a backslash.
unfoldable pub asm_readstr_loop : Bool → List ℕ → Scan (Option (List ℕ × List ℕ))
asm_readstr_loop true [] = outside
asm_readstr_loop false [] = done none
asm_readstr_loop true (c ∷ cs) = push_byte (escaped_byte b'"' c) (asm_readstr_loop false cs)
asm_readstr_loop false (c ∷ cs) =
    let rest = asm_readstr_loop (c == b'\\') cs in
    if c == b'"' then done (some ([], c ∷ cs)) else if c == b'\\' then rest else push_byte c rest

-- `str.content`, which is NULL where no byte was appended.
abbrev pub text_or_null : List ℕ → Option (List ℕ)
text_or_null [] = none
text_or_null (c ∷ cs) = some (c ∷ cs)

abbrev pub saved : Scan (Option (List ℕ × List ℕ)) → Scan (Option (Option (List ℕ) × List ℕ))
saved (done none) = done none
saved (done (some (text, rest))) = done (some (text_or_null text, rest))
saved outside = outside
saved out_of_fuel = out_of_fuel

-- cf_cfg_asm_readstr: `*save`, and what follows from the quote on.
unfoldable pub asm_readstr : List ℕ → Scan (Option (Option (List ℕ) × List ℕ))
unfolding asm_readstr_loop
asm_readstr ptr = saved (asm_readstr_loop false ptr)

abbrev pub NoLineEnd : List ℕ → Type 0
NoLineEnd [] = Unit
NoLineEnd (c ∷ cs) = (c ≢ 10) × NoLineEnd cs

append_str-readers :
    (s rest : List ℕ)
    → NoLineEnd (append_str s)
      × (asm_readstr_loop false (append_str s ++ b'"' ∷ rest) ≡ done (some (s, b'"' ∷ rest)))
      × (readstr_loop true b'"' false (append_str s ++ b'"' ∷ rest) ≡ done (some (s, rest)))
unfolding append_str asm_readstr_loop readstr_loop
append_str-readers [] rest = (tt, refl, refl)
append_str-readers (c ∷ cs) rest =
    let h = append_str-readers cs rest in
    elim (Bool-cases (c == b'"')) [
      | inl q ↦
          rw (q, h.1, h.2, (==_iff c b'"').0 q) ((omega arith, (omega arith, h.0)), refl, refl)
      | inr nq ↦ elim (Bool-cases (c == b'\\')) [
        | inl b ↦
            rw (nq, b, h.1, h.2, (==_iff c b'\\').0 b)
              ((omega arith, (omega arith, h.0)), refl, refl)
        | inr nb ↦ elim (Bool-cases (c == 10)) [
          | inl n ↦
              rw (nq, nb, n, h.1, h.2, (==_iff c 10).0 n)
                ((omega arith, (omega arith, h.0)), refl, refl)
          | inr nn ↦ elim (Bool-cases (c == 13)) [
            | inl r ↦
                rw (nq, nb, nn, r, h.1, h.2, (==_iff c 13).0 r)
                  ((omega arith, (omega arith, h.0)), refl, refl)
            | inr nr ↦
                rw (nq, nb, nn, nr, nq, nb, h.1, h.2) (((λ e. ground arith), h.0), refl, refl)
          ]
        ]
      ]
    ]

-- A text that is written between quotes holds no line's end. From the quotes cf_cfg_asm_readstr
-- gets it back, as NULL if it is empty; so does cf_cfg_lex_readstr for double quotes if it is not
-- empty and valid UTF-8, refuses it if it is not valid, and reads NULL if it is empty.
pub append_str_lem :
    (s rest : List ℕ)
    → NoLineEnd (append_str s)
      × (asm_readstr (append_str s ++ b'"' ∷ rest) ≡ done (some (text_or_null s, b'"' ∷ rest)))
      × (readstr (append_str s ++ b'"' ∷ rest) true b'"'
          ≡ check_string s rest (is_valid_utf8_string s (length s)))
unfolding asm_readstr readstr
append_str_lem s rest = let h = append_str-readers s rest in (h.0, ap saved h.1, ap string_read h.2)
