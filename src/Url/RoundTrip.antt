-- ===== src/Url/RoundTrip.antt =====
-- What is encoded for a URL in src/cfcgi.c is decoded again, and the lengths of both.
use cforum_upto.Base.{
  ℕ, ◌*◌, ◌/◌, ◌%◌, ◌<◌, ◌≤◌, ◌≡◌, ◌≢◌, refl, sym, ap, ◌∙◌, ◌↔◌, inl, inr, Bool, true, false,
  Bool-cases, Option, none, some, List, [], ◌∷◌, ◌==◌, ==_iff, ==_false, if◌then◌else◌, length,
  arith,
}
use cforum_upto.Validate.{isdigit, isxdigit}
use cforum_upto.Url.{
  xdigit_value, strtol_16, Place, outside, behind_percent, behind_digit, write, decode_loop,
  url_decode, stays, upper_xdigit, url_encode,
}

-- The bytes are below 256.
abbrev pub AreBytes : List ℕ → Type 0
AreBytes [] = Unit
AreBytes (c ∷ cs) = (c < 256) × AreBytes cs

upper_xdigit_lem :
    (d : ℕ) → d < 16 → (isxdigit (upper_xdigit d) ≡ true) × (xdigit_value (upper_xdigit d) ≡ d)
unfolding isxdigit isdigit xdigit_value
upper_xdigit_lem d lt = (ground arith, ground arith)

strtol_16-upper_xdigit :
    (c : ℕ) → c < 256 → strtol_16 (upper_xdigit (c / 16)) (upper_xdigit (c % 16)) ≡ c
unfolding strtol_16
strtol_16-upper_xdigit c lt =
    let high = upper_xdigit_lem (c / 16) (omega arith) in
    let low = upper_xdigit_lem (c % 16) (omega arith) in
    rw (high.0, high.1, low.0, low.1) (omega arith)

stays_lem : (c : ℕ) → stays c ≡ true → (c ≢ b'+') × (c ≢ b'%')
unfolding stays
stays_lem c e = ground arith

-- What cf_cgi_url_encode gives for a string of bytes, cf_cgi_url_decode turns back into it, and it
-- stays inside of the string.
pub url_decode-url_encode : (s : List ℕ) → AreBytes s → url_decode (url_encode s) ≡ some s
unfolding url_decode decode_loop url_encode
url_decode-url_encode [] h = refl
url_decode-url_encode (c ∷ cs) h =
    let rest = url_decode-url_encode cs h.1 in
    elim (Bool-cases (stays c)) [
      | inl is ↦
          rw (is, ==_false c b'+' (stays_lem c is).0, ==_false c b'%' (stays_lem c is).1, rest) refl
      | inr isnt ↦ elim (Bool-cases (c == b' ')) [
        | inl blank ↦ rw (isnt, blank, rest) (rw (← (==_iff c b' ').0 blank) refl)
        | inr other ↦ rw (isnt, other, rest, strtol_16-upper_xdigit c h.0) refl
      ]
    ]

-- The block of `3 * *len + 1` bytes is large enough: what cf_cgi_url_encode writes is at most three
-- times as long as the string.
pub length-url_encode : (s : List ℕ) → length (url_encode s) ≤ 3 * length s
unfolding url_encode
length-url_encode [] = omega arith
length-url_encode (c ∷ cs) =
    let rest = length-url_encode cs in
    elim (Bool-cases (stays c)) [
      | inl is ↦ rw is (omega arith)
      | inr isnt ↦ elim (Bool-cases (c == b' ')) [
        | inl blank ↦ rw (isnt, blank) (omega arith)
        | inr other ↦ rw (isnt, other) (omega arith)
      ]
    ]

-- A string that does not end inside of an escape.
pub data Complete : List ℕ → Type 0 where
  nothing : Complete []
  byte : (c : ℕ) (cs : List ℕ) → c ≢ b'%' → Complete cs → Complete (c ∷ cs)
  escape : (x y : ℕ) (cs : List ℕ) → Complete cs → Complete (b'%' ∷ x ∷ y ∷ cs)

-- The same from inside of an escape on.
abbrev CompleteFrom : Place → List ℕ → Type 0
CompleteFrom outside s = Complete s
CompleteFrom behind_percent s = (x : ℕ) × (y : ℕ) × (t : List ℕ) × (s ≡ x ∷ y ∷ t) × Complete t
CompleteFrom (behind_digit a) s = (y : ℕ) × (t : List ℕ) × (s ≡ y ∷ t) × Complete t

some-write :
    (c : ℕ) (o : Option (List ℕ)) (r : List ℕ) → write c o ≡ some r → (t : List ℕ) × (o ≡ some t)
some-write c none r e = absurd (ground arith)
some-write c (some t) r e = (t, refl)

some-step :
    (p b : Bool) (c : ℕ) (o : Option (List ℕ)) (r : List ℕ)
    → (if p then write b' ' o else if b then o else write c o) ≡ some r
    → (t : List ℕ) × (o ≡ some t)
some-step true b c o r e = some-write b' ' o r e
some-step false true c o r e = (r, e)
some-step false false c o r e = some-write c o r e

decode_loop-Complete : (p : Place) (s r : List ℕ) → decode_loop p s ≡ some r → CompleteFrom p s
unfolding decode_loop
decode_loop-Complete outside [] r e = nothing
decode_loop-Complete behind_percent [] r e = absurd (ground arith)
decode_loop-Complete (behind_digit a) [] r e = absurd (ground arith)
decode_loop-Complete outside (c ∷ cs) r e =
    let at_byte = λ (b : Bool).
      let rest = decode_loop (if b then behind_percent else outside) cs in
      if c == b'+' then write b' ' rest else if b then rest else write c rest in
    elim (Bool-cases (c == b'%')) [
      | inl is ↦
          let (t, decoded) =
            some-step (c == b'+') true c (decode_loop behind_percent cs) r
              (sym (ap at_byte is) ∙ e) in
          let (x, y, u, same, complete) = decode_loop-Complete behind_percent cs t decoded in
          rw ((==_iff c b'%').0 is, same) (escape x y u complete)
      | inr isnt ↦
          let (t, decoded) =
            some-step (c == b'+') false c (decode_loop outside cs) r (sym (ap at_byte isnt) ∙ e) in
          byte c cs (λ k. ground arith) (decode_loop-Complete outside cs t decoded)
    ]
decode_loop-Complete behind_percent (c ∷ cs) r e =
    let (y, t, same, complete) = decode_loop-Complete (behind_digit c) cs r e in
    (c, y, t, ap (λ l. c ∷ l) same, complete)
decode_loop-Complete (behind_digit a) (c ∷ cs) r e =
    let (t, decoded) = some-write (strtol_16 a c) (decode_loop outside cs) r e in
    (c, cs, refl, decode_loop-Complete outside cs t decoded)

Complete-decode_loop :
    (s : List ℕ)
    → Complete s
    → (r : List ℕ) × (decode_loop outside s ≡ some r) × (length r ≤ length s)
unfolding decode_loop
Complete-decode_loop [] nothing = ([], refl, omega arith)
Complete-decode_loop (c ∷ cs) (byte _ _ differs complete) =
    let (r, e, bound) = Complete-decode_loop cs complete in
    elim (Bool-cases (c == b'+')) [
      | inl plus ↦ (b' ' ∷ r, rw (==_false c b'%' differs, plus, e) refl, omega arith)
      | inr other ↦ (c ∷ r, rw (==_false c b'%' differs, other, e) refl, omega arith)
    ]
Complete-decode_loop _ (escape x y cs complete) =
    let (r, e, bound) = Complete-decode_loop cs complete in
    (strtol_16 x y ∷ r, rw e refl, omega arith)

-- cf_cgi_url_decode stays inside of a string exactly if the string does not end inside of an
-- escape, and then what it writes is at most as long as the string.
pub url_decode_iff :
    (s : List ℕ) → Complete s ↔ ((r : List ℕ) × (url_decode s ≡ some r) × (length r ≤ length s))
unfolding url_decode
url_decode_iff s = (Complete-decode_loop s, λ (r, e, bound). decode_loop-Complete outside s r e)
