-- ===== src/Validate/Authority.antt =====
-- The host name and the port of a link in src/validate.c, as relations between suffixes.
use cforum_upto.Base.{
  ℕ, ◌≡◌, ◌≢◌, refl, sym, ap, ◌∙◌, ◌⊎◌, inl, inr, ◌↔◌, Bool, true, false, not, ◌&&◌, Bool-cases,
  Option, none, some, List, [], ◌∷◌, ◌++◌, ◌==◌, ==_iff, ==_false, if◌then◌else◌, take, drop,
  length, take-append-drop, append-nil, ◌<◌, arith,
}
use cforum_upto.Str.Equal.{first, strncmp, strncmp_iff, IsCstring}
use cforum_upto.Validate.{
  starts, after_scheme, isdigit, is_valid_hostname, until, host, port_loop, port,
}
use cforum_upto.Validate.Grammar.{
  Part, Describes, Optional, optional-Describes, Behind, some-injective, none-some,
}

take-append : (xs ys : List ℕ) → take (length xs) (xs ++ ys) ≡ xs
take-append [] ys = refl
take-append (x ∷ xs) ys = ap (λ l. x ∷ l) (take-append xs ys)

drop-append : (xs ys : List ℕ) → drop (length xs) (xs ++ ys) ≡ ys
drop-append [] ys = refl
drop-append (x ∷ xs) ys = drop-append xs ys

-- A link begins with the scheme exactly if the code's comparison says so.
pub after_scheme_lem :
    (scheme link r : List ℕ)
    → IsCstring scheme
    → IsCstring link
    → 0 < length scheme
    → (after_scheme scheme link ≡ some r) ↔ (link ≡ scheme ++ r)
after_scheme_lem scheme link r h k some_bytes =
    let n : ℕ = length scheme in
    let same = strncmp_iff link scheme n k h some_bytes in
    let whole : take n scheme ≡ scheme =
      ap (take n) (sym (append-nil scheme)) ∙ take-append scheme [] in
    (
      λ e. elim (Bool-cases (starts scheme link)) [
        | inl is ↦
            let rest =
              some-injective (sym (ap (λ b. if b then some (drop n link) else none) is) ∙ e) in
            let begin = same.0 ((==_iff _ 0).0 is) ∙ whole in
            sym (take-append-drop n link) ∙ rw (begin, rest) refl
        | inr isnt ↦
            absurd (none-some (sym (ap (λ b. if b then some (drop n link) else none) isnt) ∙ e))
      ],
      λ e.
          let begin : take n link ≡ take n scheme =
            ap (take n) e ∙ take-append scheme r ∙ sym whole in
          let is = (==_iff (strncmp link scheme n) 0).1 (same.1 begin) in
          rw is (ap some (ap (drop n) e ∙ drop-append scheme r)),
    )

-- Bytes outside a class, up to the NUL or a byte of it.
abbrev pub Outside : (ℕ → Bool) → List ℕ → Type 0
Outside stops [] = Unit
Outside stops (c ∷ cs) = (stops c ≡ false) × Outside stops cs

abbrev pub Begins : (ℕ → Bool) → List ℕ → Type 0
Begins stops [] = Unit
Begins stops (c ∷ cs) = stops c ≡ true

abbrev pub Host : (List ℕ → Option (List ℕ)) → (ℕ → Bool) → Part
Host idna stops s r =
    (name : List ℕ) × (s ≡ name ++ r)
    × Outside stops name
    × Begins stops r
    × (is_valid_hostname idna name ≡ true)

until_lem :
    (stops : ℕ → Bool) (s : List ℕ)
    → (s ≡ (until stops s).0 ++ (until stops s).1)
      × Outside stops (until stops s).0
      × Begins stops (until stops s).1
unfolding until
until_lem stops [] = (refl, tt, tt)
until_lem stops (c ∷ cs) = elim (Bool-cases (stops c)) [
  | inl is ↦ rw is (refl, tt, is)
  | inr isnt ↦ let h = until_lem stops cs in rw isnt (ap (λ l. c ∷ l) h.0, (isnt, h.1), h.2)
]

pub until-append :
    (stops : ℕ → Bool) (name r : List ℕ)
    → Outside stops name
    → Begins stops r
    → until stops (name ++ r) ≡ (name, r)
unfolding until
until-append stops [] [] o b = refl
until-append stops [] (c ∷ cs) o b = rw b refl
until-append stops (c ∷ cs) r o b = rw (o.0, until-append stops cs r o.1 b) refl

pub host-Describes :
    (idna : List ℕ → Option (List ℕ)) (stops : ℕ → Bool)
    → Describes (host idna stops) (Host idna stops)
unfolding host
host-Describes idna stops s r =
    let u = until_lem stops s in
    (
      λ e. elim (Bool-cases (is_valid_hostname idna (until stops s).0)) [
        | inl is ↦
            let same =
              some-injective (sym (ap (λ b. if b then some (until stops s).1 else none) is) ∙ e) in
            ((until stops s).0, rw (← same) u.0, u.1, rw (← same) u.2, is)
        | inr isnt ↦
            absurd (none-some (sym (ap (λ b. if b then some (until stops s).1 else none) isnt) ∙ e))
      ],
      λ (name, e, outside, begins, is). rw (e, until-append stops name r outside begins, is) refl,
    )

-- The digits of a port, up to the NUL, or up to a slash if there is a digit.
abbrev pub Digits : Bool → Part
Digits at_begin s r =
    (digits : List ℕ) × (s ≡ digits ++ r)
    × Outside (λ c. not (isdigit c)) digits
    × ((r ≡ []) ⊎ ((first r ≡ b'/') × ((at_begin ≡ false) ⊎ (digits ≢ []))))

digit-Digits :
    (at_begin : Bool) (c : ℕ) (s r : List ℕ)
    → isdigit c ≡ true
    → Digits false s r
    → Digits at_begin (c ∷ s) r
digit-Digits at_begin c s r is (digits, e, outside, ends) = (
  c ∷ digits,
  ap (λ l. c ∷ l) e,
  (rw is refl, outside),
  elim ends [ inl nul ↦ inl nul | inr (slash, _) ↦ inr (slash, inr (λ k. ground arith)) ],
)

both : (a b : Bool) → (a && b) ≡ true → (a ≡ true) × (b ≡ true)
both true b e = (refl, e)
both false b e = absurd (ground arith)

unnot : (a : Bool) → not a ≡ true → a ≡ false
unnot true e = absurd (ground arith)
unnot false e = refl

renot : (a : Bool) → not a ≡ false → a ≡ true
renot true e = refl
renot false e = absurd (ground arith)

digit_slash : (d : ℕ) → isdigit d ≡ true → d ≢ b'/'
unfolding isdigit
digit_slash d is e = ground arith

port_loop-Digits :
    (at_begin : Bool) (s r : List ℕ) → port_loop at_begin s ≡ some r → Digits at_begin s r
unfolding port_loop
port_loop-Digits at_begin [] r e = ([], some-injective e, tt, inl (sym (some-injective e)))
port_loop-Digits at_begin (c ∷ cs) r e =
    let step =
      λ (b d : Bool). if b then some (c ∷ cs) else if d then port_loop false cs else none in
    elim (Bool-cases (c == b'/' && not at_begin)) [
      | inl slash ↦
          let same = some-injective (sym (ap (λ b. step b (isdigit c)) slash) ∙ e) in
          (
            [],
            same,
            tt,
            inr (
              rw (← same) ((==_iff c b'/').0 (both _ _ slash).0),
              inl (unnot _ (both _ _ slash).1),
            ),
          )
      | inr other ↦
          let e1 = sym (ap (λ b. step b (isdigit c)) other) ∙ e in
          elim (Bool-cases (isdigit c)) [
            | inl is ↦
                digit-Digits at_begin c cs r is
                  (port_loop-Digits false cs r (sym (ap (step false) is) ∙ e1))
            | inr isnt ↦ absurd (none-some (sym (ap (step false) isnt) ∙ e1))
          ]
    ]

Digits-port_loop :
    (at_begin : Bool) (digits r : List ℕ)
    → Outside (λ c. not (isdigit c)) digits
    → ((r ≡ []) ⊎ ((first r ≡ b'/') × ((at_begin ≡ false) ⊎ (digits ≢ []))))
    → port_loop at_begin (digits ++ r) ≡ some r
unfolding port_loop
Digits-port_loop at_begin [] [] o ends = refl
Digits-port_loop at_begin [] (c ∷ cs) o (inl e) = absurd (ground arith)
Digits-port_loop at_begin [] (c ∷ cs) o (inr (slash, inl begun)) = rw (slash, begun) refl
Digits-port_loop at_begin [] (c ∷ cs) o (inr (slash, inr some_digit)) = absurd (some_digit refl)
Digits-port_loop at_begin (d ∷ ds) r o ends =
    let is : isdigit d ≡ true = renot (isdigit d) o.0 in
    rw (==_false d b'/' (digit_slash d is), is)
      (Digits-port_loop false ds r o.1
        (elim ends [ inl nul ↦ inl nul | inr (slash, _) ↦ inr (slash, inl refl) ]))

-- A port: a colon and its digits.
abbrev pub Port : Part
Port = Optional b':' (Behind (Digits true))

pub port-Describes : Describes port Port
unfolding port
port-Describes =
    optional-Describes b':' (λ s. port_loop true (drop 1 s)) (Behind (Digits true))
      (λ s r. (
        port_loop-Digits true (drop 1 s) r,
        λ (digits, e, o, ends). rw e (Digits-port_loop true digits r o ends),
      ))
