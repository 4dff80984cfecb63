-- ===== src/Validate/Grammar.antt =====
-- What the loops of src/validate.c accept, as relations between a suffix of the link and what is
-- left of it behind a part.
use cforum_upto.Base.{
  ℕ, zero, suc, ◌≡◌, ◌≢◌, refl, sym, ap, ◌∙◌, ◌⊎◌, inl, inr, ◌↔◌, Bool, true, false, Bool-cases,
  Option, none, some, List, [], ◌∷◌, ◌++◌, ◌==◌, ==_iff, ==_false, if◌then◌else◌, drop, arith,
}
use cforum_upto.Str.{◌>>=◌}
use cforum_upto.Str.Equal.{first}
use cforum_upto.Validate.{valid, isxdigit, optional, Turn, go, stop, bad, turn, scan}

-- A part of a link: the suffix it begins and the suffix behind it.
abbrev pub Part : Type 1
Part = List ℕ → List ℕ → Type 0

abbrev pub Describes : (List ℕ → Option (List ℕ)) → Part → Type 0
Describes p G = (s r : List ℕ) → (p s ≡ some r) ↔ G s r

infixr 4 ◌then◌
abbrev pub ◌then◌ : Part → Part → Part
G then H = λ s r. (m : List ℕ) × (G s m × H m r)

pub some-injective : {a b : List ℕ} → some a ≡ some b → a ≡ b
some-injective e = ground arith

pub none-some : {a : List ℕ} → none ≡ some a → ⊥
none-some e = ground arith

pub bind_lem :
    (o : Option (List ℕ)) (q : List ℕ → Option (List ℕ)) (r : List ℕ)
    → ((o >>= q) ≡ some r) ↔ ((m : List ℕ) × (o ≡ some m) × (q m ≡ some r))
bind_lem none q r = (λ e. absurd (none-some e), λ (m, k, e). absurd (none-some k))
bind_lem (some m) q r = (λ e. (m, refl, e), λ (n, k, e). rw (some-injective k) e)

-- The code returns 0 if it comes to its end.
pub valid_iff : (o : Option (List ℕ)) → (valid o ≡ true) ↔ ((r : List ℕ) × (o ≡ some r))
valid_iff none = (λ e. absurd (ground arith), λ (r, e). absurd (none-some e))
valid_iff (some r) = (λ e. (r, refl), λ k. refl)

pub then-Describes :
    (p q : List ℕ → Option (List ℕ)) (G H : Part)
    → Describes p G
    → Describes q H
    → Describes (λ s. p s >>= q) (G then H)
then-Describes p q G H d h s r = (
  λ e. let (m, k, l) = (bind_lem (p s) q r).0 e in (m, ((d s m).0 k, (h m r).0 l)),
  λ (m, (g, k)). rw ((d s m).1 g) ((h m r).1 k),
)

-- The part is there if the suffix begins with the byte.
abbrev pub Optional : ℕ → Part → Part
Optional c G s r = ((first s ≡ c) × G s r) ⊎ ((first s ≢ c) × (s ≡ r))

pub optional-Describes :
    (c : ℕ) (p : List ℕ → Option (List ℕ)) (G : Part)
    → Describes p G
    → Describes (optional c p) (Optional c G)
optional-Describes c p G d s r = (
  λ e. elim (Bool-cases (first s == c)) [
    | inl is ↦
        inl
          ((==_iff (first s) c).0 is, (d s r).0 (sym (ap (λ b. if b then p s else some s) is) ∙ e))
    | inr isnt ↦
        inr (λ k. ground arith, some-injective (sym (ap (λ b. if b then p s else some s) isnt) ∙ e))
  ],
  λ o. elim o [
    | inl (is, g) ↦ rw ((==_iff (first s) c).1 is) ((d s r).1 g)
    | inr (isnt, e) ↦ rw (==_false (first s) c isnt, e) refl
  ],
)

-- The part stands behind the first byte.
abbrev pub Behind : Part → Part
Behind G s r = G (drop 1 s) r

-- Text that a loop passes: bytes it goes on at, and escapes.
pub data Escaped (f : ℕ → Turn) : List ℕ → Type 0 where
  nothing : Escaped f []
  plain : (c : ℕ) (cs : List ℕ) → c ≢ b'%' → f c ≡ go → Escaped f cs → Escaped f (c ∷ cs)
  escape :
      (x y : ℕ) (cs : List ℕ)
      → isxdigit x ≡ true
      → isxdigit y ≡ true
      → Escaped f cs
      → Escaped f (b'%' ∷ x ∷ y ∷ cs)

-- The loop is at the NUL or at a byte it stops at.
abbrev pub Stops : (ℕ → Turn) → List ℕ → Type 0
Stops f [] = Unit
Stops f (c ∷ cs) = (c ≢ b'%') × (f c ≡ stop)

abbrev pub Text : (ℕ → Turn) → Part
Text f s r = (part : List ℕ) × (s ≡ part ++ r) × Escaped f part × Stops f r

-- Text behind the digits that an escape still needs.
abbrev Pending : (ℕ → Turn) → ℕ → Part
Pending f zero s r = Text f s r
Pending f (suc k) s r = (x : ℕ) × (t : List ℕ) × (s ≡ x ∷ t) × (isxdigit x ≡ true) × Pending f k t r

-- From two digits still to come to the text with its escape.
escape-Text : (f : ℕ → Turn) (c : ℕ) (s r : List ℕ) → c ≡ b'%' → Pending f 2 s r → Text f (c ∷ s) r
escape-Text f c s r is (x, t, e1, hx, (y, u, e2, hy, (part, e3, text, end))) =
    (b'%' ∷ x ∷ y ∷ part, rw (is, e1, e2, e3) refl, escape x y part hx hy text, end)

plain-Text :
    (f : ℕ → Turn) (c : ℕ) (s r : List ℕ) → c ≢ b'%' → f c ≡ go → Text f s r → Text f (c ∷ s) r
plain-Text f c s r isnt goes (part, e, text, end) =
    (c ∷ part, ap (λ l. c ∷ l) e, plain c part isnt goes text, end)

Turn-cases : (t : Turn) → (t ≡ go) ⊎ ((t ≡ stop) ⊎ (t ≡ bad))
Turn-cases go = inl refl
Turn-cases stop = inr (inl refl)
Turn-cases bad = inr (inr refl)

scan-Pending : (f : ℕ → Turn) (k : ℕ) (s r : List ℕ) → scan f k s ≡ some r → Pending f k s r
unfolding scan
scan-Pending f zero [] r e = ([], some-injective e, nothing, rw (← some-injective e) tt)
scan-Pending f (suc k) [] r e = absurd (none-some e)
scan-Pending f zero (c ∷ cs) r e =
    let at_byte = λ (b : Bool) (t : Turn).
      let on = scan f (if b then 2 else 0) cs in if b then on else turn t on (c ∷ cs) in
    elim (Bool-cases (c == b'%')) [
      | inl is ↦
          escape-Text f c cs r ((==_iff c b'%').0 is)
            (scan-Pending f 2 cs r (sym (ap (λ b. at_byte b (f c)) is) ∙ e))
      | inr isnt ↦
          let differs : c ≢ b'%' = λ k. ground arith in
          let e1 = sym (ap (λ b. at_byte b (f c)) isnt) ∙ e in
          elim (Turn-cases (f c)) [
            | inl goes ↦
                plain-Text f c cs r differs goes
                  (scan-Pending f 0 cs r (sym (ap (at_byte false) goes) ∙ e1))
            | inr (inl stops) ↦
                let e2 = some-injective (sym (ap (at_byte false) stops) ∙ e1) in
                ([], e2, nothing, rw (← e2) (differs, stops))
            | inr (inr refuses) ↦ absurd (none-some (sym (ap (at_byte false) refuses) ∙ e1))
          ]
    ]
scan-Pending f (suc k) (c ∷ cs) r e = elim (Bool-cases (isxdigit c)) [
  | inl is ↦ (
    c,
    cs,
    refl,
    is,
    scan-Pending f k cs r (sym (ap (λ b. if b then scan f k cs else none) is) ∙ e),
  )
  | inr isnt ↦ absurd (none-some (sym (ap (λ b. if b then scan f k cs else none) isnt) ∙ e))
]

scan-Escaped :
    (f : ℕ → Turn) (part r : List ℕ) → Escaped f part → Stops f r → scan f 0 (part ++ r) ≡ some r
unfolding scan
scan-Escaped f [] [] nothing end = refl
scan-Escaped f [] (c ∷ cs) nothing (differs, stops) = rw (==_false c b'%' differs, stops) refl
scan-Escaped f (_ ∷ _) r (plain c cs differs goes text) end =
    rw (==_false c b'%' differs, goes) (scan-Escaped f cs r text end)
scan-Escaped f (_ ∷ _ ∷ _ ∷ _) r (escape x y cs hx hy text) end =
    rw (hx, hy) (scan-Escaped f cs r text end)

pub scan-Describes : (f : ℕ → Turn) → Describes (scan f 0) (Text f)
scan-Describes f s r =
    (scan-Pending f 0 s r, λ (part, e, text, end). rw e (scan-Escaped f part r text end))

pub valid_bind :
    (o : Option (List ℕ)) (q : List ℕ → Option (List ℕ))
    → (valid (o >>= q) ≡ true) ↔ ((m : List ℕ) × (o ≡ some m) × (valid (q m) ≡ true))
valid_bind none q = (λ e. absurd (ground arith), λ (m, k, e). absurd (none-some k))
valid_bind (some m) q = (λ e. (m, refl, e), λ (n, k, e). rw (some-injective k) e)
