-- ===== src/Entities/Escape.antt =====
-- What htmlentities of src/charconvert.c returns.
use cforum_upto.Base.{
  ℕ, ◌+◌, ◌<◌, ◌≡◌, ◌≢◌, refl, ap, ◌∙◌, inl, inr, Bool, true, false, Bool-cases, Option, none, some,
  List, [], ◌∷◌, ◌++◌, append_assoc, append-nil, ◌==◌, if◌then◌else◌, length, length-append,
  length-take, arith,
}
use cforum_upto.Str.{
  Str, text, ◌>>=◌, cf_bufsiz, str_init, str_init_growth, char_append, chars_append,
}
use cforum_upto.Str.Block.{realloc, take_of_append}
use cforum_upto.Str.Append.{
  IsValid, Leaves, char_append-Leaves, chars_append-Leaves, str_init_growth-IsValid,
}
use cforum_upto.Str.Run.{Holds}
use cforum_upto.Entities.{gt, lt, amp, quot, apos, put, put_all, htmlentities}

-- The entity of a character that is special in HTML; `'` is special if `sq`.
unfoldable pub entity : Bool → ℕ → List ℕ
entity sq c =
    if c == b'"'
    then quot
    else if c == b'&'
    then amp
    else if c == b'\''
    then (if sq then apos else c ∷ [])
    else if c == b'<'
    then lt
    else if c == b'>'
    then gt
    else c ∷ []

unfoldable pub escape : Bool → List ℕ → List ℕ
escape sq [] = []
escape sq (c ∷ cs) = entity sq c ++ escape sq cs

-- The returned block for the text `xs`.
abbrev pub ended : ℕ → List ℕ → List ℕ
ended junk [] = junk ∷ []
ended junk (x ∷ xs) = (x ∷ xs) ++ 0 ∷ []

ended-pos : (junk : ℕ) (xs : List ℕ) → 0 < length xs → xs ++ 0 ∷ [] ≡ ended junk xs
ended-pos junk [] h = absurd (omega arith)
ended-pos junk (x ∷ xs) h = refl

pub entity-pos : (sq : Bool) (c : ℕ) → 0 < length (entity sq c)
unfolding entity
entity-pos sq c = ground arith

module _ (junk : ℕ) where
  put_apos :
      (is_apos sq : Bool) (c : ℕ) (s : Str)
      → IsValid s
      → Leaves
          (length (if is_apos then (if sq then apos else c ∷ []) else c ∷ []))
          (text s ++ (if is_apos then (if sq then apos else c ∷ []) else c ∷ []))
          (if is_apos
            then (if sq then chars_append junk s apos else char_append junk s c)
            else char_append junk s c)
  put_apos true true c s v = chars_append-Leaves junk s apos v
  put_apos true false c s v = char_append-Leaves junk s c v
  put_apos false sq c s v = char_append-Leaves junk s c v

  put-Leaves :
      (sq : Bool) (c : ℕ) (s : Str)
      → IsValid s
      → Leaves (length (entity sq c)) (text s ++ entity sq c) (put junk sq c s)
  unfolding put entity
  put-Leaves sq c s v = elim (Bool-cases (c == 62)) [
    | inl e ↦ let is : c ≡ 62 = ground arith in rw is (chars_append-Leaves junk s gt v)
    | inr e₁ ↦ elim (Bool-cases (c == 60)) [
      | inl e ↦ let is : c ≡ 60 = ground arith in rw is (chars_append-Leaves junk s lt v)
      | inr e₂ ↦ elim (Bool-cases (c == 38)) [
        | inl e ↦ let is : c ≡ 38 = ground arith in rw is (chars_append-Leaves junk s amp v)
        | inr e₃ ↦ elim (Bool-cases (c == 34)) [
          | inl e ↦ let is : c ≡ 34 = ground arith in rw is (chars_append-Leaves junk s quot v)
          | inr e₄ ↦ rw (e₁, e₂, e₃, e₄) (put_apos (c == 39) sq c s v)
        ]
      ]
    ]
  ]

  then-Escaped :
      (sq : Bool) (cs : List ℕ) (n : ℕ) (xs : List ℕ) (o : Option (ℕ × Str))
      → Leaves n xs o
      → ((t : Str) → IsValid t → Holds (text t ++ escape sq cs) (put_all junk sq cs t))
      → Holds (xs ++ escape sq cs) (o >>= λ (_, t). put_all junk sq cs t)
  then-Escaped sq cs n xs none h next = h
  then-Escaped sq cs n xs (some (r, t)) h next = rw (← h.2) (next t h.0)

  put_all-Holds :
      (sq : Bool) (cs : List ℕ) (s : Str)
      → IsValid s
      → Holds (text s ++ escape sq cs) (put_all junk sq cs s)
  unfolding put_all escape
  put_all-Holds sq [] s v = (v, rw (append-nil (text s)) refl)
  put_all-Holds sq (c ∷ cs) s v =
      rw (← append_assoc (text s))
        (then-Escaped sq cs _ _ _ (put-Leaves sq c s v) (put_all-Holds sq cs))

  -- The block cut to the text and its NUL.
  cut : (s : Str) → IsValid s → s.len ≢ 0 → realloc junk s.content (s.len + 1) ≡ text s ++ 0 ∷ []
  unfolding realloc
  cut s v ne = elim v.state [
    | inl (r, l) ↦ absurd (ne l)
    | inr (l, e) ↦ let b = v.block in take_of_append (s.len + 1) s.content _ (omega arith) ∙ e
  ]

  finish :
      (xs : List ℕ) (o : Option Str)
      → 0 < length xs
      → Holds xs o
      → (o >>= λ s. some (realloc junk s.content (s.len + 1))) ≡ some (xs ++ 0 ∷ [])
  finish xs none pos h = absurd h
  finish xs (some s) pos (v, e) = ap some (
      cut s v (λ z. let n = length-take s.len s.content in let m = ap length e in omega arith)
      ∙ ap (λ (l : List ℕ). l ++ 0 ∷ []) e)

  -- htmlentities stays inside its blocks. It returns the block of the string with its special
  -- characters replaced by their entities, and a NUL; but for the empty string the block is one
  -- byte that is not set.
  pub htmlentities_lem :
      (sq : Bool) (s : List ℕ) → htmlentities junk sq s ≡ some (ended junk (escape sq s))
  unfolding htmlentities put_all escape str_init str_init_growth realloc
  htmlentities_lem sq [] = refl
  htmlentities_lem sq (c ∷ cs) =
      let pos : 0 < length (escape sq (c ∷ cs)) =
        omega (arith, length-append (entity sq c) (escape sq cs), entity-pos sq c) in
      finish (escape sq (c ∷ cs)) (put_all junk sq (c ∷ cs) str_init) pos
        (put_all-Holds sq (c ∷ cs) str_init (str_init_growth-IsValid cf_bufsiz (omega arith)).0)
      ∙ ap some (ended-pos junk (escape sq (c ∷ cs)) pos)
