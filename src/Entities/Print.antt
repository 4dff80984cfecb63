-- ===== src/Entities/Print.antt =====
-- print_htmlentities_encoded of src/charconvert.c writes what htmlentities returns, and neither
-- lets a character through that could open or close a tag or an attribute.
use cforum_upto.Base.{
  ℕ, ◌+◌, ◌≡◌, ◌≢◌, refl, ◌∙◌, inl, inr, Bool, true, false, Bool-cases, List, [], ◌∷◌, ◌++◌,
  append_assoc, append-nil, ◌==◌, if◌then◌else◌, length, length-append, arith,
}
use cforum_upto.Entities.{gt, lt, amp, quot, apos, print, print_all, print_htmlentities_encoded}
use cforum_upto.Entities.Escape.{entity, escape, entity-pos}

-- A byte that ends neither a text nor an attribute value between double quotes.
abbrev pub IsPlain : ℕ → Type 0
IsPlain c = (c ≢ b'<') × (c ≢ b'>') × (c ≢ b'"')

abbrev pub AllPlain : List ℕ → Type 0
AllPlain [] = Unit
AllPlain (c ∷ cs) = IsPlain c × AllPlain cs

AllPlain-append : (xs ys : List ℕ) → AllPlain xs → AllPlain ys → AllPlain (xs ++ ys)
AllPlain-append [] ys h k = k
AllPlain-append (x ∷ xs) ys h k = (h.0, AllPlain-append xs ys h.1 k)

entity-AllPlain : (sq : Bool) (c : ℕ) → AllPlain (entity sq c)
unfolding entity
entity-AllPlain sq c = ground arith

pub escape-AllPlain : (sq : Bool) (cs : List ℕ) → AllPlain (escape sq cs)
unfolding escape
escape-AllPlain sq [] = tt
escape-AllPlain sq (c ∷ cs) = AllPlain-append _ _ (entity-AllPlain sq c) (escape-AllPlain sq cs)

-- What the stream does when nothing goes wrong: fwrite and fputc add the bytes to what has been
-- written, and fwrite returns their number.
pub record IsStream {ℓ} {File : Type ℓ} (fwrite : List ℕ → File → ℕ × File)
    (fputc : ℕ → File → File) (output : File → List ℕ) : Type ℓ where
  pub count : (bytes : List ℕ) (handle : File) → (fwrite bytes handle).0 ≡ length bytes
  pub bytes_out :
      (bytes : List ℕ) (handle : File) → output (fwrite bytes handle).1 ≡ output handle ++ bytes
  pub byte_out : (c : ℕ) (handle : File) → output (fputc c handle) ≡ output handle ++ c ∷ []

module _ {ℓ} {File : Type ℓ} {fwrite : List ℕ → File → ℕ × File} {fputc : ℕ → File → File}
    {output : File → List ℕ} (stream : IsStream fwrite fputc output) where
  -- The number returned, and what the stream has got.
  abbrev Prints : List ℕ → List ℕ → ℕ × File → Type 0
  Prints before bytes r = (r.0 ≡ length bytes) × (output r.1 ≡ before ++ bytes)

  writes : (bytes : List ℕ) (handle : File) → Prints (output handle) bytes (fwrite bytes handle)
  writes bytes handle = (stream.count bytes handle, stream.bytes_out bytes handle)

  print_apos :
      (is_apos sq : Bool) (c : ℕ) (handle : File)
      → Prints (output handle) (if is_apos then (if sq then apos else c ∷ []) else c ∷ []) (
          if is_apos
          then (if sq then fwrite apos handle else fwrite (c ∷ []) handle)
          else (1, fputc c handle))
  print_apos true true c handle = writes apos handle
  print_apos true false c handle = writes (c ∷ []) handle
  print_apos false sq c handle = (refl, stream.byte_out c handle)

  print-Prints :
      (sq : Bool) (c : ℕ) (handle : File)
      → Prints (output handle) (entity sq c) (print fwrite fputc sq c handle)
  unfolding print entity
  print-Prints sq c handle = elim (Bool-cases (c == 62)) [
    | inl e ↦ let is : c ≡ 62 = ground arith in rw is (writes gt handle)
    | inr e₁ ↦ elim (Bool-cases (c == 60)) [
      | inl e ↦ let is : c ≡ 60 = ground arith in rw is (writes lt handle)
      | inr e₂ ↦ elim (Bool-cases (c == 38)) [
        | inl e ↦ let is : c ≡ 38 = ground arith in rw is (writes amp handle)
        | inr e₃ ↦ elim (Bool-cases (c == 34)) [
          | inl e ↦ let is : c ≡ 34 = ground arith in rw is (writes quot handle)
          | inr e₄ ↦ rw (e₁, e₂, e₃, e₄) (print_apos (c == 39) sq c handle)
        ]
      ]
    ]
  ]

  print_all-Prints :
      (sq : Bool) (cs : List ℕ) (handle : File) (written : ℕ)
      → ((print_all fwrite fputc sq cs handle written).0 ≡ written + length (escape sq cs))
        × (output (print_all fwrite fputc sq cs handle written).1 ≡ output handle ++ escape sq cs)
  unfolding print_all escape
  print_all-Prints sq [] handle written = (omega arith, rw (append-nil (output handle)) refl)
  print_all-Prints sq (c ∷ cs) handle written =
      let step = print fwrite fputc sq c handle in
      let now = print-Prints sq c handle in
      let later = print_all-Prints sq cs step.1 (written + step.0) in
      let some_bytes : (step.0 == 0) ≡ false = ground (arith, now.0, entity-pos sq c) in
      rw some_bytes (
        omega (arith, later.0, now.0, length-append (entity sq c) (escape sq cs)),
        later.1 ∙ rw (now.1, append_assoc (output handle)) refl,
      )

  -- If the stream takes all bytes, print_htmlentities_encoded writes the string with its special
  -- characters replaced by their entities, as htmlentities does, and returns how many bytes it
  -- has written; none of them is `<`, `>` or `"`.
  pub print_htmlentities_encoded-escape :
      (sq : Bool) (s : List ℕ) (handle : File)
      → Prints (output handle) (escape sq s) (print_htmlentities_encoded fwrite fputc sq s handle)
        × AllPlain (escape sq s)
  unfolding print_htmlentities_encoded
  print_htmlentities_encoded-escape sq s handle =
      let all = print_all-Prints sq s handle 0 in
      ((omega (arith, all.0), all.1), escape-AllPlain sq s)
