-- ===== src/Utf8/Valid.antt =====
-- What is_valid_utf8_string of src/charconvert.c accepts is a text.
use cforum_upto.Base.{
  ℕ, zero, suc, ◌-◌, ◌≤◌, ◌<◌, ◌≡◌, ◌≢◌, refl, sym, ◌∙◌, true, List, [], ◌∷◌, length, take, drop,
  length-drop, take-append-drop, arith,
}
use cforum_upto.Utf8.{eilseq, utf8_to_unicode, unicode_to_utf8}
use cforum_upto.Utf8.Shortest.{IsBytes, unicode_to_utf8-utf8_to_unicode}
use cforum_upto.Utf8.Strings.{done, valid_loop, is_valid_utf8_string, encode_all, IsCodes}

-- The bytes of a C string.
abbrev pub IsText : List ℕ → Type 0
IsText [] = Unit
IsText (x ∷ xs) = (0 < x) × (x < 256) × IsText xs

IsBytes-of_IsText : (s : List ℕ) → IsText s → IsBytes s
IsBytes-of_IsText [] h = tt
IsBytes-of_IsText (x ∷ xs) h = (h.1, IsBytes-of_IsText xs h.2)

IsText-drop : (n : ℕ) (s : List ℕ) → IsText s → IsText (drop n s)
IsText-drop zero s h = h
IsText-drop (suc n) [] h = tt
IsText-drop (suc n) (x ∷ xs) h = IsText-drop n xs h.2

count_range :
    (s : List ℕ) (m old : ℕ)
    → (utf8_to_unicode s m old).0 ≢ eilseq
    → (1 ≤ (utf8_to_unicode s m old).0) × ((utf8_to_unicode s m old).0 ≤ 6)
unfolding utf8_to_unicode
count_range s m old ne = ground arith

-- The number of an accepted sequence: not 0, since no byte is NUL, and at most 31 bits.
code_pos :
    (num k c : ℕ) (s : List ℕ)
    → unicode_to_utf8 num 6 ≡ (k, take k (c ∷ s))
    → 1 ≤ k
    → 0 < c
    → 0 < num
unfolding unicode_to_utf8
code_pos num zero c s e p h = absurd (omega arith)
code_pos zero (suc k) c s e p h = ground arith
code_pos (suc num) (suc k) c s e p h = omega arith

code_lt : (num k : ℕ) (s : List ℕ) → unicode_to_utf8 num 6 ≡ (k, s) → k ≤ 6 → num < 0x80000000
unfolding unicode_to_utf8
code_lt num k s e h = ground arith

abbrev IsDecoded : List ℕ → Type 0
IsDecoded s = (ns : List ℕ) × IsCodes ns × (s ≡ encode_all ns)

-- What a round of the loop that leads to acceptance has found.
valid_round :
    (fuel c : ℕ) (s : List ℕ) (m : ℕ)
    → valid_loop (suc fuel) (c ∷ s) (suc m) ≡ done true
    → 0 < c
    → ((utf8_to_unicode (c ∷ s) (suc m) 0).0 ≢ eilseq)
      × ((utf8_to_unicode (c ∷ s) (suc m) 0).0 ≤ length (c ∷ s))
      × (valid_loop fuel
            (drop (utf8_to_unicode (c ∷ s) (suc m) 0).0 (c ∷ s))
            (suc m - (utf8_to_unicode (c ∷ s) (suc m) 0).0)
          ≡ done true)
unfolding valid_loop
valid_round fuel c s m e h = ground arith

-- One accepted sequence in front of a text.
IsDecoded-cons :
    (c : ℕ) (s : List ℕ)
    → IsText (c ∷ s)
    → (utf8_to_unicode (c ∷ s) (suc (length s)) 0).0 ≢ eilseq
    → IsDecoded (drop (utf8_to_unicode (c ∷ s) (suc (length s)) 0).0 (c ∷ s))
    → IsDecoded (c ∷ s)
unfolding encode_all
IsDecoded-cons c s t ne (ns, codes, e) =
    let r = utf8_to_unicode (c ∷ s) (suc (length s)) 0 in
    let range = count_range (c ∷ s) (suc (length s)) 0 ne in
    let back =
      unicode_to_utf8-utf8_to_unicode c s (suc (length s)) 0 (IsBytes-of_IsText s t.2) (omega arith)
        ne in
    (
      r.1 ∷ ns,
      (code_pos r.1 r.0 c s back range.0 t.0, code_lt r.1 r.0 _ back range.1, codes),
      sym (take-append-drop r.0 (c ∷ s)) ∙ rw (← e, back) refl,
    )

valid_loop_sound :
    (fuel : ℕ) (s : List ℕ) → IsText s → valid_loop fuel s (length s) ≡ done true → IsDecoded s
unfolding valid_loop encode_all
valid_loop_sound zero s t e = cc
valid_loop_sound (suc fuel) [] t e = ([], tt, refl)
valid_loop_sound (suc fuel) (c ∷ s) t e =
    let round = valid_round fuel c s (length s) e t.0 in
    let k = (utf8_to_unicode (c ∷ s) (suc (length s)) 0).0 in
    IsDecoded-cons c s t round.0 (
      valid_loop_sound fuel (drop k (c ∷ s)) (IsText-drop k (c ∷ s) t)
        (rw (length-drop k (c ∷ s)) (round.2)))

-- A C string that is_valid_utf8_string accepts under its own length is what unicode_to_utf8
-- writes for some sequence of code points from 1 to 31 bits.
pub is_valid_utf8_string_sound :
    (s : List ℕ)
    → IsText s
    → is_valid_utf8_string s (length s) ≡ done true
    → (ns : List ℕ) × IsCodes ns × (s ≡ encode_all ns)
unfolding is_valid_utf8_string
is_valid_utf8_string_sound s t e = valid_loop_sound (suc (length s)) s t e
