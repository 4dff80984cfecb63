-- ===== src/Utf8/Examples.antt =====
-- The UTF-8 coder of src/charconvert.c at some texts, and its theorems at them.
use cforum_upto.Base.{ℕ, ◌≡◌, ◌≢◌, refl, true, List, [], ◌∷◌, arith}
use cforum_upto.Utf8.{utf8_to_unicode, unicode_to_utf8}
use cforum_upto.Utf8.RoundTrip.{utf8_to_unicode-unicode_to_utf8}
use cforum_upto.Utf8.Shortest.{unicode_to_utf8-utf8_to_unicode}
use cforum_upto.Utf8.Strings.{
  done, outside, is_valid_utf8_string, strlen_utf8, encode_all, is_valid_utf8_string-encode_all,
  strlen_utf8-minus_one, minus_one, Counts, IsCodes,
}
use cforum_upto.Utf8.Valid.{is_valid_utf8_string_sound}

-- The euro sign, and an overlong form of NUL.
euro : unicode_to_utf8 0x20ac 7 ≡ (3, 0xe2 ∷ 0x82 ∷ 0xac ∷ [])
unfolding unicode_to_utf8
euro = refl

overlong : utf8_to_unicode (0xe0 ∷ 0x80 ∷ 0x80 ∷ []) 3 7 ≡ (84, 7)
unfolding utf8_to_unicode
overlong = refl

abbrev word : List ℕ
word = b'a' ∷ 0x20ac ∷ 0x1f600 ∷ []

abbrev bytes : List ℕ
bytes = b'a' ∷ 0xe2 ∷ 0x82 ∷ 0xac ∷ 0xf0 ∷ 0x9f ∷ 0x98 ∷ 0x80 ∷ []

utf8_to_unicode-unicode_to_utf8_example :
    utf8_to_unicode (0xe2 ∷ 0x82 ∷ 0xac ∷ b'a' ∷ []) 4 0 ≡ (3, 0x20ac)
unfolding unicode_to_utf8
utf8_to_unicode-unicode_to_utf8_example =
    utf8_to_unicode-unicode_to_utf8 0x20ac 7 4 0 (b'a' ∷ []) (omega arith) (omega arith)
      (omega arith)

unicode_to_utf8-utf8_to_unicode_example : unicode_to_utf8 0x20ac 6 ≡ (3, 0xe2 ∷ 0x82 ∷ 0xac ∷ [])
unfolding utf8_to_unicode
unicode_to_utf8-utf8_to_unicode_example =
    unicode_to_utf8-utf8_to_unicode 0xe2 (0x82 ∷ 0xac ∷ b'a' ∷ []) 4 0 (omega arith) (omega arith)
      (omega arith)

is_valid_utf8_string-encode_all_example : is_valid_utf8_string bytes 8 ≡ done true
unfolding encode_all unicode_to_utf8
is_valid_utf8_string-encode_all_example =
    is_valid_utf8_string-encode_all word 8 (omega arith) (omega arith)

illegal_left : strlen_utf8 (0xff ∷ b'a' ∷ []) 2 ≡ outside
unfolding strlen_utf8 utf8_to_unicode
illegal_left = refl

strlen_utf8-minus_one_example :
    Counts 2 (strlen_utf8 (0xff ∷ b'a' ∷ []) 2)
    × (strlen_utf8 (0xff ∷ b'a' ∷ []) 2 ≢ done minus_one)
strlen_utf8-minus_one_example = strlen_utf8-minus_one (0xff ∷ b'a' ∷ []) 2 (omega arith)

is_valid_utf8_string_sound_example : (ns : List ℕ) × IsCodes ns × (bytes ≡ encode_all ns)
unfolding is_valid_utf8_string utf8_to_unicode
is_valid_utf8_string_sound_example = is_valid_utf8_string_sound bytes (omega arith) refl
