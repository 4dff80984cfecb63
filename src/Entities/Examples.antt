-- ===== src/Entities/Examples.antt =====
-- The functions of src/charconvert.c that write entities, and their theorems at an example.
use cforum_upto.Base.{ℕ, ◌≡◌, refl, true, some, List, [], ◌∷◌, ◌++◌, length}
use cforum_upto.Entities.{htmlentities, print_htmlentities_encoded}
use cforum_upto.Entities.Escape.{entity, escape, htmlentities_lem}
use cforum_upto.Entities.Print.{IsStream, AllPlain, print_htmlentities_encoded-escape}

abbrev markup : List ℕ
markup = b'a' ∷ b'<' ∷ b'\'' ∷ []

abbrev markup_escaped : List ℕ
markup_escaped = b'a' ∷ b'&' ∷ b'l' ∷ b't' ∷ b';' ∷ b'&' ∷ b'#' ∷ b'3' ∷ b'9' ∷ b';' ∷ []

htmlentities_lem_example : htmlentities 7 true markup ≡ some (markup_escaped ++ 0 ∷ [])
unfolding escape entity
htmlentities_lem_example = htmlentities_lem 7 true markup

-- A stream that keeps what it gets.
abbrev kept : List ℕ → List ℕ → ℕ × List ℕ
kept bytes file = (length bytes, file ++ bytes)

abbrev kept_byte : ℕ → List ℕ → List ℕ
kept_byte c file = file ++ c ∷ []

kept-IsStream : IsStream kept kept_byte (λ file. file)
kept-IsStream = record {
  count = λ bytes handle. refl;
  bytes_out = λ bytes handle. refl;
  byte_out = λ c handle. refl;
}

print_htmlentities_encoded-escape_example :
    (((print_htmlentities_encoded kept kept_byte true markup []).0 ≡ 10)
      × ((print_htmlentities_encoded kept kept_byte true markup []).1 ≡ markup_escaped))
    × AllPlain markup_escaped
unfolding escape entity
print_htmlentities_encoded-escape_example =
    print_htmlentities_encoded-escape kept-IsStream true markup []
