-- ===== src/Url/Examples.antt =====
-- Runs of the two functions of src/cfcgi.c.
use cforum_upto.Base.{ℕ, ◌≤◌, ◌≡◌, refl, ◌↔◌, none, some, List, [], ◌∷◌, length, arith}
use cforum_upto.Url.{url_decode, url_encode}
use cforum_upto.Url.RoundTrip.{Complete, url_decode-url_encode, url_decode_iff}

-- A blank, a plus sign, a percent sign, a letter and a byte of an umlaut.
abbrev sample : List ℕ
sample = b' ' ∷ b'+' ∷ b'%' ∷ b'a' ∷ 0xC3 ∷ []

sample_encoded :
    url_encode sample
    ≡ b'+' ∷ b'%' ∷ b'2' ∷ b'B' ∷ b'%' ∷ b'2' ∷ b'5' ∷ b'a' ∷ b'%' ∷ b'C' ∷ b'3' ∷ []
unfolding url_encode
sample_encoded = refl

url_decode-url_encode_example : url_decode (url_encode sample) ≡ some sample
url_decode-url_encode_example = url_decode-url_encode sample (omega arith)

abbrev cut_off : List ℕ
cut_off = b'a' ∷ b'%' ∷ b'4' ∷ []

cut_off_read : url_decode cut_off ≡ none
unfolding url_decode
cut_off_read = refl

url_decode_iff_example :
    Complete cut_off ↔ ((r : List ℕ) × (url_decode cut_off ≡ some r) × (length r ≤ length cut_off))
url_decode_iff_example = url_decode_iff cut_off
