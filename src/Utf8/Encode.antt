-- ===== src/Utf8/Encode.antt =====
-- The bytes that unicode_to_utf8 of src/charconvert.c writes.
use mathlib.Core.Path.{ap₂}
use cforum_upto.Base.{ℕ, ◌+◌, ◌/◌, ◌%◌, ◌^◌, ◌<◌, ◌≡◌, refl, ◌∙◌, List, ◌∷◌, arith}
use cforum_upto.Utf8.{encode2, encode3, encode4, encode5, encode6}
use cforum_upto.Utf8.Arith.{low_lem, up_lem}

-- A byte that is not the first.
abbrev pub tail : ℕ → ℕ
tail num = 128 + num % 64

pub encode2_lem :
    (num : ℕ) (rest : List ℕ) → num < 2 ^ 12 → encode2 num rest ≡ (192 + num / 64) ∷ tail num ∷ rest
unfolding encode2
encode2_lem num rest h = rw (up_lem 6 3 num h, low_lem num) (ap₂ ◌∷◌ (omega arith) refl)

pub encode3_lem :
    (num : ℕ) (rest : List ℕ)
    → num < 2 ^ 17
    → encode3 num rest ≡ (224 + num / 64 / 64) ∷ tail (num / 64) ∷ tail num ∷ rest
unfolding encode3
encode3_lem num rest h =
    rw (up_lem 11 1 num h, low_lem num)
      (encode2_lem (2048 + num / 64) (tail num ∷ rest) (omega arith)
        ∙ ap₂ ◌∷◌ (omega arith) (ap₂ ◌∷◌ (omega arith) refl))

pub encode4_lem :
    (num : ℕ) (rest : List ℕ)
    → num < 2 ^ 22
    → encode4 num rest
      ≡ (240 + num / 64 / 64 / 64) ∷ tail (num / 64 / 64) ∷ tail (num / 64) ∷ tail num ∷ rest
unfolding encode4
encode4_lem num rest h =
    rw (up_lem 16 1 num h, low_lem num)
      (encode3_lem (65536 + num / 64) (tail num ∷ rest) (omega arith)
        ∙ ap₂ ◌∷◌ (omega arith) (ap₂ ◌∷◌ (omega arith) (ap₂ ◌∷◌ (omega arith) refl)))

pub encode5_lem :
    (num : ℕ) (rest : List ℕ)
    → num < 2 ^ 27
    → encode5 num rest
      ≡ (248 + num / 64 / 64 / 64 / 64)
        ∷ tail (num / 64 / 64 / 64)
        ∷ tail (num / 64 / 64)
        ∷ tail (num / 64)
        ∷ tail num
        ∷ rest
unfolding encode5
encode5_lem num rest h =
    rw (up_lem 21 1 num h, low_lem num)
      (encode4_lem (2097152 + num / 64) (tail num ∷ rest) (omega arith)
        ∙ ap₂ ◌∷◌ (omega arith)
            (ap₂ ◌∷◌ (omega arith) (ap₂ ◌∷◌ (omega arith) (ap₂ ◌∷◌ (omega arith) refl))))

pub encode6_lem :
    (num : ℕ) (rest : List ℕ)
    → num < 2 ^ 32
    → encode6 num rest
      ≡ (252 + num / 64 / 64 / 64 / 64 / 64)
        ∷ tail (num / 64 / 64 / 64 / 64)
        ∷ tail (num / 64 / 64 / 64)
        ∷ tail (num / 64 / 64)
        ∷ tail (num / 64)
        ∷ tail num
        ∷ rest
unfolding encode6
encode6_lem num rest h =
    rw (up_lem 26 1 num h, low_lem num)
      (encode5_lem (67108864 + num / 64) (tail num ∷ rest) (omega arith)
        ∙ ap₂ ◌∷◌ (omega arith) (
            ap₂ ◌∷◌ (omega arith)
              (ap₂ ◌∷◌ (omega arith) (ap₂ ◌∷◌ (omega arith) (ap₂ ◌∷◌ (omega arith) refl)))))
