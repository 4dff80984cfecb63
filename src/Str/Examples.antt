-- ===== src/Str/Examples.antt =====
-- Runs of the strings of src/stringutils.c, and their theorems at them.
use cforum_upto.Base.{ℕ, ◌≡◌, ◌↔◌, refl, none, some, List, [], ◌∷◌, arith}
use cforum_upto.Str.Split.{split_parts, split_string, nsplit_string, join, Parts, Splits}
use cforum_upto.Str.Split.Unique.{split_string_iff, nsplit_string_iff}
use cforum_upto.Str.{Str, str_init_growth}
use cforum_upto.Str.Append.{IsValid, str_init_growth-IsValid}
use cforum_upto.Str.Run.{Call, byte, bytes, cstring, replace, run, meanings, Holds, run-Holds}

abbrev fresh : Str
fresh = record { len = 0; reserved = 0; growth = 4; content = [] }

fresh-IsValid : IsValid fresh
unfolding str_init_growth
fresh-IsValid = (str_init_growth-IsValid 4 (omega arith)).0

abbrev calls : List Call
calls =
    byte b'a'
    ∷ bytes (b'b' ∷ b'c' ∷ b'd' ∷ b'e' ∷ [])
    ∷ replace (b'x' ∷ [])
    ∷ cstring (b'y' ∷ 0 ∷ b'z' ∷ [])
    ∷ []

abbrev full : Str
full = record { len = 2; reserved = 4; growth = 4; content = b'h' ∷ b'i' ∷ 0 ∷ 7 ∷ [] }

abbrev other : Str
other = record { len = 2; reserved = 3; growth = 8; content = b'h' ∷ b'i' ∷ 0 ∷ [] }

run-Holds_example : Holds (b'x' ∷ b'y' ∷ []) (run 7 calls fresh)
unfolding meanings
run-Holds_example = run-Holds 7 calls fresh fresh-IsValid (omega arith)

-- `a,,b` at the comma.
abbrev commas : List ℕ
commas = b'a' ∷ b',' ∷ b',' ∷ b'b' ∷ []

abbrev two_parts : List (List ℕ)
two_parts = (b',' ∷ b'b' ∷ []) ∷ []

three_parts : split_string commas (b',' ∷ []) ≡ some ((b'a' ∷ []) ∷ [] ∷ (b'b' ∷ []) ∷ [])
unfolding split_parts
three_parts = refl

-- With `max` 1 there are two parts, and the last of three is lost.
last_lost : nsplit_string commas (b',' ∷ []) 1 ≡ some ((b'a' ∷ []) ∷ [] ∷ [])
unfolding split_parts
last_lost = refl

-- `aaa` at `aa`: the second place is inside of the first separator.
overlap :
    split_string (b'a' ∷ b'a' ∷ b'a' ∷ []) (b'a' ∷ b'a' ∷ []) ≡ some ([] ∷ (b'a' ∷ []) ∷ [] ∷ [])
unfolding split_parts
overlap = refl

split_string_iff_example :
    Splits b',' none 0 commas (split_string commas (b',' ∷ []))
    × ((split_string commas (b',' ∷ []) ≡ some ((b'a' ∷ []) ∷ two_parts))
        ↔ ((join b',' (b'a' ∷ []) two_parts ≡ commas) × Parts none b',' 1 (b'a' ∷ []) two_parts))
split_string_iff_example = split_string_iff b',' commas (b'a' ∷ []) two_parts

nsplit_string_iff_example :
    Splits b',' (some 2) 0 commas (nsplit_string commas (b',' ∷ []) 2)
    × ((nsplit_string commas (b',' ∷ []) 2 ≡ some ((b'a' ∷ []) ∷ two_parts)) ↔ (
        (join b',' (b'a' ∷ []) two_parts ≡ commas) × Parts (some 2) b',' 1 (b'a' ∷ []) two_parts))
nsplit_string_iff_example = nsplit_string_iff b',' commas 2 (b'a' ∷ []) two_parts (omega arith)
