-- ===== src/Number/Examples.antt =====
-- A number written to a string of src/stringutils.c by src/datautils.c.
use cforum_upto.Base.{ℕ, ◌≡◌, refl, inl, List, ◌++◌, [], arith}
use cforum_upto.Str.{Str, text}
use cforum_upto.Str.Append.{IsValid}
use cforum_upto.Number.{str_to_uint64, uint_to_str}
use cforum_upto.Number.RoundTrip.{Writes, str_to_uint64-uint_to_str}

abbrev start : Str
start = record { len = 0; reserved = 0; growth = 4; content = [] }

start-IsValid : IsValid start
start-IsValid = record { block = refl; growth = omega arith; state = inl (refl, refl) }

str_to_uint64-uint_to_str_example :
    (ds : List ℕ) × Writes (text start ++ ds) (uint_to_str 7 start 120795)
    × (str_to_uint64 ds ≡ 120795)
str_to_uint64-uint_to_str_example =
    str_to_uint64-uint_to_str 7 start 120795 start-IsValid (omega arith)
