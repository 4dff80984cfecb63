-- ===== src/Hash/Examples.antt =====
-- Runs of the hash table of src/hashlib.c, with the sum of the bytes as the hash function.
use cforum_upto.Base.{arith, ℕ, ◌+◌, ◌≡◌, refl, none, some, List, [], ◌∷◌}
use cforum_upto.Hash.{cf_hashsize, Table, new, set, set_static, get, entry_delete}
use cforum_upto.Hash.Operations.{IsValid}
use cforum_upto.Hash.Run.{
  Call, setting, setting_static, deleting, run, replay, Holds, new-Holds, run-Reads,
  elements-entry_delete-set,
}

abbrev byte_sum : List ℕ → ℕ
byte_sum [] = 0
byte_sum (x ∷ xs) = x + byte_sum xs

abbrev key_ab : List ℕ
key_ab = b'a' ∷ b'b' ∷ []

-- It collides with the other.
abbrev key_ba : List ℕ
key_ba = b'b' ∷ b'a' ∷ []

abbrev empty : Table ℕ
empty = new

empty-IsValid : IsValid byte_sum empty
empty-IsValid = (new-Holds byte_sum 0).valid

-- A table of one bucket that is full, and doubled when a second key is set.
abbrev tiny : Table ℕ
tiny = record {
  tablesize = 0;
  elements = 1;
  keys = key_ab ∷ [];
  buckets = λ i. record { key = key_ab; hashval = byte_sum key_ab; stat = 1; value = 5 } ∷ [];
  destroyed = [];
}

doubled : (set byte_sum tiny (b'b' ∷ []) 6 1 0).tablesize ≡ 1
unfolding set cf_hashsize
doubled = refl

doubled_reads : get byte_sum (set byte_sum tiny (b'b' ∷ []) 6 1 0) key_ab ≡ some 5
unfolding set get cf_hashsize
doubled_reads = refl

abbrev calls : List (Call ℕ)
calls = setting key_ab 1 4 ∷ setting key_ba 2 4 ∷ setting_static key_ab 3 ∷ deleting key_ba ∷ []

run-Reads_example : Holds byte_sum 0 (replay calls (λ q. none)) (run byte_sum 0 calls empty)
unfolding set set_static entry_delete new cf_hashsize
run-Reads_example =
    run-Reads byte_sum 0 calls empty (λ q. none) (new-Holds byte_sum 0) (omega arith)

elements-entry_delete-set_example :
    (entry_delete byte_sum (set byte_sum empty key_ab 3 1 0) key_ab).1.elements ≡ 4294967295
unfolding new
elements-entry_delete-set_example = elements-entry_delete-set byte_sum 0 empty key_ab 3 1 refl
