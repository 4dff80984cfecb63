-- ===== src/Memory/Examples.antt =====
-- A pool of src/memoryutils.c and an array of src/arrayutils.c.
use cforum_upto.Base.{◌≡◌, refl, false, some, List, [], ◌∷◌, arith}
use cforum_upto.Memory.Pool.{Pool, mem_init_growth, HasBytes}
use cforum_upto.Memory.Pool
use cforum_upto.Memory.Array.{Array, array_init}
use cforum_upto.Memory.Array.Elements.{HasElements}
use cforum_upto.Memory.Array.Run

abbrev pool : Pool
pool = mem_init_growth 2

pool-HasBytes : HasBytes pool []
pool-HasBytes = record { rest = []; content = refl; size = refl; len = refl }

abbrev pool_calls : List Pool.Call
pool_calls = Pool.appending (1 ∷ 2 ∷ 3 ∷ []) ∷ Pool.appending (4 ∷ []) ∷ []

run-HasBytes_example :
    (after : Pool) × (Pool.run 9 pool_calls pool ≡ some after) × HasBytes after (1 ∷ 2 ∷ 3 ∷ 4 ∷ [])
run-HasBytes_example = Pool.run-HasBytes 9 pool_calls pool [] pool-HasBytes

-- An array of elements of two bytes.
abbrev empty : Array
empty = array_init 2 false

empty-HasElements : HasElements empty []
empty-HasElements = record {
  rest = [];
  array = refl;
  size = refl;
  counted = refl;
  bounded = omega arith;
  sized = tt;
}

abbrev array_calls : List Run.Call
array_calls =
    Run.pushing (1 ∷ 2 ∷ [])
    ∷ Run.unshifting (3 ∷ 4 ∷ [])
    ∷ Run.pushing (5 ∷ 6 ∷ [])
    ∷ Run.popping
    ∷ []

run-Agree_example : Run.Agree (Run.run 9 array_calls empty) (Run.replay array_calls [])
run-Agree_example =
    Run.run-Agree 9 array_calls empty [] empty-HasElements (refl, (refl, (refl, tt)))

-- One element is taken out, and two are left.
replayed : Run.replay array_calls [] ≡ some ((5 ∷ 6 ∷ []) ∷ [], (3 ∷ 4 ∷ []) ∷ (1 ∷ 2 ∷ []) ∷ [])
unfolding Run.replay
replayed = refl
