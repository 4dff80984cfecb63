-- ===== src/Memory/Array.antt =====
-- cf_array_t of src/utils.h and its functions in src/arrayutils.c. qsort and bsearch, which sort and
-- search it, are of the C library.
pub mod Elements
pub mod Ends
pub mod Run
use cforum_upto.Base.{
  ℕ, zero, suc, ◌+◌, ◌-◌, ◌*◌, Bool, true, false, Option, none, some, List, [], ◌∷◌, leb, ◌==◌,
  if◌then◌else◌,
}
use cforum_upto.Str.Block.{write, realloc}
use cforum_upto.Memory.Blocks.{◌>>=◌, read_block, move_block}

-- `array` is the whole allocated block, `[]` for NULL; `destroys` tells whether there is a
-- destructor.
pub record Array : Type 0 where
  pub elements : ℕ
  pub reserved : ℕ
  pub element_size : ℕ
  pub destroys : Bool
  pub array : List ℕ

-- cf_array_init.
abbrev pub array_init : ℕ → Bool → Array
array_init size destroys = record {
  elements = 0;
  reserved = 0;
  element_size = size;
  destroys = destroys;
  array = [];
}

-- The block grows by one element if there is room for one at most.
unfoldable pub grow : ℕ → Array → Array
grow junk ary =
    if leb ary.reserved (ary.elements + 1)
    then record ary {
      array = realloc junk ary.array (ary.element_size * (ary.reserved + 1));
      reserved = ary.reserved + 1;
    }
    else ary

abbrev pub with_block : Option (List ℕ) → ℕ → Array → Option Array
with_block none n ary = none
with_block (some block) n ary = some (record ary { array = block; elements = n })

-- cf_array_push.
unfoldable pub array_push : ℕ → List ℕ → Array → Option Array
unfolding grow
array_push junk element ary =
    let a = grow junk ary in
    with_block (write a.array (a.elements * a.element_size) element) (a.elements + 1) a

abbrev pub taken : Option (List ℕ) → Option Array → Option (List ℕ × Array)
taken none after = none
taken (some e) none = none
taken (some e) (some ary) = some (e, ary)

-- cf_array_pop. Without an element the counter wraps, and the access is far outside of the block.
unfoldable pub array_pop : Array → Option (List ℕ × Array)
unfolding read_block
array_pop ary =
    let n = ary.elements - 1 in
    if ary.elements == 0
    then none
    else taken (read_block ary.array (n * ary.element_size) ary.element_size)
        (some (record ary { elements = n }))

-- cf_array_shift. Without an element the size of the move wraps.
unfoldable pub array_shift : Array → Option (List ℕ × Array)
unfolding read_block move_block
array_shift ary =
    let n = ary.elements - 1 in
    if ary.elements == 0
    then none
    else taken (read_block ary.array 0 ary.element_size)
        (with_block (move_block ary.array 0 ary.element_size (n * ary.element_size)) n ary)

abbrev pub then_write : Option (List ℕ) → List ℕ → Option (List ℕ)
then_write none element = none
then_write (some block) element = write block 0 element

-- cf_array_unshift.
unfoldable pub array_unshift : ℕ → List ℕ → Array → Option Array
unfolding grow move_block
array_unshift junk element ary =
    let a = grow junk ary in
    with_block
      (then_write (move_block a.array a.element_size 0 (a.elements * a.element_size)) element)
      (a.elements + 1) a

abbrev pub at_pointer : Option (List ℕ) → Option (Option (List ℕ))
at_pointer none = none
at_pointer (some e) = some (some e)

-- cf_array_element_at: the bytes at the pointer, or `some none` for NULL.
unfoldable pub array_element_at : Array → ℕ → Option (Option (List ℕ))
unfolding read_block
array_element_at ary index =
    if leb ary.elements index
    then some none
    else at_pointer (read_block ary.array (index * ary.element_size) ary.element_size)
