-- ===== src/Memory/Pool.antt =====
-- cf_mem_pool_t of src/utils.h and its functions in src/memoryutils.c.
use cforum_upto.Base.{
  ℕ, ◌+◌, ◌-◌, ◌≤◌, ◌<◌, ◌≡◌, refl, sym, ap, ◌∙◌, Bool-cases, inl, inr, Option, none, some, List,
  [], ◌∷◌, ◌++◌, append_assoc, leb, if◌then◌else◌, length, length-append, arith,
}
use cforum_upto.Str.{cf_bufsiz}
use cforum_upto.Str.Block.{write, realloc, length-realloc}
use cforum_upto.Memory.Blocks.{
  ◌>>=◌, read_block, read_block-part, write-part, realloc-grows, split_room,
}

-- `content` is the whole allocated block, `[]` for NULL.
pub record Pool : Type 0 where
  pub len : ℕ
  pub reserved : ℕ
  pub growth : ℕ
  pub content : List ℕ

-- cf_mem_init_growth.
abbrev pub mem_init_growth : ℕ → Pool
mem_init_growth growth = record { len = 0; reserved = 0; growth = growth; content = [] }

-- cf_mem_init.
abbrev pub mem_init : Pool
mem_init = mem_init_growth cf_bufsiz

-- cf_mem_cleanup.
abbrev pub mem_cleanup : Pool → Pool
mem_cleanup pool = record pool { len = 0; reserved = 0; content = [] }

-- `len = pool->growth; if(length >= len) len += length;`
abbrev pub more_room : ℕ → Pool → ℕ
more_room length pool = pool.growth + (if leb pool.growth length then length else 0)

-- The block grows if the bytes would fill it.
unfoldable pub make_room : ℕ → ℕ → Pool → Pool
make_room junk length pool =
    let reserved = pool.reserved + more_room length pool in
    if leb pool.reserved (pool.len + length)
    then record pool { reserved = reserved; content = realloc junk pool.content reserved }
    else pool

-- What the copy leaves, with the result and the new length.
abbrev pub stored_at : Option (List ℕ) → ℕ → ℕ → Pool → Option (ℕ × Pool)
stored_at none result len pool = none
stored_at (some content) result len pool =
    some (result, record pool { content = content; len = len })

-- cf_mem_append: the position of the pointer that is returned, and the pool.
unfoldable pub mem_append : ℕ → List ℕ → Pool → Option (ℕ × Pool)
unfolding make_room
mem_append junk src pool =
    let p = make_room junk (length src) pool in
    let len : ℕ = pool.len + length src in
    stored_at (write p.content pool.len src) (len - length src) len p

-- cf_mem_set.
unfoldable pub mem_set : ℕ → List ℕ → Pool → Option (ℕ × Pool)
unfolding make_room
mem_set junk src pool =
    let p = make_room junk (length src) pool in
    stored_at (write p.content 0 src) (length src) (length src) p

-- The pool holds these bytes at the front of its block.
pub record HasBytes (pool : Pool) (text : List ℕ) : Type 0 where
  pub rest : List ℕ
  pub content : pool.content ≡ text ++ rest
  pub size : length pool.content ≡ pool.reserved
  pub len : pool.len ≡ length text

-- It does so, and has room for `n` bytes more.
abbrev HasRoom : Pool → List ℕ → ℕ → Type 0
HasRoom pool text n = HasBytes pool text × (pool.len + n ≤ pool.reserved)

HasRoom-of : (p q : Pool) (text : List ℕ) (n : ℕ) → p ≡ q → HasRoom q text n → HasRoom p text n
HasRoom-of p q text n same h = rw same h

enough-room :
    (n : ℕ) (pool : Pool)
    → pool.len ≤ pool.reserved
    → pool.len + n ≤ pool.reserved + more_room n pool
enough-room n pool le = elim (Bool-cases (leb pool.growth n)) [
  | inl long ↦ rw long (omega arith)
  | inr short ↦ let lt : n < pool.growth = ground arith in rw short (omega arith)
]

make_room-HasRoom :
    (junk n : ℕ) (pool : Pool) (text : List ℕ)
    → HasBytes pool text
    → HasRoom (make_room junk n pool) text n
unfolding make_room
make_room-HasRoom junk n pool text h =
    let le : pool.len ≤ pool.reserved =
      omega (arith, h.len, h.size, ap length h.content, length-append text h.rest) in
    let reserved = pool.reserved + more_room n pool in
    elim (Bool-cases (leb pool.reserved (pool.len + n))) [
      | inl full ↦
          let grown =
            realloc-grows junk text h.rest reserved (omega (arith, h.size, ap length h.content)) in
          HasRoom-of (make_room junk n pool)
            (record pool { reserved = reserved; content = realloc junk pool.content reserved }) text
            n (rw full refl)
            (
              record {
                rest = grown.0;
                content = ap (λ c. realloc junk c reserved) h.content ∙ grown.1;
                size = length-realloc junk pool.content reserved;
                len = h.len;
              },
              enough-room n pool le,
            )
      | inr fits ↦ HasRoom-of (make_room junk n pool) pool text n (rw fits refl) (h, ground arith)
    ]

-- The block after `src` was written behind `text` in it.
written-HasBytes :
    (pool : Pool) (text src old : List ℕ)
    → HasBytes pool old
    → (part : List ℕ) → (rest : List ℕ) → pool.content ≡ text ++ (part ++ rest)
    → length src ≡ length part
    → (len : ℕ) → len ≡ length text + length src
    → HasBytes (record pool { content = text ++ (src ++ rest); len = len }) (text ++ src)
written-HasBytes pool text src old h part rest is same len size = record {
  rest = rest;
  content = sym (append_assoc text src rest);
  size = omega (
    arith,
    length-append text (src ++ rest),
    length-append src rest,
    h.size,
    ap length is,
    length-append text (part ++ rest),
    length-append part rest,
  );
  len = size ∙ sym (length-append text src);
}

-- cf_mem_append stays inside of the block. It gives the position of the bytes that it stores
-- behind the others.
pub record Appended (pool : Pool) (text src : List ℕ) (r : Option (ℕ × Pool)) : Type 0 where
  pub after : Pool
  pub ran : r ≡ some (pool.len, after)
  pub bytes : HasBytes after (text ++ src)
  pub found : read_block after.content pool.len (length src) ≡ some src

pub mem_append-Appended :
    (junk : ℕ) (src : List ℕ) (pool : Pool) (text : List ℕ)
    → HasBytes pool text
    → Appended pool text src (mem_append junk src pool)
unfolding mem_append
mem_append-Appended junk src pool text h =
    let p = make_room junk (length src) pool in
    let room = make_room-HasRoom junk (length src) pool text h in
    let b = room.0 in
    let split =
      split_room b.rest (length src)
        (omega (arith, room.1, b.len, b.size, ap length b.content, length-append text b.rest)) in
    let is : p.content ≡ text ++ (split.0 ++ split.1) = b.content ∙ ap (λ c. text ++ c) split.2 in
    let after = record p { content = text ++ (src ++ split.1); len = pool.len + length src } in
    let wrote : write p.content pool.len src ≡ some (text ++ (src ++ split.1)) =
      ap (λ c. write c pool.len src) is
      ∙ write-part text split.0 split.1 src pool.len h.len (sym split.3) in
    record {
      after = after;
      ran =
          ap (λ c. stored_at c (pool.len + length src - length src) (pool.len + length src) p) wrote
          ∙ ap (λ n. some (n, after)) (omega arith);
      bytes =
          written-HasBytes p text src text b split.0 split.1 is (sym split.3)
            (pool.len + length src) (omega (arith, h.len));
      found = read_block-part text src split.1 pool.len (length src) h.len refl;
    }

-- cf_mem_set stays inside of the block, and the bytes take the place of the others.
pub mem_set-HasBytes :
    (junk : ℕ) (src : List ℕ) (pool : Pool) (text : List ℕ)
    → HasBytes pool text
    → (after : Pool) × (mem_set junk src pool ≡ some (length src, after)) × HasBytes after src
unfolding mem_set
mem_set-HasBytes junk src pool text h =
    let p = make_room junk (length src) pool in
    let room = make_room-HasRoom junk (length src) pool text h in
    let b = room.0 in
    let split = split_room p.content (length src) (omega (arith, room.1, b.size)) in
    let after = record p { content = src ++ split.1; len = length src } in
    let wrote : write p.content 0 src ≡ some (src ++ split.1) =
      ap (λ c. write c 0 src) split.2 ∙ write-part [] split.0 split.1 src 0 refl (sym split.3) in
    (
      after,
      ap (λ c. stored_at c (length src) (length src) p) wrote,
      written-HasBytes p [] src text b split.0 split.1 split.2 (sym split.3) (length src)
          (omega arith),
    )

-- The calls on a pool.
pub data Call : Type 0 where
  appending : List ℕ → Call
  setting : List ℕ → Call
  cleaning : Call

abbrev pub second : Option (ℕ × Pool) → Option Pool
second none = none
second (some (n, pool)) = some pool

abbrev pub call : ℕ → Call → Pool → Option Pool
call junk (appending src) pool = second (mem_append junk src pool)
call junk (setting src) pool = second (mem_set junk src pool)
call junk cleaning pool = some (mem_cleanup pool)

unfoldable pub run : ℕ → List Call → Pool → Option Pool
run junk [] pool = some pool
run junk (c ∷ cs) pool = call junk c pool >>= run junk cs

abbrev pub meaning : Call → List ℕ → List ℕ
meaning (appending src) text = text ++ src
meaning (setting src) text = src
meaning cleaning text = []

abbrev pub meanings : List Call → List ℕ → List ℕ
meanings [] text = text
meanings (c ∷ cs) text = meanings cs (meaning c text)

call-HasBytes :
    (junk : ℕ) (c : Call) (pool : Pool) (text : List ℕ)
    → HasBytes pool text
    → (after : Pool) × (call junk c pool ≡ some after) × HasBytes after (meaning c text)
call-HasBytes junk (appending src) pool text h =
    let done = mem_append-Appended junk src pool text h in
    (done.after, ap second done.ran, done.bytes)
call-HasBytes junk (setting src) pool text h =
    let done = mem_set-HasBytes junk src pool text h in (done.0, ap second done.1, done.2)
call-HasBytes junk cleaning pool text h =
    (mem_cleanup pool, refl, record { rest = []; content = refl; size = refl; len = refl })

-- Any run of cf_mem_append, cf_mem_set and cf_mem_cleanup on a pool stays inside of the allocated
-- blocks, whatever the growth, and leaves the bytes at the front of the block that the same calls
-- make of the bytes from before.
pub run-HasBytes :
    (junk : ℕ) (cs : List Call) (pool : Pool) (text : List ℕ)
    → HasBytes pool text
    → (after : Pool) × (run junk cs pool ≡ some after) × HasBytes after (meanings cs text)
unfolding run
run-HasBytes junk [] pool text h = (pool, refl, h)
run-HasBytes junk (c ∷ cs) pool text h =
    let one = call-HasBytes junk c pool text h in
    let rest = run-HasBytes junk cs one.0 (meaning c text) one.2 in
    (rest.0, ap (λ r. r >>= run junk cs) one.1 ∙ rest.1, rest.2)
