-- ===== src/Hash.antt =====
-- The hash table of src/hashlib.c. A bucket is the list of its entries along `next`, and the list
-- of the keys is that of `keys.elems`. The hash function `lookup` is a parameter.
pub mod Chain
pub mod Split
pub mod Reads
pub mod Operations
pub mod Run
mod Examples
use cforum_upto.Base.{
  ℕ, zero, suc, ◌+◌, ◌-◌, ◌*◌, ◌%◌, ◌^◌, Bool, true, false, ◌&&◌, Option, none, some, List, [], ◌∷◌,
  ◌++◌, leb, ltb, ◌==◌, if◌then◌else◌,
}

-- `cf_hash_entry_t`. An entry with `stat` 0 owns its value.
pub record Entry {ℓ} (D : Type ℓ) : Type ℓ where
  pub key : List ℕ
  pub hashval : ℕ
  pub stat : ℕ
  pub value : D

-- `cf_hash_t`. `destroyed` holds the values given to the destructor and freed, in order.
pub record Table {ℓ} (D : Type ℓ) : Type ℓ where
  pub tablesize : ℕ
  pub elements : ℕ
  pub keys : List (List ℕ)
  pub buckets : ℕ → List (Entry D)
  pub destroyed : List D

-- CF_HASH_SIZE.
abbrev pub cf_hash_size : ℕ
cf_hash_size = 9

-- cf_hashsize, the shift `(ub4)1<<(n)` of 32 bits; C defines it for `n` under 32. `hval &
-- cf_hashmask(n)` is written `hval % cf_hashsize n`.
unfoldable pub cf_hashsize : ℕ → ℕ
cf_hashsize n = 2 ^ n % 2 ^ 32

-- The lengths are equal, and so is what memcmp compares.
unfoldable pub same_key : List ℕ → List ℕ → Bool
same_key [] [] = true
same_key [] (y ∷ ys) = false
same_key (x ∷ xs) [] = false
same_key (x ∷ xs) (y ∷ ys) = (x == y) && same_key xs ys

-- The key list after the element of that key is taken out.
unfoldable pub unlink_key : List ℕ → List (List ℕ) → List (List ℕ)
unlink_key key [] = []
unlink_key key (k ∷ ks) = if same_key k key then ks else k ∷ unlink_key key ks

module _ {ℓ} {D : Type ℓ} where
  unfoldable pub new : Table D
  new = record {
    tablesize = cf_hash_size;
    elements = 0;
    keys = [];
    buckets = λ i. [];
    destroyed = [];
  }

  -- `hsh->table[i] = b`
  abbrev pub set_bucket : (ℕ → List (Entry D)) → ℕ → List (Entry D) → ℕ → List (Entry D)
  set_bucket tb i b j = if j == i then b else tb j

  abbrev pub matches : ℕ → List ℕ → Entry D → Bool
  matches hval key e = (e.hashval == hval) && same_key e.key key

  -- The loop of cf_hash_get over one bucket.
  unfoldable pub find_entry : ℕ → List ℕ → List (Entry D) → Option (Entry D)
  unfolding same_key
  find_entry hval key [] = none
  find_entry hval key (e ∷ es) = if matches hval key e then some e else find_entry hval key es

  -- The bucket after a write through the pointer that the loop has found.
  unfoldable pub change_entry : (Entry D → Entry D) → ℕ → List ℕ → List (Entry D) → List (Entry D)
  change_entry f hval key [] = []
  change_entry f hval key (e ∷ es) =
      if matches hval key e then f e ∷ es else e ∷ change_entry f hval key es

  -- The bucket after the entry that the loop has found is taken out.
  unfoldable pub unlink_entry : ℕ → List ℕ → List (Entry D) → List (Entry D)
  unlink_entry hval key [] = []
  unlink_entry hval key (e ∷ es) = if matches hval key e then es else e ∷ unlink_entry hval key es

  -- `if(ent->stat == 0) { if(hsh->destroy) hsh->destroy(ent->data); free(ent->data); }`
  abbrev pub destroy_value : Entry D → List D → List D
  destroy_value e freed = if e.stat == 0 then freed ++ e.value ∷ [] else freed

  -- The loop of _cf_hash_split over the entries of bucket `i`: those that belong elsewhere are
  -- put before the entries of their bucket, which is another one.
  unfoldable pub split_bucket :
      ℕ → ℕ → List (Entry D) → List (Entry D) → (ℕ → List (Entry D)) → ℕ → List (Entry D)
  split_bucket elems i kept [] tb = set_bucket tb i kept
  split_bucket elems i kept (e ∷ es) tb =
      let home : ℕ = e.hashval % elems in
      let stays = split_bucket elems i (kept ++ e ∷ []) es tb in
      let moves = split_bucket elems i kept es (set_bucket tb home (e ∷ tb home)) in
      if home == i then stays else moves

  -- The loop of _cf_hash_split over `rounds` buckets from `i` on.
  unfoldable pub split_loop : ℕ → ℕ → ℕ → (ℕ → List (Entry D)) → ℕ → List (Entry D)
  unfolding split_bucket
  split_loop elems zero i tb = tb
  split_loop elems (suc rounds) i tb =
      split_loop elems rounds (i + 1) (split_bucket elems i [] (tb i) tb)

  -- `memset(&hsh->table[oelems],0,...)`
  abbrev pub cleared : ℕ → (ℕ → List (Entry D)) → ℕ → List (Entry D)
  cleared oelems tb j = if leb oelems j then [] else tb j

  -- The buckets of _cf_hash_split before it saves the entry.
  unfoldable pub split : Table D → ℕ → List (Entry D)
  unfolding split_loop
  split t =
      let oelems : ℕ = cf_hashsize t.tablesize in
      split_loop (cf_hashsize (suc t.tablesize)) oelems 0 (cleared oelems t.buckets)

  -- _cf_hash_save: the new entry stands at the end of its bucket, its key at the end of the keys.
  abbrev pub save : Entry D → (ℕ → List (Entry D)) → ℕ → Table D → Table D
  save e tb size t =
      let i : ℕ = e.hashval % cf_hashsize size in
      record t {
        tablesize = size;
        buckets = set_bucket tb i (tb i ++ e ∷ []);
        keys = t.keys ++ e.key ∷ [];
      }

  -- What is done in bucket `i` with the entry that was found, or else with the new one: `change`
  -- writes to the found entry.
  abbrev pub store_in :
      (Entry D → Entry D) → Entry D → Table D → ℕ → Option (Entry D) → List (Entry D) → Table D
  store_in change entry t i (some old) bucket = record t {
    buckets = set_bucket t.buckets i (change_entry change entry.hashval entry.key bucket);
    destroyed = destroy_value old t.destroyed;
  }
  store_in change entry t i none [] = save entry t.buckets t.tablesize t
  store_in change entry t i none (e ∷ es) =
      if leb (cf_hashsize t.tablesize) t.elements
      then save entry (split t) (suc t.tablesize) t
      else save entry t.buckets t.tablesize (record t { elements = (t.elements + 1) % 2 ^ 32 })

  -- The body that cf_hash_set and cf_hash_set_static share: `entry` is what _cf_hash_save makes.
  unfoldable pub store : (Entry D → Entry D) → Entry D → Table D → Table D
  unfolding find_entry change_entry split
  store change entry t =
      let i : ℕ = entry.hashval % cf_hashsize t.tablesize in
      store_in change entry t i (find_entry entry.hashval entry.key (t.buckets i)) (t.buckets i)

  abbrev pub value_of : Option (Entry D) → Option D
  value_of none = none
  value_of (some e) = some e.value

  -- The entry that was found in bucket `i` is deleted.
  abbrev pub delete_in : Table D → List ℕ → ℕ → ℕ → Option (Entry D) → Bool × Table D
  delete_in t key hval i none = (false, t)
  delete_in t key hval i (some e) = (
    true,
    record t {
      buckets = set_bucket t.buckets i (unlink_entry hval key (t.buckets i));
      keys = unlink_key key t.keys;
      elements = (t.elements + (2 ^ 32 - 1)) % 2 ^ 32;
      destroyed = destroy_value e t.destroyed;
    },
  )

module _ {ℓ} {D : Type ℓ} (lookup : List ℕ → ℕ) where
  -- cf_hash_set with a value of `datalen` bytes. It is copied, but if `datalen` is 0 a new entry
  -- takes the pointer itself, and one that is there gets the block `blank` of malloc(0).
  unfoldable pub set : Table D → List ℕ → D → ℕ → D → Table D
  unfolding store
  set t key d datalen blank =
      store (λ e. record e { value = if datalen == 0 then blank else d })
        (record {
          key = key;
          hashval = lookup key;
          stat = if datalen == 0 then 1 else 0;
          value = d;
        })
        t

  unfoldable pub set_static : Table D → List ℕ → D → Table D
  unfolding store
  set_static t key d =
      store (λ e. record e { value = d; stat = 1 })
        (record { key = key; hashval = lookup key; stat = 1; value = d }) t

  unfoldable pub get : Table D → List ℕ → Option D
  unfolding find_entry
  get t key =
      value_of (find_entry (lookup key) key (t.buckets (lookup key % cf_hashsize t.tablesize)))

  -- cf_hash_entry_delete: whether it returned 1, and the table.
  unfoldable pub entry_delete : Table D → List ℕ → Bool × Table D
  unfolding find_entry unlink_entry unlink_key
  entry_delete t key =
      let i : ℕ = lookup key % cf_hashsize t.tablesize in
      delete_in t key (lookup key) i (find_entry (lookup key) key (t.buckets i))
