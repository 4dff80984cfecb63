-- ===== src/Hash/Operations.antt =====
-- The operations of src/hashlib.c act on what the table reads as on a finite map.
use cforum_upto.Base.{
  ℕ, suc, ◌%◌, ◌≤◌, ◌<◌, ◌≡◌, ◌≢◌, refl, sym, ap, ◌∙◌, inl, inr, Bool, true, false, Bool-cases,
  Option-cases, Option, none, some, List, [], ◌∷◌, leb, ==_false, if◌then◌else◌, arith,
}
use cforum_upto.Hash.{
  Entry, Table, same_key, cf_hashsize, split, store, store_in, get, set, set_static, entry_delete,
  value_of, change_entry, unlink_entry,
}
use cforum_upto.Hash.Chain.{
  first, count, find_entry-first, change_entry-AllHome, first-change_entry, count-change_entry,
  unlink_entry-AllHome, first-unlink_entry, count-unlink_entry, eq_of_same_key,
}
use cforum_upto.Hash.Reads.{
  IsPlaced, reads, split-IsPlaced, split-reads, set_bucket-IsPlaced, reads-set_bucket,
  save-IsPlaced, save-reads,
}

module _ (lookup : List ℕ → ℕ) {D : Type 0} where
  -- What holds between two operations.
  abbrev pub IsValid : Table D → Type 0
  IsValid t = IsPlaced lookup t.tablesize t.buckets

  get-reads :
      (t : Table D) (q : List ℕ)
      → IsValid t
      → get lookup t q ≡ value_of (reads lookup t.tablesize t.buckets q)
  unfolding get
  get-reads t q v = ap value_of (
      find_entry-first lookup (cf_hashsize t.tablesize) (lookup q % cf_hashsize t.tablesize) q _
        (v.home _))

  -- The table is valid, and reads as before but for the key `k`, where it reads `new`.
  pub record Updates (t : Table D) (k : List ℕ) (new : Option D) (r : Table D) : Type 0 where
    pub valid : IsValid r
    pub reading : (q : List ℕ) → get lookup r q ≡ (if same_key k q then new else get lookup t q)

  -- From entries to their values.
  Updates-reads :
      (t r : Table D) (k : List ℕ) (new : Option (Entry D))
      → IsValid t
      → IsValid r
      → ((q : List ℕ)
          → reads lookup r.tablesize r.buckets q
            ≡ (if same_key k q then new else reads lookup t.tablesize t.buckets q))
      → Updates t k (value_of new) r
  Updates-reads t r k new v w h = record {
    valid = w;
    reading = λ q.
        rw (get-reads r q w, get-reads t q v, h q)
          (elim (Bool-cases (same_key k q)) [ inl s ↦ rw s refl | inr s ↦ rw s refl ]);
  }

  -- A key that is not there reads as no entry already.
  absent-reads :
      (t : Table D) (key : List ℕ)
      → first key (t.buckets (lookup key % cf_hashsize t.tablesize)) ≡ none
      → (q : List ℕ)
      → reads lookup t.tablesize t.buckets q
        ≡ (if same_key key q then none else reads lookup t.tablesize t.buckets q)
  absent-reads t key absent q = elim (Bool-cases (same_key key q)) [
    | inl s ↦
        let is : key ≡ q = eq_of_same_key key q s in
        rw s (ap (reads lookup t.tablesize t.buckets) (sym is) ∙ absent)
    | inr s ↦ rw s refl
  ]

  module _ (change : Entry D → Entry D) (key : List ℕ) (stat : ℕ) (value : D)
      (same : (e : Entry D) → ((change e).key ≡ e.key) × ((change e).hashval ≡ e.hashval))
      (writes : (e : Entry D) → (change e).value ≡ value) where
    abbrev fresh : Entry D
    fresh = record { key = key; hashval = lookup key; stat = stat; value = value }

    -- An entry with the key is there: its value is written.
    store-found :
        (t : Table D) (old : Entry D)
        → IsValid t
        → first key (t.buckets (lookup key % cf_hashsize t.tablesize)) ≡ some old
        → Updates t key (some value) (
            store_in change fresh t
              (lookup key % cf_hashsize t.tablesize)
              (some old)
              (t.buckets (lookup key % cf_hashsize t.tablesize)))
    store-found t old v found =
        let o : ℕ = cf_hashsize t.tablesize in
        let i : ℕ = lookup key % o in
        let b = change_entry change (lookup key) key (t.buckets i) in
        let home = change_entry-AllHome lookup o i change key (t.buckets i) same (v.home i) in
        let reading = λ (q : List ℕ).
          first-change_entry lookup o i change key q (t.buckets i) old (λ e. (same e).0) (v.home i)
            found in
        let few : (q : List ℕ) → count q b ≤ 1 = λ q.
          rw (count-change_entry lookup o i change key q (t.buckets i) (λ e. (same e).0))
            (v.single q i) in
        rw (← writes old) (
          Updates-reads t _ key (some (change old)) v
            (set_bucket-IsPlaced lookup t.tablesize t.buckets i b v home few)
            (λ q.
              reads-set_bucket lookup t.tablesize t.buckets key q b (some (change old)) reading))

    -- No entry with the key is there: a new one is saved, after the table was doubled if it is full.
    store-new :
        (t : Table D) (bucket : List (Entry D))
        → IsValid t
        → first key (t.buckets (lookup key % cf_hashsize t.tablesize)) ≡ none
        → (store_in change fresh t (lookup key % cf_hashsize t.tablesize) none bucket).tablesize
          < 32
        → Updates t key
            (some value)
            (store_in change fresh t (lookup key % cf_hashsize t.tablesize) none bucket)
    store-new t [] v absent small =
        Updates-reads t _ key (some fresh) v
          (save-IsPlaced lookup t.tablesize t.buckets fresh refl v absent)
          (save-reads lookup t.tablesize t.buckets fresh refl v absent)
    store-new t (e ∷ es) v absent small =
        elim (Bool-cases (leb (cf_hashsize t.tablesize) t.elements)) [
          | inl full ↦
              let grown : suc t.tablesize < 32 = rw full at small in
              let w = split-IsPlaced lookup t v (omega arith) in
              let same_reads = split-reads lookup t v (omega arith) in
              let gone = same_reads key ∙ absent in
              rw full (
                Updates-reads t _ key (some fresh) v
                  (save-IsPlaced lookup (suc t.tablesize) (split t) fresh refl w gone)
                  (λ q.
                    save-reads lookup (suc t.tablesize) (split t) fresh refl w gone q
                    ∙ ap (λ (o : Option (Entry D)). if same_key key q then some fresh else o)
                        (same_reads q)))
          | inr room ↦ rw room (
              Updates-reads t _ key (some fresh) v
                (save-IsPlaced lookup t.tablesize t.buckets fresh refl v absent)
                (save-reads lookup t.tablesize t.buckets fresh refl v absent))
        ]

    store-Updates :
        (t : Table D)
        → IsValid t
        → (store change fresh t).tablesize < 32
        → Updates t key (some value) (store change fresh t)
    unfolding store
    store-Updates t v small =
        let i : ℕ = lookup key % cf_hashsize t.tablesize in
        let b = t.buckets i in
        let found_first = find_entry-first lookup (cf_hashsize t.tablesize) i key b (v.home i) in
        rw found_first (elim (Option-cases (first key b)) [
          | inl absent ↦ rw absent (store-new t b v absent (rw (found_first, absent) at small))
          | inr (old, found) ↦ rw found (store-found t old v found)
        ])

  -- On a valid table cf_hash_set with a value of at least one byte, if it leaves fewer than
  -- 2 ^ 32 buckets, leaves a valid table that reads
  -- as before, but for the key, where it reads the value; so does it where it doubles the table.
  pub set-Updates :
      (t : Table D) (key : List ℕ) (d : D) (datalen : ℕ) (blank : D)
      → datalen ≢ 0
      → IsValid t
      → (set lookup t key d datalen blank).tablesize < 32
      → Updates t key (some d) (set lookup t key d datalen blank)
  unfolding set
  set-Updates t key d datalen blank some_bytes v small = rw (==_false datalen 0 some_bytes) (
      store-Updates (λ e. record e { value = d }) key 0 d (λ e. (refl, refl)) (λ e. refl) t v
        (rw (==_false datalen 0 some_bytes) at small))

  -- On a valid table cf_hash_set_static, if it leaves fewer than 2 ^ 32 buckets, leaves a valid table that reads as before, but for the
  -- key, where it reads the value.
  pub set_static-Updates :
      (t : Table D) (key : List ℕ) (d : D)
      → IsValid t
      → (set_static lookup t key d).tablesize < 32
      → Updates t key (some d) (set_static lookup t key d)
  unfolding set_static
  set_static-Updates t key d v small =
      store-Updates (λ e. record e { value = d; stat = 1 }) key 1 d (λ e. (refl, refl)) (λ e. refl)
        t v small

  abbrev pub is_some : Option D → Bool
  is_some none = false
  is_some (some d) = true

  -- On a valid table cf_hash_entry_delete leaves a valid table that reads as before, but for the
  -- key, where it reads NULL; it returns 1 exactly if the key was there.
  pub entry_delete-Updates :
      (t : Table D) (key : List ℕ)
      → IsValid t
      → Updates t key none (entry_delete lookup t key).1
        × ((entry_delete lookup t key).0 ≡ is_some (get lookup t key))
  unfolding entry_delete
  entry_delete-Updates t key v =
      let o : ℕ = cf_hashsize t.tablesize in
      let i : ℕ = lookup key % o in
      let b = t.buckets i in
      let flag = get-reads t key v in
      rw (find_entry-first lookup o i key b (v.home i), flag)
        (elim (Option-cases (first key b)) [
          | inl absent ↦
              rw absent (Updates-reads t t key none v v (absent-reads t key absent), refl)
          | inr (old, found) ↦ rw found (
            Updates-reads t _ key none v
                (set_bucket-IsPlaced lookup t.tablesize t.buckets i
                  (unlink_entry (lookup key) key b) v
                  (unlink_entry-AllHome lookup o i key b (v.home i))
                  (λ q. omega (arith, count-unlink_entry lookup o i key q b, v.single q i)))
                (λ q.
                  reads-set_bucket lookup t.tablesize t.buckets key q
                    (unlink_entry (lookup key) key b) none
                    (λ p. first-unlink_entry lookup o i key p b (v.home i) (v.single p i))),
            refl,
          )
        ])
