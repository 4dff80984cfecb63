-- ===== src/Hash/Run.antt =====
-- Runs of the operations of src/hashlib.c, and the counter of the elements.
use cforum_upto.Base.{
  ℕ, suc, ◌+◌, ◌<◌, ◌-◌, ◌%◌, ◌^◌, ◌≡◌, refl, ap, ◌∙◌, Option, none, some, List, [], ◌∷◌, ==_iff,
  if◌then◌else◌, arith,
}
use cforum_upto.Hash.{
  Table, same_key, new, cf_hashsize, find_entry, store, get, set, set_static, entry_delete,
}
use cforum_upto.Hash.Chain.{count, same_key_self}
use cforum_upto.Hash.Operations.{
  IsValid, Updates, set-Updates, set_static-Updates, entry_delete-Updates,
}

-- One call that changes a table, with its arguments; `setting k d n` sets `n + 1` bytes.
pub data Call (D : Type 0) : Type 0 where
  setting : List ℕ → D → ℕ → Call D
  setting_static : List ℕ → D → Call D
  deleting : List ℕ → Call D

module _ {D : Type 0} where
  -- What a call does to a finite map.
  abbrev pub act : Call D → (List ℕ → Option D) → List ℕ → Option D
  act (setting k d n) f q = if same_key k q then some d else f q
  act (setting_static k d) f q = if same_key k q then some d else f q
  act (deleting k) f q = if same_key k q then none else f q

  unfoldable pub replay : List (Call D) → (List ℕ → Option D) → List ℕ → Option D
  replay [] f = f
  replay (c ∷ cs) f = replay cs (act c f)

module _ (lookup : List ℕ → ℕ) {D : Type 0} (blank : D) where
  abbrev pub call : Call D → Table D → Table D
  call (setting k d n) t = set lookup t k d (suc n) blank
  call (setting_static k d) t = set_static lookup t k d
  call (deleting k) t = (entry_delete lookup t k).1

  unfoldable pub run : List (Call D) → Table D → Table D
  run [] t = t
  run (c ∷ cs) t = run cs (call c t)

  -- After each call the size of the table is one for which cf_hashsize is defined.
  abbrev pub HasSizes : List (Call D) → Table D → Type 0
  HasSizes [] t = Unit
  HasSizes (c ∷ cs) t = ((call c t).tablesize < 32) × HasSizes cs (call c t)

  -- The table is valid and reads as the map `f`.
  pub record Holds (f : List ℕ → Option D) (t : Table D) : Type 0 where
    pub valid : IsValid lookup t
    pub reading : (q : List ℕ) → get lookup t q ≡ f q

  Updates-Holds :
      (t r : Table D) (k : List ℕ) (v : Option D) (f : List ℕ → Option D)
      → Holds f t
      → Updates lookup t k v r
      → Holds (λ q. if same_key k q then v else f q) r
  Updates-Holds t r k v f h u = record {
    valid = u.valid;
    reading = λ q. u.reading q ∙ ap (λ (o : Option D). if same_key k q then v else o) (h.reading q);
  }

  call-Holds :
      (c : Call D) (t : Table D) (f : List ℕ → Option D)
      → Holds f t
      → (call c t).tablesize < 32
      → Holds (act c f) (call c t)
  call-Holds (setting k d n) t f h small =
      Updates-Holds t _ k (some d) f h
        (set-Updates lookup t k d (suc n) blank (omega arith) h.valid small)
  call-Holds (setting_static k d) t f h small =
      Updates-Holds t _ k (some d) f h (set_static-Updates lookup t k d h.valid small)
  call-Holds (deleting k) t f h small =
      Updates-Holds t _ k none f h (entry_delete-Updates lookup t k h.valid).0

  pub new-Holds : Holds (λ q. none) (new {D = D})
  unfolding new get find_entry count
  new-Holds = record {
    valid = record { home = λ j. tt; single = λ q j. omega arith };
    reading = λ q. refl;
  }

  -- After any run of cf_hash_set with values of at least one byte, cf_hash_set_static and
  -- cf_hash_entry_delete on a table that holds a map, for any hash function, if every
  -- call leaves fewer than 2 ^ 32 buckets, the table is valid and cf_hash_get reads from it what the
  -- same run makes of the map.
  pub run-Reads :
      (cs : List (Call D)) (t : Table D) (f : List ℕ → Option D)
      → Holds f t
      → HasSizes cs t
      → Holds (replay cs f) (run cs t)
  unfolding replay run
  run-Reads [] t f h small = h
  run-Reads (c ∷ cs) t f h small =
      run-Reads cs (call c t) (act c f) (call-Holds c t f h small.0) small.1

  -- A key that is set where its bucket is empty, and then deleted, leaves the counter of the
  -- elements one lower than before, and at 2 ^ 32 - 1 where it was 0: setting it did not count.
  pub elements-entry_delete-set :
      (t : Table D) (k : List ℕ) (d : D) (n : ℕ)
      → t.buckets (lookup k % cf_hashsize t.tablesize) ≡ []
      → (entry_delete lookup (set lookup t k d n blank) k).1.elements
        ≡ (t.elements + (2 ^ 32 - 1)) % 2 ^ 32
  unfolding entry_delete set store find_entry
  elements-entry_delete-set t k d n empty =
      let e =
        (==_iff (lookup k % cf_hashsize t.tablesize) (lookup k % cf_hashsize t.tablesize)).1 refl in
      let h = (==_iff (lookup k) (lookup k)).1 refl in rw (empty, e, empty, h, same_key_self k) refl
