-- ===== src/Linked.antt =====
-- src/listutils.c, and cf_list_element_t and cf_list_head_t of src/utils.h: the doubly linked list
-- on a memory of elements. An address is a number, and a null pointer is none; `fresh` is the
-- address that cf_alloc gives next. What `data` points to is a value of any type.
pub mod Segment
pub mod Lists
pub mod Operations
pub mod Delete
pub mod Insert
pub mod Search
pub mod Destroy
pub mod Run
mod Examples
use cforum_upto.Base.{
  ℕ, zero, suc, ◌+◌, Bool, true, false, Option, none, some, List, [], ◌∷◌, ◌==◌, if◌then◌else◌,
}

pub record Element {ℓ} (D : Type ℓ) : Type ℓ where
  pub value : D
  pub size : ℕ
  pub type : ℕ
  pub next : Option ℕ
  pub prev : Option ℕ

-- The head of a list, with the memory.
pub record Head {ℓ} (D : Type ℓ) : Type ℓ where
  pub elements : Option ℕ
  pub last : Option ℕ
  pub cells : ℕ → Element D
  pub fresh : ℕ

-- An element that is freed: its address, its data, which `destroy` is given before, if there is
-- one, and whether the data are freed too.
pub record Freed {ℓ} (D : Type ℓ) : Type ℓ where
  pub element : ℕ
  pub value : D
  pub data_freed : Bool

abbrev pub freed_first {ℓ} : {A : Type ℓ} → A → Option (List A) → Option (List A)
freed_first a none = none
freed_first a (some xs) = some (a ∷ xs)

abbrev pub is_at : Option ℕ → ℕ → Bool
is_at none a = false
is_at (some b) a = b == a

module _ {ℓ} {D : Type ℓ} where
  abbrev pub write : ℕ → Element D → (ℕ → Element D) → ℕ → Element D
  write a e c j = if j == a then e else c j

  abbrev pub set_next : ℕ → Option ℕ → (ℕ → Element D) → ℕ → Element D
  set_next a n c = write a (record (c a) { next = n }) c

  abbrev pub set_prev : ℕ → Option ℕ → (ℕ → Element D) → ℕ → Element D
  set_prev a p c = write a (record (c a) { prev = p }) c

  -- The assignments to what a pointer points to, if it is not null.
  abbrev pub set_next_of : Option ℕ → Option ℕ → (ℕ → Element D) → ℕ → Element D
  set_next_of none n c = c
  set_next_of (some a) n c = set_next a n c

  abbrev pub set_prev_of : Option ℕ → Option ℕ → (ℕ → Element D) → ℕ → Element D
  set_prev_of none p c = c
  set_prev_of (some a) p c = set_prev a p c

  -- cf_list_init, in a memory.
  abbrev pub list_init : (ℕ → Element D) → ℕ → Head D
  list_init c n = record { elements = none; last = none; cells = c; fresh = n }

  -- The element that cf_alloc gives and the assignments to its fields fill.
  abbrev pub new_element : ℕ → D → ℕ → Element D
  new_element ty d size = record { value = d; size = size; type = ty; next = none; prev = none }

  abbrev pub with_element : Element D → Head D → Head D
  with_element e head = record head {
    cells = write head.fresh e head.cells;
    fresh = head.fresh + 1;
  }

  abbrev pub link_last : ℕ → Option ℕ → Head D → Head D
  link_last elem none head = record head { last = some elem; elements = some elem }
  link_last elem (some l) head = record head {
    cells = set_prev elem (some l) (set_next l (some elem) head.cells);
    last = some elem;
  }

  -- cf_list_append, where the type is 0, and cf_list_append_static, where it is 1.
  unfoldable pub list_append : ℕ → D → ℕ → Head D → Head D
  list_append ty d size head =
      link_last head.fresh head.last (with_element (new_element ty d size) head)

  abbrev pub link_first : ℕ → Option ℕ → Head D → Head D
  link_first elem none head = record head { last = some elem; elements = some elem }
  link_first elem (some f) head = record head {
    cells = set_prev f (some elem) (set_next elem (some f) head.cells);
    elements = some elem;
  }

  -- cf_list_prepend, where the type is 0, and cf_list_prepend_static, where it is 1.
  unfoldable pub list_prepend : ℕ → D → ℕ → Head D → Head D
  list_prepend ty d size head =
      link_first head.fresh head.elements (with_element (new_element ty d size) head)

  abbrev pub insert_cells : ℕ → ℕ → (ℕ → Element D) → ℕ → Element D
  insert_cells elem prev c =
      let c1 = set_prev elem (some prev) (set_next elem (c prev).next c) in
      set_next prev (some elem) (set_prev_of (c1 prev).next (some elem) c1)

  -- cf_list_insert.
  unfoldable pub list_insert : ℕ → D → ℕ → Head D → Head D
  list_insert prev d size head =
      let h = with_element (new_element 0 d size) head in
      record h { cells = insert_cells head.fresh prev h.cells }

  -- The loop of cf_list_search, on fuel; `test` tells whether `compare` gives 0 for the data.
  unfoldable pub search_loop : ℕ → (D → Bool) → (ℕ → Element D) → Option ℕ → Option (Option D)
  search_loop fuel test c none = some none
  search_loop zero test c (some a) = none
  search_loop (suc fuel) test c (some a) =
      let rest = search_loop fuel test c (c a).next in
      if test (c a).value then some (some (c a).value) else rest

  -- cf_list_search.
  abbrev pub list_search : ℕ → (D → Bool) → Head D → Option (Option D)
  list_search fuel test head = search_loop fuel test head.cells head.elements

  abbrev pub unlink : ℕ → (ℕ → Element D) → ℕ → Element D
  unlink elem c =
      let c1 = set_next_of (c elem).prev (c elem).next c in
      set_prev_of (c1 elem).next (c1 elem).prev c1

  -- cf_list_delete.
  unfoldable pub list_delete : ℕ → Head D → Head D
  list_delete elem head =
      let c = unlink elem head.cells in
      record head {
        cells = c;
        elements = if is_at head.elements elem then (c elem).next else head.elements;
        last = if is_at head.last elem then (c elem).next else head.last;
      }

  -- The loop of cf_list_destroy, on fuel: the elements that are freed, in order. The next one is
  -- read before an element is freed.
  unfoldable pub destroy_loop : ℕ → (ℕ → Element D) → Option ℕ → Option (List (Freed D))
  destroy_loop fuel c none = some []
  destroy_loop zero c (some a) = none
  destroy_loop (suc fuel) c (some a) =
      freed_first (record { element = a; value = (c a).value; data_freed = (c a).type == 0 })
        (destroy_loop fuel c (c a).next)

  -- cf_list_destroy.
  abbrev pub list_destroy : ℕ → Head D → Option (List (Freed D))
  list_destroy fuel head = destroy_loop fuel head.cells head.elements
