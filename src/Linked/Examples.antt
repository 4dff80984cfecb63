-- ===== src/Linked/Examples.antt =====
-- Lists of src/listutils.c with numbers for data.
use cforum_upto.Base.{ℕ, ◌≡◌, ◌↔◌, ◌⊎◌, ◌≢◌, refl, some, List, [], ◌∷◌, ◌==◌, arith}
use cforum_upto.Linked.{
  Head, list_init, new_element, list_append, list_insert, list_delete, search_loop, list_search,
}
use cforum_upto.Linked.Segment.{last_or}
use cforum_upto.Linked.Lists.{IsList, values}
use cforum_upto.Linked.Operations.{list_append-IsList}
use cforum_upto.Linked.Insert.{list_insert_iff}
use cforum_upto.Linked.Delete.{list_delete_iff, list_append-list_delete}
use cforum_upto.Linked.Segment.{Distinct}
use cforum_upto.Linked.{list_destroy}
use cforum_upto.Linked.Destroy.{Destroyed, list_destroy-Destroyed}
use cforum_upto.Linked.Run.{
  Call, appending, prepending, deleting_first, run, replay, HasData, run-HasData,
}

abbrev empty : Head ℕ
empty = list_init (λ j. new_element 0 0 0) 0

empty-IsList : IsList empty []
unfolding last_or
empty-IsList = (refl, refl, tt, tt, tt)

abbrev calls : List (Call ℕ)
calls = appending 0 5 8 ∷ prepending 1 6 8 ∷ deleting_first ∷ appending 0 7 8 ∷ []

after_calls : replay calls [] ≡ 5 ∷ 7 ∷ []
after_calls = refl

run-HasData_example : HasData (run calls empty) (replay calls [])
run-HasData_example = run-HasData calls empty [] ([], empty-IsList, refl)

-- 5 and 7 at the addresses 0 and 1.
abbrev pair : Head ℕ
pair = list_append 0 7 8 (list_append 0 5 8 empty)

pair-IsList : IsList pair (0 ∷ 1 ∷ [])
unfolding list_append
pair-IsList =
    (list_append-IsList 0 7 8 (list_append 0 5 8 empty) (0 ∷ [])
      (list_append-IsList 0 5 8 empty [] empty-IsList).0).0

abbrev no_others : List ℕ
no_others = []

abbrev last_one : List ℕ
last_one = 1 ∷ []

list_insert_iff_example :
    IsList (list_insert 0 9 8 pair) (0 ∷ pair.fresh ∷ 1 ∷ []) ↔ (last_one ≢ [])
unfolding last_or
list_insert_iff_example = list_insert_iff 0 9 8 pair (0 ∷ []) (1 ∷ []) pair-IsList refl

list_delete_iff_example :
    IsList (list_delete 0 pair) (1 ∷ []) ↔ ((no_others ≡ []) ⊎ (last_one ≢ []))
list_delete_iff_example = list_delete_iff 0 pair [] (1 ∷ []) pair-IsList

list_append-list_delete_example :
    IsList (list_append 0 3 8 (list_delete 1 pair)) ((list_delete 1 pair).fresh ∷ [])
    × (values (list_append 0 3 8 (list_delete 1 pair)).cells ((list_delete 1 pair).fresh ∷ [])
        ≡ 3 ∷ [])
list_append-list_delete_example = list_append-list_delete 1 pair (0 ∷ []) 0 3 8 pair-IsList

found : list_search 2 (λ n. n == 7) pair ≡ some (some 7)
unfolding list_append search_loop
found = refl

list_destroy-Destroyed_example :
    Destroyed pair.cells (0 ∷ 1 ∷ []) (list_destroy 2 pair) × Distinct (0 ∷ 1 ∷ [])
list_destroy-Destroyed_example =
    list_destroy-Destroyed 2 pair (0 ∷ 1 ∷ []) pair-IsList (omega arith)
