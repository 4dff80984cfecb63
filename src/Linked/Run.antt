-- ===== src/Linked/Run.antt =====
-- Runs of the calls of src/listutils.c that add elements at the ends of a list and delete the first.
use cforum_upto.Base.{ℕ, ◌≡◌, refl, ap, ◌∙◌, Option, none, some, List, [], ◌∷◌, ◌++◌, drop}
use cforum_upto.Linked.{Head, list_append, list_prepend, list_delete}
use cforum_upto.Linked.Segment.{first_or}
use cforum_upto.Linked.Lists.{IsList, values}
use cforum_upto.Linked.Operations.{list_append-IsList, list_prepend-IsList}
use cforum_upto.Linked.Delete.{list_delete-Deleted}

-- The first two with the type, the data and their size.
pub data Call {ℓ} (D : Type ℓ) : Type ℓ where
  appending : ℕ → D → ℕ → Call D
  prepending : ℕ → D → ℕ → Call D
  deleting_first : Call D

module _ {ℓ} {D : Type ℓ} where
  -- The call on the element that `elements` points to, if there is one.
  abbrev pub delete_at : Option ℕ → Head D → Head D
  delete_at none h = h
  delete_at (some a) h = list_delete a h

  abbrev pub call : Call D → Head D → Head D
  call (appending ty d size) h = list_append ty d size h
  call (prepending ty d size) h = list_prepend ty d size h
  call deleting_first h = delete_at h.elements h

  abbrev pub run : List (Call D) → Head D → Head D
  run [] h = h
  run (c ∷ cs) h = run cs (call c h)

  -- What a call does to the data in order.
  abbrev pub effect : Call D → List D → List D
  effect (appending ty d size) ds = ds ++ d ∷ []
  effect (prepending ty d size) ds = d ∷ ds
  effect deleting_first ds = drop 1 ds

  abbrev pub replay : List (Call D) → List D → List D
  replay [] ds = ds
  replay (c ∷ cs) ds = replay cs (effect c ds)

  -- The head has a list with these data.
  abbrev pub HasData : Head D → List D → Type ℓ
  HasData h ds = (xs : List ℕ) × IsList h xs × (values h.cells xs ≡ ds)

  delete_at-HasData :
      (o : Option ℕ) (h : Head D) (xs : List ℕ)
      → o ≡ first_or xs none
      → IsList h xs
      → HasData (delete_at o h) (drop 1 (values h.cells xs))
  delete_at-HasData o h [] at is = rw at ([], is, refl)
  delete_at-HasData o h (x ∷ xs) at is =
      let d = list_delete-Deleted x h [] xs is in rw at (xs, (d.0, d.1, d.2, d.4, d.5), d.3)

  call-HasData :
      (c : Call D) (h : Head D) (ds : List D) → HasData h ds → HasData (call c h) (effect c ds)
  call-HasData (appending ty d size) h ds (xs, is, same) =
      let k = list_append-IsList ty d size h xs is in
      (xs ++ h.fresh ∷ [], k.0, k.1 ∙ ap (λ es. es ++ d ∷ []) same)
  call-HasData (prepending ty d size) h ds (xs, is, same) =
      let k = list_prepend-IsList ty d size h xs is in
      (h.fresh ∷ xs, k.0, k.1 ∙ ap (λ es. d ∷ es) same)
  call-HasData deleting_first h ds (xs, is, same) =
      rw (← same) (delete_at-HasData h.elements h xs is.0 is)

  -- Any run of cf_list_append, cf_list_prepend, their static forms, and cf_list_delete on the first
  -- element, from a list with the data `ds`, ends with a list, linked in both directions, whose
  -- data are those of the same run on `ds`.
  pub run-HasData :
      (cs : List (Call D)) (h : Head D) (ds : List D)
      → HasData h ds
      → HasData (run cs h) (replay cs ds)
  run-HasData [] h ds is = is
  run-HasData (c ∷ cs) h ds is = run-HasData cs (call c h) (effect c ds) (call-HasData c h ds is)
