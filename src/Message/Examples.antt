-- ===== src/Message/Examples.antt =====
-- A thread of src/messageutils.c, and the theorems at it.
use cforum_upto.Base.{ℕ, ◌≡◌, refl, false, some, List, [], ◌∷◌, ◌++◌}
use cforum_upto.Message.{Message, Nodes, node, nil, cons}
use cforum_upto.Message.Hierarchy.{preorder_all}
use cforum_upto.Message.Thread.{IsThread}
use cforum_upto.Message.Build.{
  build_hierarchical_structure, build_hierarchical_structure_lem, Stops,
}
use cforum_upto.Message.Filter.{filter_invisible, every, placed}

abbrev at_level : ℕ → ℕ → Message
at_level i l = record { mid = i; level = l; may_show = 1; invisible = 0 }

abbrev hidden : ℕ → ℕ → Message
hidden i l = record { mid = i; level = l; may_show = 0; invisible = 0 }

-- Two answers, the first with an answer of its own, after a jump of two levels.
built :
    build_hierarchical_structure nil
      (at_level 1 1)
      (at_level 2 3 ∷ at_level 3 2 ∷ at_level 4 1 ∷ [])
    ≡ some (
      cons
          (node
            (at_level 1 1)
            (cons (node (at_level 2 3) nil) (cons (node (at_level 3 2) nil) nil)))
          (cons (node (at_level 4 1) nil) nil),
      [],
    )
unfolding build_hierarchical_structure
built = refl

build_hierarchical_structure_lem_example :
    (ds : Nodes Message) × (rest : List Message) × (build_hierarchical_structure nil
        (at_level 1 1)
        (at_level 2 2 ∷ [])
      ≡ some (ds, rest))
    × (preorder_all ds ++ rest ≡ at_level 1 1 ∷ at_level 2 2 ∷ [])
    × IsThread 1 ds
    × Stops 1 rest
unfolding preorder_all
build_hierarchical_structure_lem_example =
    build_hierarchical_structure_lem nil (at_level 1 1) (at_level 2 2 ∷ []) tt

-- A hidden message with an answer that is shown.
abbrev answers : Nodes Message
answers =
    cons (node (at_level 2 1) (cons (node (hidden 3 2) (cons (node (at_level 4 3) nil) nil)) nil))
      nil

placed_answers :
    placed every [] (filter_invisible false (node (at_level 1 0) answers)).1
    ≡ (at_level 2 1, []) ∷ (at_level 4 3, at_level 2 1 ∷ []) ∷ []
unfolding placed filter_invisible
placed_answers = refl
