-- ===== src/Message/Chain.antt =====
-- The walks along the chain of messages in src/messageutils.c. A pointer into the chain is the
-- list of the messages from there on, along `next` or along `prev`; `[]` is NULL.
use cforum_upto.Base.{
  ℕ, ◌+◌, ◌≤◌, ◌<◌, ◌≡◌, ◌≢◌, refl, ap, ◌∙◌, Bool, true, false, ◌||◌, Bool-cases, ◌⊎◌, inl, inr,
  Option, none, some, List, [], ◌∷◌, ◌++◌, map, ltb, ltb→lt, lt→ltb, ◌==◌, if◌then◌else◌, arith,
}
use cforum_upto.Message.{Message, visible}

-- The loop of cf_msg_get_first_visible; `m` is what is returned behind the end.
unfoldable pub first_visible : Message → List Message → Message
first_visible m [] = m
first_visible m (x ∷ xs) = let rest = first_visible m xs in if visible x then x else rest

unfoldable pub get_first_visible : Message → List Message → Message
unfolding first_visible
get_first_visible m ms = if visible m then m else first_visible m (m ∷ ms)

-- The loop `msg && msg->level > lvl`, which cf_msg_next_subtree runs along `next` and
-- cf_msg_prev_subtree along `prev`.
unfoldable pub skip_subtree : ℕ → List Message → List Message
skip_subtree lvl [] = []
skip_subtree lvl (x ∷ xs) =
    let rest = skip_subtree lvl xs in if ltb lvl x.level then rest else x ∷ xs

unfoldable pub next_subtree : Message → List Message → List Message
unfolding skip_subtree
next_subtree m ms = skip_subtree m.level ms

unfoldable pub prev_subtree : Message → List Message → List Message
unfolding skip_subtree
prev_subtree m ms = skip_subtree m.level ms

-- The loop of cf_msg_delete_subtree: the messages that it passes, as it leaves them, and the
-- returned pointer.
unfoldable pub delete_loop : ℕ → List Message → List Message × List Message
delete_loop lvl [] = ([], [])
delete_loop lvl (x ∷ xs) =
    let rest = delete_loop lvl xs in
    if ltb lvl x.level then (record x { may_show = 0 } ∷ rest.0, rest.1) else ([], x ∷ xs)

unfoldable pub delete_subtree : Message → List Message → List Message × List Message
unfolding delete_loop
delete_subtree m ms = delete_loop m.level ms

-- cf_msg_get_parent along `prev`, from the message itself on. Levels are `int` there, so that
-- `level - 1` is never the level of a message where `level` is 0.
unfoldable pub parent_loop : ℕ → List Message → Option Message
parent_loop lvl [] = none
parent_loop lvl (x ∷ xs) =
    let rest = parent_loop lvl xs in if x.level + 1 == lvl then some x else rest

unfoldable pub get_parent : Message → List Message → Option Message
unfolding parent_loop
get_parent m before = parent_loop m.level (m ∷ before)

-- The loop of cf_msg_has_answers to the next message that is not hidden.
unfoldable pub skip_hidden : List Message → List Message
skip_hidden [] = []
skip_hidden (x ∷ xs) =
    let rest = skip_hidden xs in if x.may_show == 0 || x.invisible == 1 then rest else x ∷ xs

-- What cf_msg_has_answers makes of the message where its loop stops.
abbrev answer_at : ℕ → List Message → Bool
answer_at lvl [] = false
answer_at lvl (x ∷ xs) = if x.invisible == 1 || x.may_show == 0 then false else ltb lvl x.level

-- cf_msg_has_answers, with the test of `GlobalValues` as an argument.
unfoldable pub has_answers : Bool → Message → List Message → Bool
unfolding skip_hidden
has_answers show_invisible m [] = false
has_answers show_invisible m (x ∷ xs) =
    if visible x || show_invisible
    then ltb m.level x.level
    else answer_at m.level (skip_hidden (x ∷ xs))

abbrev pub All {κ} : (Message → Type κ) → List Message → Type κ
All P [] = Unit
All P (x ∷ xs) = P x × All P xs

-- The chain starts with a message that is not under the level `lvl`, or is at its end.
abbrev pub Leaves : ℕ → List Message → Type 0
Leaves lvl [] = Unit
Leaves lvl (x ∷ xs) = x.level ≤ lvl

-- A subtree of the level `lvl` is cut off the chain `ms`.
record Cut (lvl : ℕ) (ms rest : List Message) : Type 0 where
  below : List Message
  split : below ++ rest ≡ ms
  deeper : All (λ x. lvl < x.level) below
  leaves : Leaves lvl rest

Cut-cons :
    (lvl : ℕ) (x : Message) (ms rest : List Message)
    → lvl < x.level
    → Cut lvl ms rest
    → Cut lvl (x ∷ ms) rest
Cut-cons lvl x ms rest h c = record {
  below = x ∷ c.below;
  split = ap (λ l. x ∷ l) c.split;
  deeper = (h, c.deeper);
  leaves = c.leaves;
}

skip_subtree-Cut : (lvl : ℕ) (ms : List Message) → Cut lvl ms (skip_subtree lvl ms)
unfolding skip_subtree
skip_subtree-Cut lvl [] = record { below = []; split = refl; deeper = tt; leaves = tt }
skip_subtree-Cut lvl (x ∷ xs) = elim (Bool-cases (ltb lvl x.level)) [
  | inl e ↦ rw e (Cut-cons lvl x xs _ (ltb→lt _ _ e) (skip_subtree-Cut lvl xs))
  | inr e ↦ rw e (record { below = []; split = refl; deeper = tt; leaves = ground arith })
]

-- cf_msg_next_subtree passes exactly the messages under `m`: all that it passes are deeper than
-- `m`, and it stops at the first that is not, or behind the last.
pub next_subtree_lem :
    (m : Message) (ms : List Message)
    → (below : List Message) × (below ++ next_subtree m ms ≡ ms)
      × All (λ x. m.level < x.level) below
      × Leaves m.level (next_subtree m ms)
unfolding next_subtree
next_subtree_lem m ms =
    let c = skip_subtree-Cut m.level ms in (c.below, c.split, c.deeper, c.leaves)

-- `xs` after cf_msg_delete_subtree has passed it.
abbrev pub hide : Message → Message
hide x = record x { may_show = 0 }

delete_loop_lem :
    (lvl : ℕ) (xs rest : List Message)
    → All (λ x. lvl < x.level) xs
    → Leaves lvl rest
    → delete_loop lvl (xs ++ rest) ≡ (map hide xs, rest)
unfolding delete_loop
delete_loop_lem lvl [] [] a l = refl
delete_loop_lem lvl [] (r ∷ rest) a l = ground arith
delete_loop_lem lvl (x ∷ xs) rest a l = rw (lt→ltb _ _ a.0, delete_loop_lem lvl xs rest a.1 l)

-- cf_msg_delete_subtree hides the messages under `m`, changes nothing else of them and nothing
-- else, and returns what follows the subtree.
pub delete_subtree_lem :
    (m : Message) (below rest : List Message)
    → All (λ x. m.level < x.level) below
    → Leaves m.level rest
    → delete_subtree m (below ++ rest) ≡ (map hide below, rest)
unfolding delete_subtree
delete_subtree_lem m below rest a l = delete_loop_lem m.level below rest a l

parent_loop_lem :
    (lvl : ℕ) (xs : List Message) (p : Message) (ys : List Message)
    → All (λ x. x.level + 1 ≢ lvl) xs
    → p.level + 1 ≡ lvl
    → parent_loop lvl (xs ++ p ∷ ys) ≡ some p
unfolding parent_loop
parent_loop_lem lvl [] p ys a e = ground arith
parent_loop_lem lvl (x ∷ xs) p ys a e = ground (arith, parent_loop_lem lvl xs p ys a.1 e)

-- cf_msg_get_parent returns the nearest message before `m` that is one level above it.
pub get_parent_lem :
    (m : Message) (xs : List Message) (p : Message) (ys : List Message)
    → All (λ x. x.level + 1 ≢ m.level) xs
    → p.level + 1 ≡ m.level
    → get_parent m (xs ++ p ∷ ys) ≡ some p
unfolding get_parent
get_parent_lem m xs p ys a e = parent_loop_lem m.level (m ∷ xs) p ys (omega arith, a) e

-- Hidden messages: those that the loop of cf_msg_has_answers passes.
abbrev pub IsHidden : Message → Type 0
IsHidden x = (x.may_show ≡ 0) ⊎ (x.invisible ≡ 1)

skip_hidden_lem :
    (xs rest : List Message) → All IsHidden xs → skip_hidden (xs ++ rest) ≡ skip_hidden rest
unfolding skip_hidden
skip_hidden_lem [] rest a = refl
skip_hidden_lem (x ∷ xs) rest a = ground (arith, skip_hidden_lem xs rest a.1)

skip_hidden-All : (xs : List Message) → All IsHidden xs → skip_hidden xs ≡ []
unfolding skip_hidden
skip_hidden-All [] a = refl
skip_hidden-All (x ∷ xs) a = ground (arith, skip_hidden-All xs a.1)

skip_hidden-visible :
    (y : Message) (ys : List Message) → visible y ≡ true → skip_hidden (y ∷ ys) ≡ y ∷ ys
unfolding skip_hidden
skip_hidden-visible y ys v = ground arith

IsHidden-visible : (x : Message) → IsHidden x → visible x ≡ false
IsHidden-visible x h = ground arith

-- Without ShowInvisible, cf_msg_has_answers looks at the first message behind `m` that is shown,
-- and tells whether it is deeper than `m`; if all messages behind `m` are hidden it returns 0.
pub has_answers_lem :
    (m : Message) (xs : List Message) (y : Message) (ys : List Message)
    → All IsHidden xs
    → visible y ≡ true
    → (has_answers false m xs ≡ false) × (has_answers false m (xs ++ y ∷ ys) ≡ ltb m.level y.level)
unfolding has_answers
has_answers_lem m [] y ys a v = (refl, rw v)
has_answers_lem m (x ∷ xs) y ys a v =
    let gone = skip_hidden_lem (x ∷ xs) (y ∷ ys) a ∙ skip_hidden-visible y ys v in
    (
      rw (IsHidden-visible x a.0, skip_hidden-All (x ∷ xs) a),
      rw (IsHidden-visible x a.0, gone) (ground arith),
    )

first_visible-none :
    (m : Message) (xs : List Message) → All (λ x. visible x ≡ false) xs → first_visible m xs ≡ m
unfolding first_visible
first_visible-none m [] a = refl
first_visible-none m (x ∷ xs) a = rw (a.0) (first_visible-none m xs a.1)

first_visible_lem :
    (m : Message) (xs : List Message) (y : Message) (ys : List Message)
    → All (λ x. visible x ≡ false) xs
    → visible y ≡ true
    → first_visible m (xs ++ y ∷ ys) ≡ y
unfolding first_visible
first_visible_lem m [] y ys a v = rw v
first_visible_lem m (x ∷ xs) y ys a v = rw (a.0) (first_visible_lem m xs y ys a.1 v)

-- cf_msg_get_first_visible returns the first message from `m` on that is shown, and `m` itself
-- if there is none.
pub get_first_visible_lem :
    (m : Message) (xs : List Message) (y : Message) (ys : List Message)
    → All (λ x. visible x ≡ false) (m ∷ xs)
    → visible y ≡ true
    → (get_first_visible m xs ≡ m) × (get_first_visible m (xs ++ y ∷ ys) ≡ y)
unfolding get_first_visible
get_first_visible_lem m xs y ys a v =
    (rw (a.0, first_visible-none m xs a.1), rw (a.0, first_visible_lem m xs y ys a.1 v))
