-- ===== src/Message/Filter.antt =====
-- cf_msg_filter_invisible of src/messageutils.c.
use cforum_upto.Base.{Bool, true, ◌||◌, Option, none, some, List, [], ◌∷◌, ◌++◌, if◌then◌else◌}
use cforum_upto.Message.{Message, visible, Node, Nodes, node, nil, cons}
use cforum_upto.Message.Hierarchy.{push}

-- `si || (msg->invisible == 0 && msg->may_show)`
abbrev pub shown : Bool → Message → Bool
shown si m = si || visible m

-- _cf_msg_filter_invisible on the children of `ht`; `ary` is the array of the target node.
unfoldable pub filter_childs : Bool → Nodes Message → Nodes Message → Nodes Message
filter_childs si nil ary = ary
filter_childs si (cons (node m cs) rest) ary =
    filter_childs si rest
      (if shown si m then push ary (node m (filter_childs si cs nil)) else filter_childs si cs ary)

-- cf_msg_filter_invisible: the message of the target node, NULL where it is hidden, and its
-- children.
unfoldable pub filter_invisible : Bool → Node Message → Option Message × Nodes Message
unfolding filter_childs
filter_invisible si (node m cs) = (if shown si m then some m else none, filter_childs si cs nil)

-- A message, and the messages above it from the top down.
abbrev pub Placed : Type 0
Placed = Message × List Message

abbrev pub below : (Message → Bool) → Message → List Message → List Message
below p m above = if p m then above ++ m ∷ [] else above

-- Each message of a tree in the order of the tree, with those of the messages above it that `p`
-- takes.
unfoldable pub placed : (Message → Bool) → List Message → Nodes Message → List Placed
placed p above nil = []
placed p above (cons (node m cs) rest) =
    (m, above) ∷ placed p (below p m above) cs ++ placed p above rest

abbrev pub every : Message → Bool
every m = true

-- The messages that `p` takes.
abbrev pub keep : (Message → Bool) → List Placed → List Placed
keep p [] = []
keep p (m ∷ ms) = let rest = keep p ms in if p m.0 then m ∷ rest else rest
