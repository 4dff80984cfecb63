-- ===== src/Message.antt =====
-- The messages of a thread and its hierarchy: src/messageutils.c with the types of src/clientlib.h.
pub mod Chain
pub mod Hierarchy
pub mod Thread
pub mod Build
pub mod Filter
mod Examples
use cforum_upto.Base.{ℕ, Bool, true, false, ◌&&◌, ◌==◌, not}

-- `cf_message_t`, with the fields that the functions here read. The pointers `next` and `prev`
-- are the places in a list.
pub record Message : Type 0 where
  pub mid : ℕ
  pub level : ℕ
  pub may_show : ℕ
  pub invisible : ℕ

-- `msg->may_show && msg->invisible == 0`
abbrev pub visible : Message → Bool
visible m = not (m.may_show == 0) && m.invisible == 0

-- `cf_hierarchical_node_t`, and the array of its `childs`. `M` is what `msg` points to.
mutual
  pub data Node (M : Type 0) : Type 0 where
    node : M → Nodes M → Node M

  pub data Nodes (M : Type 0) : Type 0 where
    nil : Nodes M
    cons : Node M → Nodes M → Nodes M
