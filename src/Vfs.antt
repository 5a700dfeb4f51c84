-- ===== src/Vfs.antt =====
-- kernel/fs/vfs.cpp: the tree of nodes. A node is a cell of a store that is a function of the address,
-- with the links as the code has them; what `kmalloc` returns is an argument, and what is given to
-- `kfree` a result. The walks along siblings have fuel.
pub mod Change
pub mod Listing
pub mod Removal
pub mod Paths
pub mod Creation
pub mod Deletion
mod Tests
use morphic_os_dev.Base.{
  ℕ, zero, suc, ◌+◌, ◌-◌, Bool, true, false, not, ◌&&◌, ◌||◌, Option, none, some, List, [], ◌∷◌,
  ◌++◌, ltb, leb, ◌==◌, if◌then◌else◌, length, take, update, sub32,
}
use morphic_os_dev.Base.Text.{bytes}
use morphic_os_dev.Runtime.{Text, Memory, kmemcpy, same_text}

pub data NodeType : Type 0 where
  file : NodeType
  directory : NodeType

-- The hook of a driver: from the node, the offset, the size, the memory and the buffer to the number of
-- bytes and the memory.
abbrev pub Hook : Type 0
Hook = ℕ → ℕ → ℕ → Memory → ℕ → ℕ × Memory

pub record VfsNode : Type 0 where
  pub name : Text
  pub type : NodeType
  pub size : ℕ
  pub data_at : Option ℕ
  pub parent : Option ℕ
  pub first_child : Option ℕ
  pub next_sibling : Option ℕ
  pub read : Option Hook
  pub write : Option Hook

pub record Vfs : Type 0 where
  pub nodes : ℕ → VfsNode
  pub root_node : Option ℕ

-- `Init`: the nodes stay as they are.
abbrev pub init_vfs : Vfs → Vfs
init_vfs v = record v { root_node = none }

abbrev pub set_root : Option ℕ → Vfs → Vfs
set_root root v = record v { root_node = root }

abbrev pub is_directory : NodeType → Bool
is_directory file = false
is_directory directory = true

-- `p == a`, and `p != nullptr`.
abbrev pub points_to : Option ℕ → ℕ → Bool
points_to none a = false
points_to (some b) a = b == a

abbrev pub is_null : Option ℕ → Bool
is_null none = true
is_null (some a) = false

-- `while (child)`.
unfoldable pub find_from : ℕ → (ℕ → VfsNode) → Option ℕ → Text → Option ℕ
find_from zero m child name = none
find_from (suc fuel) m none name = none
find_from (suc fuel) m (some a) name =
    let rest = find_from fuel m (m a).next_sibling name in
    if same_text (m a).name name then some a else rest

unfoldable pub find_child : ℕ → (ℕ → VfsNode) → Option ℕ → Text → Option ℕ
unfolding find_from
find_child fuel m none name = none
find_child fuel m (some parent) name =
    if is_directory (m parent).type then find_from fuel m (m parent).first_child name else none

abbrev pub no_text : Text → Bool
no_text [] = true
no_text (c ∷ s) = false

-- One character of the path: the node that is current after it, and the component so far.
unfoldable pub open_step : ℕ → (ℕ → VfsNode) → ℕ → ℕ → Text → Option ℕ × Text
unfolding find_child
open_step fuel m c current component =
    if c == b'/'
    then (if no_text component
        then (some current, [])
        else (find_child fuel m (some current) component, []))
    else (some current, if ltb (length component) 63 then component ++ (c ∷ []) else component)

-- `while (*path)`, and the last component.
unfoldable pub open_from : ℕ → (ℕ → VfsNode) → Text → Option ℕ → Text → Option ℕ
unfolding open_step
open_from fuel m path none component = none
open_from fuel m [] (some current) component =
    if no_text component then some current else find_child fuel m (some current) component
open_from fuel m (c ∷ path) (some current) component =
    let (current', component') = open_step fuel m c current component in
    open_from fuel m path current' component'

abbrev pub skip_slash : Text → Text
skip_slash [] = []
skip_slash (c ∷ path) = if c == b'/' then path else c ∷ path

unfoldable pub open_path : ℕ → Vfs → Option Text → Option ℕ
unfolding open_from
open_path fuel v none = none
open_path fuel v (some path) =
    if is_null v.root_node
    then none
    else if same_text path (bytes "/")
    then v.root_node
    else open_from fuel v.nodes (skip_slash path) v.root_node []

-- `Read`; the node and the buffer may be null.
unfoldable pub read_node : (ℕ → VfsNode) → Memory → Option ℕ → ℕ → ℕ → Option ℕ → ℕ × Memory
unfolding kmemcpy
read_node m mem none offset size buffer = (0, mem)
read_node m mem (some a) offset size none = (0, mem)
read_node m mem (some a) offset size (some buffer) =
    let n = m a in
    let available = sub32 n.size offset in
    let to_read = if ltb size available then size else available in
    if is_directory n.type then (0, mem) else elim n.read [
      | some hook ↦ hook a offset size mem buffer
      | none ↦ elim n.data_at [
        | none ↦ (0, mem)
        | some d ↦
            if leb n.size offset
            then (0, mem)
            else (to_read, kmemcpy mem buffer (d + offset) to_read)
      ]
    ]

unfoldable pub write_node : (ℕ → VfsNode) → Memory → Option ℕ → ℕ → ℕ → Option ℕ → ℕ × Memory
write_node m mem none offset size buffer = (0, mem)
write_node m mem (some a) offset size none = (0, mem)
write_node m mem (some a) offset size (some buffer) =
    if is_directory (m a).type
    then (0, mem)
    else elim (m a).write [ some hook ↦ hook a offset size mem buffer | none ↦ (0, mem) ]

unfoldable pub has_slash : Text → Bool
has_slash [] = false
has_slash (c ∷ path) = if c == b'/' then true else has_slash path
