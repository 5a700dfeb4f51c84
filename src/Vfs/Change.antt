-- ===== src/Vfs/Change.antt =====
-- kernel/fs/vfs.cpp: the operations that change the tree, and those that list it.
use morphic_os_dev.Base.{
  ℕ, zero, suc, Bool, true, false, not, Option, none, some, List, [], ◌∷◌, ◌++◌, ◌==◌,
  if◌then◌else◌, take, update,
}
use morphic_os_dev.Runtime.{Text}
use morphic_os_dev.Vfs.{
  NodeType, file, directory, VfsNode, Vfs, is_directory, points_to, is_null, find_child, skip_slash,
  open_path, has_slash,
}

-- The new node of either type.
abbrev pub new_node : NodeType → Text → ℕ → Vfs → VfsNode
new_node type path root v = record {
  name = take 63 path;
  type = type;
  size = 0;
  data_at = none;
  parent = some root;
  first_child = none;
  next_sibling = (v.nodes root).first_child;
  read = none;
  write = none;
}

-- It stands before the children of the root.
abbrev pub add_node : NodeType → Text → ℕ → ℕ → Vfs → Vfs
add_node type path root a v =
    let m = update v.nodes a (new_node type path root v) in
    record v { nodes = update m root (record (m root) { first_child = some a }) }

-- What `CreateFile` and `Mkdir` do with the path behind the slash; `allocated` is what `kmalloc` returns.
unfoldable pub create : NodeType → ℕ → Text → Option ℕ → Vfs → Option ℕ × Vfs
unfolding has_slash find_child
create type fuel path allocated v =
    if has_slash path
    then (none, v)
    else if not (is_null (find_child fuel v.nodes v.root_node path))
    then (none, v)
    else elim v.root_node [
      | none ↦ (none, v)
      | some root ↦ elim allocated [
        | none ↦ (none, v)
        | some a ↦ (some a, add_node type path root a v)
      ]
    ]

unfoldable pub create_file : ℕ → Option Text → Option ℕ → Vfs → Option ℕ × Vfs
unfolding create
create_file fuel none allocated v = (none, v)
create_file fuel (some path) allocated v =
    if is_null v.root_node then (none, v) else create file fuel (skip_slash path) allocated v

unfoldable pub mkdir : ℕ → Option Text → Option ℕ → Vfs → Option ℕ × Vfs
unfolding create
mkdir fuel none allocated v = (none, v)
mkdir fuel (some path) allocated v =
    if is_null v.root_node then (none, v) else create directory fuel (skip_slash path) allocated v

-- `while (prev && prev->nextSibling != node)`.
unfoldable pub find_prev : ℕ → (ℕ → VfsNode) → Option ℕ → ℕ → Option ℕ
find_prev zero m prev a = none
find_prev (suc fuel) m none a = none
find_prev (suc fuel) m (some p) a =
    let rest = find_prev fuel m (m p).next_sibling a in
    if points_to (m p).next_sibling a then some p else rest

-- The node leaves the list of its parent's children.
unfoldable pub unlink : ℕ → (ℕ → VfsNode) → ℕ → ℕ → ℕ → VfsNode
unfolding find_prev
unlink fuel m parent a =
    if points_to (m parent).first_child a
    then update m parent (record (m parent) { first_child = (m a).next_sibling })
    else elim (find_prev fuel m (m parent).first_child a) [
      | none ↦ m
      | some p ↦ update m p (record (m p) { next_sibling = (m a).next_sibling })
    ]

-- What was done, the tree, and what was given to `kfree`.
abbrev pub Removal : Type 0
Removal = Bool × Vfs × List ℕ

abbrev pub freed_data : Option ℕ → List ℕ
freed_data none = []
freed_data (some d) = d ∷ []

-- `Delete` of the node that was opened.
unfoldable pub delete_node : ℕ → Vfs → Option ℕ → Removal
unfolding unlink
delete_node fuel v none = (false, v, [])
delete_node fuel v (some a) =
    if points_to v.root_node a
    then (false, v, [])
    else if is_directory (v.nodes a).type
    then (false, v, [])
    else elim (v.nodes a).parent [
      | none ↦ (false, v, [])
      | some parent ↦ (
        true,
        record v { nodes = unlink fuel v.nodes parent a },
        freed_data (v.nodes a).data_at ++ (a ∷ []),
      )
    ]

unfoldable pub delete : ℕ → Option Text → Vfs → Removal
unfolding delete_node open_path
delete fuel path v = delete_node fuel v (open_path fuel v path)

unfoldable pub rmdir_node : ℕ → Vfs → Option ℕ → Removal
unfolding unlink
rmdir_node fuel v none = (false, v, [])
rmdir_node fuel v (some a) =
    if points_to v.root_node a
    then (false, v, [])
    else if not (is_directory (v.nodes a).type)
    then (false, v, [])
    else if not (is_null (v.nodes a).first_child)
    then (false, v, [])
    else elim (v.nodes a).parent [
      | none ↦ (false, v, [])
      | some parent ↦ (true, record v { nodes = unlink fuel v.nodes parent a }, a ∷ [])
    ]

unfoldable pub rmdir : ℕ → Option Text → Vfs → Removal
unfolding rmdir_node open_path
rmdir fuel path v = rmdir_node fuel v (open_path fuel v path)

unfoldable pub rename : ℕ → Option Text → Text → Vfs → Bool × Vfs
unfolding open_path
rename fuel old_path new_path v = elim (open_path fuel v old_path) [
  | none ↦ (false, v)
  | some a ↦ if points_to v.root_node a then (false, v) else (
    true,
    record v {
      nodes = update v.nodes a (record (v.nodes a) { name = take 63 (skip_slash new_path) });
    },
  )
]

pub record FileStat : Type 0 where
  pub name : Text
  pub type : NodeType
  pub size : ℕ
  pub created : ℕ
  pub modified : ℕ
  pub accessed : ℕ
  pub mode : ℕ

-- `has_stat` is whether the caller gives a place for the result.
unfoldable pub stat : ℕ → Option Text → Bool → Vfs → Option FileStat
unfolding open_path
stat fuel path has_stat v = elim (open_path fuel v path) [
  | none ↦ none
  | some a ↦
      if has_stat
      then some (record {
        name = take 63 (v.nodes a).name;
        type = (v.nodes a).type;
        size = (v.nodes a).size;
        created = 0;
        modified = 0;
        accessed = 0;
        mode = 493;
      })
      else none
]

unfoldable pub count_children : ℕ → (ℕ → VfsNode) → Option ℕ → ℕ
count_children zero m child = 0
count_children (suc fuel) m none = 0
count_children (suc fuel) m (some a) = suc (count_children fuel m (m a).next_sibling)

-- `for (i = 0; i < count && child; i++)`.
unfoldable pub fill_array : ℕ → (ℕ → VfsNode) → Option ℕ → List ℕ
fill_array zero m child = []
fill_array (suc count) m none = []
fill_array (suc count) m (some a) = a ∷ fill_array count m (m a).next_sibling

-- The array, null if the allocation fails, and the count; the caller gives a place for the count.
unfoldable pub list_dir : ℕ → (ℕ → VfsNode) → Option ℕ → Bool → Option (List ℕ) × ℕ
unfolding count_children fill_array
list_dir fuel m none allocated = (none, 0)
list_dir fuel m (some a) allocated =
    if not (is_directory (m a).type)
    then (none, 0)
    else (let count = count_children fuel m (m a).first_child in
        if count == 0
        then (none, 0)
        else if allocated
        then (some (fill_array count m (m a).first_child), count)
        else (none, 0))
