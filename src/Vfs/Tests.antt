-- ===== src/Vfs/Tests.antt =====
-- Runs of the virtual file system, and instances of the theorems.
use morphic_os_dev.Base.{
  ℕ, ◌≡◌, refl, true, false, Option, none, some, [], ◌∷◌, ◌==◌, if◌then◌else◌, arith,
}
use morphic_os_dev.Base.Text.{bytes}
use morphic_os_dev.Runtime.{Text, kstrcmp}
use morphic_os_dev.Runtime.Strings.{NoNul}
use morphic_os_dev.Vfs.{
  VfsNode, NodeType, file, directory, Vfs, open_path, open_from, open_step, find_child, find_from,
  has_slash,
}
use morphic_os_dev.Vfs.Change.{create_file, create, delete, rename}
use morphic_os_dev.Vfs.Paths.{RootDir}
use morphic_os_dev.Vfs.Creation.{Created, create_file-Created}
use morphic_os_dev.Vfs.Deletion.{Deleted, delete-Deleted}

abbrev node : Text → NodeType → Option ℕ → Option ℕ → Option ℕ → VfsNode
node name type parent child next = record {
  name = name;
  type = type;
  size = 0;
  data_at = none;
  parent = parent;
  first_child = child;
  next_sibling = next;
  read = none;
  write = none;
}

-- The root is at 1, and a file "a" at 2.
abbrev one_file : Vfs
one_file = record {
  nodes = λ x.
      if x == 1
      then node (bytes "/") directory none (some 2) none
      else node (bytes "a") file (some 1) none none;
  root_node = some 1;
}

no_nul : (c : ℕ) → (c == 0) ≡ false → NoNul (c ∷ [])
no_nul c e = (ground (arith, e), tt)

one_file-RootDir : RootDir one_file 1 (2 ∷ [])
one_file-RootDir = record {
  root = refl;
  is_dir = refl;
  listing = (refl, refl);
  apart = (omega arith, tt);
  distinct = (tt, tt);
  children = (no_nul b'a' refl, refl, tt);
}

create_file-Created_example :
    Created file 3 one_file 1
      (2 ∷ [])
      (bytes "b")
      (some 3)
      (create_file 3 (some (bytes "/b")) (some 3) one_file)
unfolding has_slash
create_file-Created_example =
    create_file-Created 3 one_file 1 (2 ∷ []) (bytes "b") (some 3) one_file-RootDir (omega arith)
      refl (no_nul b'b' refl) (omega arith, (omega arith, tt))

delete-Deleted_example :
    Deleted one_file 1 (2 ∷ []) (bytes "a") (delete 3 (some (bytes "/a")) one_file)
unfolding has_slash
delete-Deleted_example =
    delete-Deleted 3 one_file 1 (2 ∷ []) (bytes "a") one_file-RootDir (omega arith) refl
      (no_nul b'a' refl)

-- Two nodes of one name: `Rename` does not look for the new one.
renamed :
    (rename 3
      (some (bytes "/b"))
      (bytes "/a")
      (create_file 3 (some (bytes "/b")) (some 3) one_file).1).0
    ≡ true
unfolding rename create_file create open_path open_from open_step find_child find_from has_slash
    kstrcmp
renamed = refl
