-- ===== src/Vfs/Deletion.antt =====
-- What `Delete` of kernel/fs/vfs.cpp makes of the root directory.
use mathlib.Core.Path.{subst}
use morphic_os_dev.Base.{
  ℕ, ◌≡◌, ◌≤◌, refl, sym, ap, ◌∙◌, ◌⊎◌, inl, inr, true, false, Option, none, some, List, [], ◌∷◌,
  ◌++◌, length, arith, Bool-cases,
}
use morphic_os_dev.Runtime.{Text}
use morphic_os_dev.Runtime.Strings.{NoNul}
use morphic_os_dev.Vfs.{Vfs, VfsNode, NodeType, is_directory, open_path, points_to}
use morphic_os_dev.Vfs.Change.{delete_node, delete, unlink, Removal, freed_data}
use morphic_os_dev.Vfs.Listing.{In, remove, Children, NoneNamed, Lookup, NotIn-In}
use morphic_os_dev.Vfs.Removal.{Kept, unlink-Unlinked, NotIn-remove, Distinct-remove}
use morphic_os_dev.Vfs.Paths.{is_name, RootDir, open_path-Lookup}

-- Nothing is done.
abbrev pub Unchanged : Vfs → Removal → Type 0
Unchanged v (ok, v', freed) = (ok ≡ false) × (v' ≡ v) × (freed ≡ [])

-- The child has left the directory, the other nodes keep their names and types, and the node and its
-- data are freed.
abbrev pub Gone : Vfs → ℕ → List ℕ → ℕ → Removal → Type 0
Gone v r xs x (ok, v', freed) =
    (ok ≡ true)
    × RootDir v' r (remove x xs)
    × Kept v.nodes v'.nodes
    × (freed ≡ freed_data (v.nodes x).data_at ++ (x ∷ []))

-- No child has the name; or one has it, and is a directory, or is gone.
abbrev pub Deleted : Vfs → ℕ → List ℕ → Text → Removal → Type 0
Deleted v r xs w d =
    (NoneNamed v.nodes w xs × Unchanged v d)
    ⊎ ((x : ℕ) × In x xs
        × ((v.nodes x).name ≡ w)
        × (((is_directory (v.nodes x).type ≡ true) × Unchanged v d)
            ⊎ ((is_directory (v.nodes x).type ≡ false) × Gone v r xs x d)))

Children-parent :
    (m : ℕ → VfsNode) (r x : ℕ) (xs : List ℕ) → Children m r xs → In x xs → (m x).parent ≡ some r
Children-parent m r x [] c i = elim i [ ]
Children-parent m r x (y ∷ ys) (n, e, c) (inl h) = ap (λ z. (m z).parent) h ∙ e
Children-parent m r x (y ∷ ys) (n, e, c) (inr i) = Children-parent m r x ys c i

module _ (fuel : ℕ) (v : Vfs) (r : ℕ) (xs : List ℕ) (x : ℕ) (d : RootDir v r xs) (i : In x xs) where
  -- The child is not the root.
  not_root : points_to v.root_node x ≡ false
  not_root =
      let ne = NotIn-In r x xs d.apart i in
      ap (λ (o : Option ℕ). points_to o x) d.root ∙ ground (arith, ne)

  delete_node_directory :
      is_directory (v.nodes x).type ≡ true → delete_node fuel v (some x) ≡ (false, v, [])
  unfolding delete_node
  delete_node_directory e = rw (not_root, e, delete_node) refl

  delete_node_file :
      is_directory (v.nodes x).type ≡ false
      → delete_node fuel v (some x) ≡ (
        true,
        record v { nodes = unlink fuel v.nodes r x },
        freed_data (v.nodes x).data_at ++ (x ∷ []),
      )
  unfolding delete_node
  delete_node_file e =
      let parent = Children-parent v.nodes r x xs d.children i in
      rw (not_root, e, delete_node) (rw parent refl)

  file-Gone :
      length xs ≤ fuel
      → is_directory (v.nodes x).type ≡ false
      → Gone v r xs x (delete_node fuel v (some x))
  file-Gone le e =
      let (l, c, k) =
        unlink-Unlinked fuel v.nodes r x xs le d.apart d.distinct d.children d.listing i in
      subst (Gone v r xs x) (sym (delete_node_file e)) (
        refl,
        record {
          root = d.root;
          is_dir = ap (λ (t : Text × NodeType × Option ℕ). is_directory t.1) (k r) ∙ d.is_dir;
          listing = l;
          apart = NotIn-remove r x xs d.apart;
          distinct = Distinct-remove x xs d.distinct;
          children = c;
        },
        k,
        refl,
      )

delete_node-Deleted :
    (fuel : ℕ) (v : Vfs) (r : ℕ) (xs : List ℕ) (w : Text) (found : Option ℕ)
    → RootDir v r xs
    → length xs ≤ fuel
    → Lookup v.nodes w xs found
    → Deleted v r xs w (delete_node fuel v found)
unfolding delete_node
delete_node-Deleted fuel v r xs w none d le l = inl (l, (refl, refl, refl))
delete_node-Deleted fuel v r xs w (some x) d le (i, e) =
    elim (Bool-cases (is_directory (v.nodes x).type)) [
      | inl t ↦
          subst (Deleted v r xs w) (sym (delete_node_directory fuel v r xs x d i t))
            (inr (x, i, e, inl (t, (refl, refl, refl))))
      | inr t ↦ inr (x, i, e, inr (t, file-Gone fuel v r xs x d i le t))
    ]

-- For a name of 1 to 63 bytes in the root directory, `Delete` returns false and changes nothing where
-- no child has the name or the child that has it is a directory; otherwise that child leaves the
-- directory, which is well-formed again, no other name or type changes, and its data and the node are
-- freed.
pub delete-Deleted :
    (fuel : ℕ) (v : Vfs) (r : ℕ) (xs : List ℕ) (w : Text)
    → RootDir v r xs
    → length xs ≤ fuel
    → is_name w ≡ true
    → NoNul w
    → Deleted v r xs w (delete fuel (some (b'/' ∷ w)) v)
unfolding delete
delete-Deleted fuel v r xs w d le e q =
    delete_node-Deleted fuel v r xs w (open_path fuel v (some (b'/' ∷ w))) d le
      (open_path-Lookup fuel v r xs w d le e q)
