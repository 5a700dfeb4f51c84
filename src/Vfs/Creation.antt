-- ===== src/Vfs/Creation.antt =====
-- What `CreateFile` of kernel/fs/vfs.cpp makes of the root directory.
use mathlib.Core.Path.{subst}
use morphic_os_dev.Base.{
  ℕ, zero, suc, ◌≡◌, ◌≢◌, ◌≤◌, ◌<◌, refl, sym, ap, ◌∙◌, ◌⊎◌, inl, inr, true, false, Option, none,
  some, List, ◌∷◌, if◌then◌else◌, length, take, take_all, update, arith, Option-cases,
}
use morphic_os_dev.Runtime.{Text, same_text}
use morphic_os_dev.Runtime.Strings.{NoNul, same_text_refl}
use morphic_os_dev.Vfs.{
  VfsNode, NodeType, file, Vfs, is_directory, is_null, find_from, find_child, open_path, has_slash,
}
use morphic_os_dev.Vfs.Change.{new_node, add_node, create, create_file}
use morphic_os_dev.Vfs.Listing.{
  Listing, In, NotIn, NoneNamed, Lookup, find_from-Lookup, Listing-update, Children-update,
}
use morphic_os_dev.Vfs.Paths.{is_name, RootDir, open_path_name}

-- The directory after a node was added.
module _ (type : NodeType) (v : Vfs) (r a : ℕ) (xs : List ℕ) (w : Text) (ne : r ≢ a) where
  abbrev added : Vfs
  added = add_node type w r a v

  added_root : added.nodes r ≡ record (v.nodes r) { first_child = some a }
  added_root = ground (arith, ne)

  added_name : length w ≤ 63 → (added.nodes a).name ≡ w
  added_name le = cut ∙ take_all 63 w le
    where
      cut : (added.nodes a).name ≡ take 63 w
      cut = ground (arith, ne)

  added_type : (added.nodes a).type ≡ type
  added_type = ground (arith, ne)

  added_next : (added.nodes a).next_sibling ≡ (v.nodes r).first_child
  added_next = ground (arith, ne)

  added_parent : (added.nodes a).parent ≡ some r
  added_parent = ground (arith, ne)

  added-RootDir : RootDir v r xs → NotIn a xs → length w ≤ 63 → NoNul w → RootDir added r (a ∷ xs)
  added-RootDir d n le q =
      let m = update v.nodes a (new_node type w r v) in
      let top = record (m r) { first_child = some a } in
      record {
        root = d.root;
        is_dir = ap (λ (b : VfsNode). is_directory b.type) added_root ∙ d.is_dir;
        listing = (
          ap (λ (b : VfsNode). b.first_child) added_root,
          subst (λ (o : Option ℕ). Listing added.nodes o xs) (sym added_next)
              (Listing-update m r top (v.nodes r).first_child xs d.apart (
                Listing-update v.nodes a (new_node type w r v) (v.nodes r).first_child xs n
                  d.listing)),
        );
        apart = (ne, d.apart);
        distinct = (n, d.distinct);
        children = (
          subst NoNul (sym (added_name le)) q,
          added_parent,
          Children-update m r r top xs d.apart
              (Children-update v.nodes a r (new_node type w r v) xs n d.children),
        );
      }

-- The first child is found by its name.
find_from_first :
    (fuel : ℕ) (m : ℕ → VfsNode) (p : Option ℕ) (a : ℕ) (w : Text)
    → p ≡ some a
    → (m a).name ≡ w
    → NoNul w
    → find_from (suc fuel) m p w ≡ some a
unfolding find_from
find_from_first fuel m p a w at e q =
    let same : same_text (m a).name w ≡ true =
      ap (λ (t : Text). same_text t w) e ∙ same_text_refl w q in
    rw (at, find_from) (rw same refl)

-- The memory of a new node: none, or a pointer that no node of the directory has.
abbrev pub Fresh : ℕ → List ℕ → Option ℕ → Type 0
Fresh r xs none = Unit {0}
Fresh r xs (some a) = (r ≢ a) × NotIn a xs

-- The name is taken or there is no memory, and nothing changes; or the name is new, the node is a child
-- and is what the path opens.
abbrev pub Created : NodeType → ℕ → Vfs → ℕ → List ℕ → Text → Option ℕ → Option ℕ × Vfs → Type 0
Created type fuel v r xs w allocated (result, v') =
    (((x : ℕ) × In x xs × ((v.nodes x).name ≡ w)) × (result ≡ none) × (v' ≡ v))
    ⊎ ((allocated ≡ none) × (result ≡ none) × (v' ≡ v))
    ⊎ ((a : ℕ) × (allocated ≡ some a)
        × NoneNamed v.nodes w xs
        × (result ≡ some a)
        × RootDir v' r (a ∷ xs)
        × (open_path fuel v' (some (b'/' ∷ w)) ≡ some a)
        × ((v'.nodes a).type ≡ type))

-- The two ways `create` goes on a plain name.
module _ (type : NodeType) (fuel : ℕ) (v : Vfs) (r : ℕ) (w : Text) (allocated : Option ℕ)
    (root : v.root_node ≡ some r) (is_dir : is_directory (v.nodes r).type ≡ true)
    (plain : has_slash w ≡ false) where
  find_child_root :
      find_child fuel v.nodes v.root_node w ≡ find_from fuel v.nodes (v.nodes r).first_child w
  unfolding find_child
  find_child_root = rw (root, find_child) (rw is_dir refl)

  create_taken :
      (x : ℕ)
      → find_from fuel v.nodes (v.nodes r).first_child w ≡ some x
      → create type fuel w allocated v ≡ (none, v)
  unfolding create
  create_taken x f = rw (plain, find_child_root, f, create) refl

  create_full :
      find_from fuel v.nodes (v.nodes r).first_child w ≡ none
      → create type fuel w none v ≡ (none, v)
  unfolding create
  create_full f = let g = find_child_root ∙ f in rw (plain, g, create) (ground (arith, root))

  create_new :
      (a : ℕ)
      → find_from fuel v.nodes (v.nodes r).first_child w ≡ none
      → create type fuel w (some a) v ≡ (some a, add_node type w r a v)
  unfolding create
  create_new a f =
      let g = find_child_root ∙ f in
      rw (plain, g, create)
        (subst
          (λ (o : Option ℕ).
            ◌≡◌ {A = Option ℕ × Vfs}
              (elim o [ none ↦ (none, v) | some root' ↦ (some a, add_node type w root' a v) ])
              (some a, add_node type w r a v))
          (sym root) refl)

create-Created :
    (type : NodeType) (fuel : ℕ) (v : Vfs) (r : ℕ) (xs : List ℕ) (w : Text) (allocated : Option ℕ)
    → RootDir v r xs
    → length xs < fuel
    → is_name w ≡ true
    → NoNul w
    → Fresh r xs allocated
    → Created type fuel v r xs w allocated (create type fuel w allocated v)
create-Created type zero v r xs w allocated d le e q apart = absurd (omega (arith, le))
create-Created type (suc fuel) v r xs w allocated d le e q apart =
    let plain : has_slash w ≡ false = ground (arith, e) in
    let found =
      find_from-Lookup (suc fuel) v.nodes r (v.nodes r).first_child w xs (omega (arith, le)) q
        d.children d.listing in
    elim (Option-cases (find_from (suc fuel) v.nodes (v.nodes r).first_child w)) [
      | inr (x, f) ↦
          let (i, h) = subst (Lookup v.nodes w xs) f found in
          rw (create_taken type (suc fuel) v r w allocated d.root d.is_dir plain x f)
            (inl ((x, i, h), refl, refl))
      | inl f ↦ added_new allocated apart plain f (subst (Lookup v.nodes w xs) f found)
    ]
  where
    added_new :
        (o : Option ℕ)
        → Fresh r xs o
        → has_slash w ≡ false
        → find_from (suc fuel) v.nodes (v.nodes r).first_child w ≡ none
        → NoneNamed v.nodes w xs
        → Created type (suc fuel) v r xs w o (create type (suc fuel) w o v)
    added_new none apart plain f fresh =
        rw (create_full type (suc fuel) v r w none d.root d.is_dir plain f)
          (inr (inl (refl, refl, refl)))
    added_new (some a) (ne, n) plain f fresh =
        let d' = added-RootDir type v r a xs w ne d n (ground (arith, e)) q in
        subst (Created type (suc fuel) v r xs w (some a))
          (sym (create_new type (suc fuel) v r w none d.root d.is_dir plain a f))
          (inr (
            inr (
              a,
              refl,
              fresh,
              refl,
              d',
              open_path_name (suc fuel) (add_node type w r a v) r (a ∷ xs) w d' e q
                  ∙ find_from_first fuel (added type v r a xs w ne).nodes
                      ((added type v r a xs w ne).nodes r).first_child a w d'.listing.0
                      (added_name type v r a xs w ne (ground (arith, e))) q,
              added_type type v r a xs w ne,
            )))

create_file_root :
    (fuel : ℕ) (v : Vfs) (r : ℕ) (w : Text) (allocated : Option ℕ)
    → v.root_node ≡ some r
    → create_file fuel (some (b'/' ∷ w)) allocated v ≡ create file fuel w allocated v
unfolding create_file
create_file_root fuel v r w allocated root =
    subst
      (λ (o : Option ℕ).
        (if is_null o then (none, v) else create file fuel w allocated v)
        ≡ create file fuel w allocated v)
      (sym root) refl

-- For a name of 1 to 63 bytes in a well-formed root directory, with fuel for its nodes, `CreateFile`
-- returns null and changes nothing if a child has this name or there is no memory; otherwise the node
-- at the fresh pointer is the first child of the root, a file, and what `Open` of the path returns.
pub create_file-Created :
    (fuel : ℕ) (v : Vfs) (r : ℕ) (xs : List ℕ) (w : Text) (allocated : Option ℕ)
    → RootDir v r xs
    → length xs < fuel
    → is_name w ≡ true
    → NoNul w
    → Fresh r xs allocated
    → Created file fuel v r xs w allocated (create_file fuel (some (b'/' ∷ w)) allocated v)
create_file-Created fuel v r xs w allocated d le e q apart =
    subst (Created file fuel v r xs w allocated)
      (sym (create_file_root fuel v r w allocated d.root))
      (create-Created file fuel v r xs w allocated d le e q apart)
