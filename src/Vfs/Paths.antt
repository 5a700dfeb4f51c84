-- ===== src/Vfs/Paths.antt =====
-- What a path to a name in the root directory opens, for kernel/fs/vfs.cpp.
use mathlib.Core.Path.{subst}
use morphic_os_dev.Base.{
  ℕ, ◌+◌, ◌≡◌, ◌≢◌, ◌≤◌, refl, sym, ap, ◌∙◌, Bool, true, false, not, ◌&&◌, some, List, [], ◌∷◌,
  ◌++◌, ◌==◌, ltb, length, arith, append_assoc, append-nil, length-append, leb,
}
use morphic_os_dev.Runtime.{Text, same_text, kstrcmp}
use morphic_os_dev.Runtime.Strings.{NoNul}
use morphic_os_dev.Vfs.{
  VfsNode, Vfs, is_directory, no_text, find_from, find_child, open_step, open_from, open_path,
  has_slash,
}
use morphic_os_dev.Vfs.Listing.{Listing, NotIn, Distinct, Children, Lookup, find_from-Lookup}

-- A name of 1 to 63 bytes without a slash.
abbrev pub is_name : Text → Bool
is_name w = not (no_text w) && not (has_slash w) && leb (length w) 63

-- The root is the directory `r`, and these are its children.
pub record RootDir (v : Vfs) (r : ℕ) (xs : List ℕ) : Type 0 where
  pub root : v.root_node ≡ some r
  pub is_dir : is_directory (v.nodes r).type ≡ true
  pub listing : Listing v.nodes (v.nodes r).first_child xs
  pub apart : NotIn r xs
  pub distinct : Distinct xs
  pub children : Children v.nodes r xs

open_from-find_child :
    (fuel : ℕ) (m : ℕ → VfsNode) (w : Text) (r : ℕ) (component : Text)
    → has_slash w ≡ false
    → length component + length w ≤ 63
    → no_text (component ++ w) ≡ false
    → open_from fuel m w (some r) component ≡ find_child fuel m (some r) (component ++ w)
unfolding open_from open_step has_slash
open_from-find_child fuel m [] r component s le e =
    let f : no_text component ≡ false = ap no_text (sym (append-nil component)) ∙ e in
    rw (f, append-nil component) refl
open_from-find_child fuel m (c ∷ w) r component s le e =
    let no : (c == b'/') ≡ false = ground (arith, s) in
    let room : ltb (length component) 63 ≡ true = ground (arith, le) in
    let together = append_assoc component (c ∷ []) w in
    rw (no, room, open_from)
      (open_from-find_child fuel m w r (component ++ (c ∷ [])) (ground (arith, s))
          (omega (arith, le, length-append component (c ∷ []))) (ap no_text together ∙ e)
        ∙ ap (λ (t : Text). find_child fuel m (some r) t) together)

longer-differs : (c : ℕ) (w : Text) → c ≢ 0 → same_text (b'/' ∷ c ∷ w) (b'/' ∷ []) ≡ false
unfolding kstrcmp
longer-differs c w ne = ground (arith, ne)

pub open_path_name :
    (fuel : ℕ) (v : Vfs) (r : ℕ) (xs : List ℕ) (w : Text)
    → RootDir v r xs
    → is_name w ≡ true
    → NoNul w
    → open_path fuel v (some (b'/' ∷ w)) ≡ find_from fuel v.nodes (v.nodes r).first_child w
unfolding open_path find_child
open_path_name fuel v r xs [] d e q = absurd (ground (arith, e))
open_path_name fuel v r xs (c ∷ w) d e q =
    rw (d.root, longer-differs c w q.0, open_path)
      (open_from-find_child fuel v.nodes (c ∷ w) r [] (ground (arith, e)) (ground (arith, e)) refl
        ∙ rw (d.is_dir) refl)

-- What a path finds in the root directory.
pub open_path-Lookup :
    (fuel : ℕ) (v : Vfs) (r : ℕ) (xs : List ℕ) (w : Text)
    → RootDir v r xs
    → length xs ≤ fuel
    → is_name w ≡ true
    → NoNul w
    → Lookup v.nodes w xs (open_path fuel v (some (b'/' ∷ w)))
open_path-Lookup fuel v r xs w d le e q =
    subst (Lookup v.nodes w xs) (sym (open_path_name fuel v r xs w d e q))
      (find_from-Lookup fuel v.nodes r (v.nodes r).first_child w xs le q d.children d.listing)
