-- ===== src/KHeap/Layout.antt =====
-- The heap as a sequence of segments that lie side by side.
use mathlib.Core.Path.{subst}
use morphic_os_dev.Base.{
  ℕ, ◌+◌, ◌≤◌, ◌<◌, ◌≡◌, refl, sym, ap, ◌∙◌, ◌≢◌, update, Bool, List, [], ◌∷◌, ◌++◌, arith,
}
use morphic_os_dev.KHeap.{Header, Memory, header_size, heap_magic}

pub record Segment : Type 0 where
  pub size : ℕ
  pub free : Bool

-- The bytes that the segments and their headers take.
abbrev pub extent : List Segment → ℕ
extent [] = 0
extent (s ∷ ss) = header_size + s.size + extent ss

pub extent-append : (ss ts : List Segment) → extent (ss ++ ts) ≡ extent ss + extent ts
extent-append [] ts = omega arith
extent-append (s ∷ ss) ts = omega (arith, extent-append ss ts)

-- The pointer to the first segment of what lies at an address.
abbrev pub link : ℕ → List Segment → ℕ
link b [] = 0
link b (s ∷ ss) = b

abbrev pub header_of : Segment → ℕ → ℕ → Header
header_of s next prev = record {
  length = s.size;
  next = next;
  prev = prev;
  free = s.free;
  magic = heap_magic;
}

-- From address `a` on lie these segments, behind the one at `prev`.
abbrev pub Laid : Memory → ℕ → ℕ → List Segment → Type 0
Laid m prev a [] = Unit {0}
Laid m prev a (s ∷ ss) =
    (m a ≡ header_of s (link (a + header_size + s.size) ss) prev)
    × Laid m a (a + header_size + s.size) ss

-- Memory below the segments does not count.
pub Laid-above :
    (m m' : Memory) (prev a : ℕ) (ss : List Segment)
    → ((x : ℕ) → a ≤ x → m' x ≡ m x)
    → Laid m prev a ss
    → Laid m' prev a ss
Laid-above m m' prev a [] same l = tt
Laid-above m m' prev a (s ∷ ss) same (e, l) = (
  same a (omega arith) ∙ e,
  Laid-above m m' a (a + header_size + s.size) ss (λ x h. same x (omega arith)) l,
)

-- A header written below the segments.
pub Laid-update :
    (m : Memory) (prev a c : ℕ) (v : Header) (ss : List Segment)
    → c < a
    → Laid m prev a ss
    → Laid (update m c v) prev a ss
Laid-update m prev a c v ss lt = Laid-above m (update m c v) prev a ss (λ x h. ground arith)

pub update_self : (m : Memory) (c : ℕ) (v : Header) → update m c v c ≡ v
update_self m c v = ground arith

pub update_other : (m : Memory) (c x : ℕ) (v : Header) → c ≢ x → update m c v x ≡ m x
update_other m c x v ne = ground arith

pub link-append :
    (b : ℕ) (before : List Segment) (s : Segment) (ss : List Segment)
    → link b (before ++ s ∷ ss) ≡ b
link-append b [] s ss = refl
link-append b (t ∷ before) s ss = refl

-- A change at `c`, behind some segments, which writes nothing below, leaves those as they are.
pub Laid-change :
    (m m' : Memory) (prev a c : ℕ) (before : List Segment) (s t : Segment) (ss ts : List Segment)
    → c ≡ a + extent before
    → ((x : ℕ) → x < c → m' x ≡ m x)
    → ((q : ℕ) → Laid m q c (s ∷ ss) → Laid m' q c (t ∷ ts))
    → Laid m prev a (before ++ s ∷ ss)
    → Laid m' prev a (before ++ t ∷ ts)
Laid-change m m' prev a c [] s t ss ts e same step l =
    subst (λ x. Laid m' prev x (t ∷ ts)) at_start
      (step prev (subst (λ x. Laid m prev x (s ∷ ss)) (sym at_start) l))
  where
    at_start : c ≡ a
    at_start = omega arith
Laid-change m m' prev a c (b ∷ before) s t ss ts e same step (h, l) = (
  same a (omega arith)
      ∙ h
      ∙ ap (λ (x : ℕ). header_of b x prev)
          (link-append (a + header_size + b.size) before s ss
            ∙ sym (link-append (a + header_size + b.size) before t ts)),
  Laid-change m m' a (a + header_size + b.size) c before s t ss ts (omega arith) same step l,
)

-- A segment in the middle, with the one before it.
pub Laid-at :
    (m : Memory) (prev a c : ℕ) (before ss : List Segment)
    → c ≡ a + extent before
    → Laid m prev a (before ++ ss)
    → (q : ℕ) × Laid m q c ss
Laid-at m prev a c [] ss e l = (prev, subst (λ x. Laid m prev x ss) (omega arith) l)
Laid-at m prev a c (b ∷ before) ss e (h, l) =
    Laid-at m a (a + header_size + b.size) c before ss (omega arith) l
