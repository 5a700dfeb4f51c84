-- ===== src/Pmm/History.antt =====
-- Any sequence of calls of the allocator.
use mathlib.Core.Path.{subst}
use native.Mathlib.Decide.{dec_le}
use morphic_os_dev.Base.{
  sym, ◌⊎◌, inl, inr, ℕ, ◌+◌, ◌*◌, ◌/◌, ◌≤◌, ◌<◌, ◌≡◌, refl, ◌∙◌, ◌≢◌, Option, some, List, [], ◌∷◌,
  arith,
}
use morphic_os_dev.Pmm.{Pmm, limit, alloc_page, alloc_contiguous, free_page}
use morphic_os_dev.Pmm.Spec.{IsUsed, IsValid, budget, Outcome, Outcome-some, allocated, refused}
use morphic_os_dev.Pmm.Page.{alloc_page-Outcome, free_page-Frees}
use morphic_os_dev.Pmm.Contiguous.{alloc_contiguous-Outcome}

pub data Call : Type 0 where
  allocs_page : Call
  allocs_run : ℕ → Call
  frees : ℕ → Call

unfoldable pub step : Pmm → Call → Pmm
step p allocs_page = (alloc_page p).1
step p (allocs_run pages) = (alloc_contiguous p pages).1
step p (frees address) = free_page p address

unfoldable pub run : Pmm → List Call → Pmm
run p [] = p
run p (c ∷ cs) = run (step p c) cs

-- A call stays within the pages that exist.
abbrev pub Within : ℕ → Call → Type 0
Within top allocs_page = Unit {0}
Within top (allocs_run pages) = pages ≤ top
Within top (frees address) = address / 4096 < top

abbrev pub AllWithin : ℕ → List Call → Type 0
AllWithin top [] = Unit {0}
AllWithin top (c ∷ cs) = Within top c × AllWithin top cs

-- What no call changes: the state stays valid, the pages are as many, and the RAM is accounted for.
pub record Keeps (p q : Pmm) : Type 0 where
  pub valid : IsValid q
  pub same_top : q.highest_addr ≡ p.highest_addr
  pub same_budget : budget q ≡ budget p

Outcome-Keeps :
    {Refused : Type 0} {p : Pmm} {n : ℕ} {r : Option ℕ × Pmm}
    → Outcome Refused p n r
    → IsValid p
    → Keeps p r.1
Outcome-Keeps (allocated i q le t) v = record {
  valid = t.valid;
  same_top = t.same_top;
  same_budget = t.same_budget;
}
Outcome-Keeps (refused r) v = record { valid = v; same_top = refl; same_budget = refl }

step-Keeps : (p : Pmm) (c : Call) → IsValid p → Within (limit p) c → Keeps p (step p c)
unfolding step
step-Keeps p allocs_page v w = Outcome-Keeps (alloc_page-Outcome p v) v
step-Keeps p (allocs_run pages) v w = Outcome-Keeps (alloc_contiguous-Outcome p pages v w) v
step-Keeps p (frees address) v w =
    let f = free_page-Frees p address v w in
    record { valid = f.valid; same_top = f.same_top; same_budget = f.same_budget }

Keeps-trans : {p q r : Pmm} → Keeps p q → Keeps q r → Keeps p r
Keeps-trans k l = record {
  valid = l.valid;
  same_top = l.same_top ∙ k.same_top;
  same_budget = l.same_budget ∙ k.same_budget;
}

-- After any calls within the pages that exist, the state is valid and the free RAM and the RAM of the
-- used pages make up the same total.
pub run-Keeps : (p : Pmm) (cs : List Call) → IsValid p → AllWithin (limit p) cs → Keeps p (run p cs)
unfolding run
run-Keeps p [] v w = record { valid = v; same_top = refl; same_budget = refl }
run-Keeps p (c ∷ cs) v w =
    let k = step-Keeps p c v w.0 in
    Keeps-trans k
      (run-Keeps (step p c) cs k.valid (subst (λ t. AllWithin (t / 4096) cs) (sym k.same_top) w.1))

-- No call frees the page `i`.
abbrev pub SparesCall : ℕ → Call → Type 0
SparesCall i allocs_page = Unit {0}
SparesCall i (allocs_run pages) = Unit {0}
SparesCall i (frees address) = address / 4096 ≢ i

abbrev pub Spares : ℕ → List Call → Type 0
Spares i [] = Unit {0}
Spares i (c ∷ cs) = SparesCall i c × Spares i cs

Outcome-IsUsed :
    {Refused : Type 0} {p : Pmm} {n : ℕ} {r : Option ℕ × Pmm} (i : ℕ)
    → Outcome Refused p n r
    → IsUsed p i
    → IsUsed r.1 i
Outcome-IsUsed i (allocated j q le t) u = ground (arith, t.bits i)
Outcome-IsUsed i (refused r) u = u

step-IsUsed :
    (p : Pmm) (c : Call) (i : ℕ)
    → IsValid p
    → Within (limit p) c
    → SparesCall i c
    → IsUsed p i
    → IsUsed (step p c) i
unfolding step
step-IsUsed p allocs_page i v w s u = Outcome-IsUsed i (alloc_page-Outcome p v) u
step-IsUsed p (allocs_run pages) i v w s u =
    Outcome-IsUsed i (alloc_contiguous-Outcome p pages v w) u
step-IsUsed p (frees address) i v w s u = ground (arith, s, (free_page-Frees p address v w).bits i)

-- A page that is in use stays in use until it is freed, whatever else is allocated and freed.
pub run-IsUsed :
    (p : Pmm) (cs : List Call) (i : ℕ)
    → IsValid p
    → AllWithin (limit p) cs
    → Spares i cs
    → IsUsed p i
    → IsUsed (run p cs) i
unfolding run
run-IsUsed p [] i v w s u = u
run-IsUsed p (c ∷ cs) i v w s u =
    let k = step-Keeps p c v w.0 in
    run-IsUsed (step p c) cs i k.valid (subst (λ t. AllWithin (t / 4096) cs) (sym k.same_top) w.1)
      s.1 (step-IsUsed p c i v w.0 s.0 u)

-- `AllocPage` never hands out a page twice: whatever calls lie between, if none of them frees the
-- first page, the second page is another one.
pub alloc_page_twice :
    (p q r : Pmm) (cs : List Call) (a b : ℕ)
    → IsValid p
    → alloc_page p ≡ (some a, q)
    → AllWithin (limit p) cs
    → Spares (a / 4096) cs
    → alloc_page (run q cs) ≡ (some b, r)
    → a ≢ b
alloc_page_twice p q r cs a b v first w s second eq =
    let (i, at, le, t) = Outcome-some (alloc_page-Outcome p v) first in
    let w' : AllWithin (limit q) cs = subst (λ t. AllWithin (t / 4096) cs) (sym t.same_top) w in
    let k = run-Keeps q cs t.valid w' in
    let (j, at', le', t') = Outcome-some (alloc_page-Outcome (run q cs) k.valid) second in
    let page : a / 4096 ≡ i = omega arith in
    let same : i ≡ j = omega arith in
    let used : IsUsed (run q cs) i =
      run-IsUsed q cs i t.valid w' (subst (λ i. Spares i cs) page s) (ground (arith, t.bits i)) in
    ground (arith, same, used, t'.were_free i)

no_common_address :
    (p q r : Pmm) (cs : List Call) (m n a b : ℕ)
    → IsValid p
    → m ≤ limit p
    → n ≤ limit p
    → alloc_contiguous p m ≡ (some a, q)
    → AllWithin (limit p) cs
    → ((i : ℕ) → a / 4096 ≤ i → i < a / 4096 + m → Spares i cs)
    → alloc_contiguous (run q cs) n ≡ (some b, r)
    → (x : ℕ) → a ≤ x
    → x < a + m * 4096
    → b ≤ x
    → x < b + n * 4096
    → ⊥
no_common_address p q r cs m n a b v fits fits' first w s second x lo hi lo' hi' =
    let (i, at, le, t) = Outcome-some (alloc_contiguous-Outcome p m v fits) first in
    let w' : AllWithin (limit q) cs = subst (λ t. AllWithin (t / 4096) cs) (sym t.same_top) w in
    let k = run-Keeps q cs t.valid w' in
    let (j, at', le', t') =
      Outcome-some
        (alloc_contiguous-Outcome (run q cs) n k.valid (omega (arith, k.same_top, t.same_top)))
        second in
    let page : a / 4096 ≡ i = omega arith in
    let used : IsUsed (run q cs) (x / 4096) =
      run-IsUsed q cs (x / 4096) t.valid w' (s (x / 4096) (omega arith) (omega arith))
        (ground (arith, t.bits (x / 4096))) in
    ground (arith, used, t'.were_free (x / 4096))

-- Nor does `AllocContiguous`: unless a page of the first block is freed in between, a later block ends
-- before the first one or starts behind it.
pub alloc_contiguous_twice :
    (p q r : Pmm) (cs : List Call) (m n a b : ℕ)
    → IsValid p
    → 0 < m
    → 0 < n
    → m ≤ limit p
    → n ≤ limit p
    → alloc_contiguous p m ≡ (some a, q)
    → AllWithin (limit p) cs
    → ((i : ℕ) → a / 4096 ≤ i → i < a / 4096 + m → Spares i cs)
    → alloc_contiguous (run q cs) n ≡ (some b, r)
    → (b + n * 4096 ≤ a) ⊎ (a + m * 4096 ≤ b)
alloc_contiguous_twice p q r cs m n a b v some_m some_n fits fits' first w s second =
    elim (dec_le (b + n * 4096) a) [
      | yes below ↦ inl below
      | no above_start ↦ elim (dec_le (a + m * 4096) b) [
        | yes above ↦ inr above
        | no below_end ↦ elim (dec_le a b) [
          | yes le ↦ absurd (common b le (omega arith) (omega arith) (omega arith))
          | no gt ↦ absurd (common a (omega arith) (omega arith) (omega arith) (omega arith))
        ]
      ]
    ]
  where
    common : (x : ℕ) → a ≤ x → x < a + m * 4096 → b ≤ x → x < b + n * 4096 → ⊥
    common = no_common_address p q r cs m n a b v fits fits' first w s second
