-- ===== src/KHeap/Combine.antt =====
-- `CombineFreeSegments` and the two places that call it.
use mathlib.Core.Path.{subst}
use morphic_os_dev.Base.{
  ℕ, ◌+◌, ◌^◌, ◌<◌, ◌≡◌, refl, sym, ap, ◌∙◌, true, not, ◌&&◌, List, ◌∷◌, arith, ◌==◌, update, add64,
}
use morphic_os_dev.KHeap.{Header, Memory, header_size, set_prev, combine}
use morphic_os_dev.KHeap.Layout.{
  Segment, link, header_of, Laid, Laid-update, update_self, update_other,
}
use morphic_os_dev.KHeap.Alloc.{set_prev-below, set_prev-Laid}

-- Two adjoining free segments as one.
abbrev pub joined : Segment → Segment → Segment
joined p s = record { size = p.size + header_size + s.size; free = true }

module _ (m : Memory) (q c : ℕ) (p s : Segment) (after : List Segment) (pos : 0 < c)
    (room : c + header_size + p.size + header_size + s.size < 2 ^ 64) (f : p.free ≡ true)
    (g : s.free ≡ true) (l : Laid m q c (p ∷ s ∷ after)) where
  abbrev pub behind : ℕ
  behind = c + header_size + p.size

  abbrev end : ℕ
  end = c + header_size + p.size + header_size + s.size

  abbrev grown : Memory
  grown = update m c (record (m c) {
    length = add64 ((m c).length) (add64 ((m (c + header_size + p.size)).length) header_size);
    next = (m (c + header_size + p.size)).next;
  })

  next_same : (grown behind).next ≡ link end after
  next_same = ap (λ (h : Header). h.next) (update_other m c behind _ (omega arith) ∙ l.1.0)

  p_free : (m c).free ≡ true
  p_free = ap (λ (h : Header). h.free) l.0 ∙ f

  s_free : (m behind).free ≡ true
  s_free = ap (λ (h : Header). h.free) l.1.0 ∙ g

  p_next : (m c).next ≡ behind
  p_next = ap (λ (h : Header). h.next) l.0

  test :
      (not (c == 0) && not (behind == 0) && (m c).free && (m behind).free && (m c).next == behind)
      ≡ true
  test = ground (arith, p_free, s_free, p_next)

  combine-grown : combine m c behind ≡ set_prev grown (link end after) c
  unfolding combine
  combine-grown = rw (← next_same) (rw test refl)

  grown-header : grown c ≡ header_of (joined p s) (link end after) q
  grown-header =
      update_self m c _
      ∙ (rw (l.0, l.1.0, f)
          (ap (λ (n : ℕ). header_of (record { size = n; free = true }) (link end after) q)
            (omega arith)))

  end_place : end ≡ c + header_size + (p.size + header_size + s.size)
  end_place = omega arith

  pub combine-Laid : Laid (combine m c behind) q c (joined p s ∷ after)
  combine-Laid =
      subst (λ (w : Memory). Laid w q c (joined p s ∷ after)) (sym combine-grown)
        (
          set_prev-below grown end c c after (omega arith)
              ∙ grown-header
              ∙ ap (λ (e : ℕ). header_of (joined p s) (link e after) q) end_place,
          subst (λ (e : ℕ). Laid (set_prev grown (link end after) c) c e after) end_place
              (set_prev-Laid grown behind c end after (omega arith)
                (Laid-update m behind end c _ after (omega arith) l.1.1)),
        )

  pub combine-below : (x : ℕ) → x < c → combine m c behind x ≡ m x
  combine-below x lt =
      ap (λ (w : Memory). w x) combine-grown
      ∙ set_prev-below grown end c x after (omega arith)
      ∙ update_other m c x _ (omega arith)
