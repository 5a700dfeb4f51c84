-- ===== src/KHeap/Alloc.antt =====
-- `Allocate`: first fit, and what a taken or a split segment does to the layout.
use mathlib.Core.Path.{subst}
use morphic_os_dev.Base.{
  ℕ, ◌+◌, ◌-◌, ◌^◌, ◌<◌, ◌≡◌, refl, sym, ap, ◌∙◌, true, false, List, [], ◌∷◌, arith, ◌==◌, update,
  add64,
}
use morphic_os_dev.KHeap.{Header, Memory, header_size, remainder, set_prev, split}
use morphic_os_dev.KHeap.Layout.{
  Segment, link, header_of, Laid, Laid-update, update_self, update_other,
}

nonzero : (b : ℕ) → 0 < b → (b == 0) ≡ false
nonzero b pos = ground arith

set_prev_some :
    (m : Memory) (b q : ℕ) → 0 < b → set_prev m b q ≡ update m b (record (m b) { prev = q })
unfolding set_prev
set_prev_some m b q pos = rw (nonzero b pos) refl

pub set_prev-below :
    (m : Memory) (b q x : ℕ) (ss : List Segment) → x < b → set_prev m (link b ss) q x ≡ m x
unfolding set_prev
set_prev-below m b q x [] lt = refl
set_prev-below m b q x (s ∷ ss) lt = ground arith

pub set_prev-Laid :
    (m : Memory) (q q' b : ℕ) (ss : List Segment)
    → 0 < b
    → Laid m q b ss
    → Laid (set_prev m (link b ss) q') q' b ss
unfolding set_prev
set_prev-Laid m q q' b [] pos l = tt
set_prev-Laid m q q' b (s ∷ ss) pos (h, l) =
    subst (λ (w : Memory). Laid w q' b (s ∷ ss)) (sym (set_prev_some m b q' pos))
      (
        update_self m b (record (m b) { prev = q' })
            ∙ ap (λ (x : Header). record x { prev = q' }) h,
        Laid-update m b (b + header_size + s.size) b (record (m b) { prev = q' }) ss (omega arith)
            l,
      )

module _ (m : Memory) (q c size : ℕ) (s : Segment) (after : List Segment) (pos : 0 < c)
    (fits : c + header_size + s.size < 2 ^ 64) (l : Laid m q c (s ∷ after)) where
  pub take_whole :
      s.free ≡ true
      → Laid (update m c (record (m c) { free = false })) q c (record s { free = false } ∷ after)
  take_whole f = (
    update_self m c (record (m c) { free = false })
        ∙ ap (λ (x : Header). record x { free = false }) l.0,
    Laid-update m c (c + header_size + s.size) c (record (m c) { free = false }) after (omega arith)
        l.1,
  )

  abbrev made : Memory
  made = update m (c + header_size + size) (remainder m c size)

  abbrev linked : Memory
  linked = set_prev made (link (c + header_size + s.size) after) (c + header_size + size)

  abbrev changed : Memory
  changed =
      update linked c
        (record (linked c) { length = size; next = c + header_size + size; free = false })

  module _ (lt : size + header_size < s.size) where
    made_same : made c ≡ m c
    made_same = update_other m (c + header_size + size) c (remainder m c size) (omega arith)

    linked_same : linked c ≡ m c
    linked_same =
        set_prev-below made (c + header_size + s.size) (c + header_size + size) c after
          (omega arith)
        ∙ made_same

    new_place : add64 (add64 c header_size) size ≡ c + header_size + size
    new_place = omega arith

    split-changed : split m c size ≡ changed
    unfolding split
    split-changed = rw (new_place, made_same, l.0) refl

    remainder-header :
        remainder m c size
        ≡ header_of
            (record { size = s.size - size - header_size; free = true })
            (link (c + header_size + s.size) after)
            c
    unfolding remainder
    remainder-header = rw l.0 (
        ap
          (λ (n : ℕ).
            header_of (record { size = n; free = true }) (link (c + header_size + s.size) after) c)
          (omega arith))

    behind : Laid changed (c + header_size + size) (c + header_size + s.size) after
    behind =
        Laid-update linked (c + header_size + size) (c + header_size + s.size) c _ after
          (omega arith)
          (set_prev-Laid made c (c + header_size + size) (c + header_size + s.size) after
            (omega arith)
            (Laid-update m c (c + header_size + s.size) (c + header_size + size)
              (remainder m c size) after (omega arith) l.1))

    changed-new : changed (c + header_size + size) ≡ remainder m c size
    changed-new =
        update_other linked c (c + header_size + size) _ (omega arith)
        ∙ set_prev-below made (c + header_size + s.size) (c + header_size + size)
            (c + header_size + size) after (omega arith)
        ∙ update_self m (c + header_size + size) (remainder m c size)

    end_place :
        c + header_size + s.size
        ≡ c + header_size + size + header_size + (s.size - size - header_size)
    end_place = omega arith

    pub split-Laid : Laid (split m c size) q c (
        record { size = size; free = false }
        ∷ record { size = s.size - size - header_size; free = true }
        ∷ after)
    split-Laid =
        subst
          (λ (w : Memory). Laid w q c (
            record { size = size; free = false }
            ∷ record { size = s.size - size - header_size; free = true }
            ∷ after))
          (sym split-changed)
          (
            update_self linked c _
                ∙ ap
                    (λ (x : Header). record x {
                      length = size;
                      next = c + header_size + size;
                      free = false;
                    })
                    (linked_same ∙ l.0),
            (
              changed-new
                  ∙ remainder-header
                  ∙ ap
                      (λ (e : ℕ).
                        header_of (record { size = s.size - size - header_size; free = true })
                          (link e after) c)
                      end_place,
              subst (λ (e : ℕ). Laid changed (c + header_size + size) e after) end_place behind,
            ),
          )

    pub split-below : (x : ℕ) → x < c → split m c size x ≡ m x
    split-below x below =
        ap (λ (w : Memory). w x) split-changed
        ∙ update_other linked c x _ (omega arith)
        ∙ set_prev-below made (c + header_size + s.size) (c + header_size + size) x after
            (omega arith)
        ∙ update_other m (c + header_size + size) x _ (omega arith)
