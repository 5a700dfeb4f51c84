-- ===== src/Partition/Table.antt =====
-- Which partitions a scan registers.
use morphic_os_dev.Base.{
  ℕ, zero, suc, ◌+◌, ◌-◌, ◌≤◌, ◌<◌, ◌≡◌, sym, ap, ◌∙◌, inl, inr, true, some, List, [], ◌∷◌, ◌++◌,
  leb, ◌==◌, if◌then◌else◌, length, length-append, take, append-nil, append_assoc, arith,
  Bool-cases, leb→le, leb→lt,
}
use morphic_os_dev.Runtime.{Text}
use morphic_os_dev.Storage.{ReadFunc, BlockDevice}
use morphic_os_dev.Partition.{
  Partition, entry_at, signature, partition_of, is_used, scan_entries, scan_device,
}

-- The used entries among `n`, from the entry `i` on.
unfoldable pub used_from : ℕ → Text → (ℕ → ℕ) → ℕ → List Partition
used_from zero device b i = []
used_from (suc n) device b i =
    let rest = used_from n device b (i + 1) in
    if is_used (entry_at b i) then partition_of device i (entry_at b i) ∷ rest else rest

-- As many of them as there is room for.
abbrev pub registered : ℕ → List Partition → List Partition → ℕ × List Partition
registered found ps us = (found + length (take (32 - length ps) us), ps ++ take (32 - length ps) us)

no_more :
    (found : ℕ) (ps : List Partition)
    → ◌≡◌ {A = ℕ × List Partition} (found + 0, ps ++ []) (found, ps)
no_more found ps =
    ap (λ (n : ℕ). (n, ps ++ [])) {x = found + 0} {y = found} (omega arith)
    ∙ ap (λ (l : List Partition). (found, l)) (append-nil ps)

none_left :
    (n found : ℕ) (ps : List Partition)
    → ◌≡◌ {A = ℕ × List Partition}
        (found + length (take {A = Partition} n []), ps ++ take {A = Partition} n [])
        (found, ps)
none_left zero found ps = no_more found ps
none_left (suc n) found ps = no_more found ps

full : (found : ℕ) (ps us : List Partition) → 32 ≤ length ps → registered found ps us ≡ (found, ps)
full found ps us le = let e : 32 - length ps ≡ 0 = omega (arith, le) in rw (e) (no_more found ps)

added :
    (found : ℕ) (ps us : List Partition) (p : Partition)
    → length ps < 32
    → registered (found + 1) (ps ++ p ∷ []) us ≡ registered found ps (p ∷ us)
added found ps us p lt =
    let r = 32 - length (ps ++ p ∷ []) in
    let e : 32 - length ps ≡ suc r = omega (arith, lt, length-append ps (p ∷ [])) in
    let rest = take r us in
    rw (e) (
      ap (λ (n : ℕ). (n, (ps ++ p ∷ []) ++ rest)) {x = found + 1 + length rest}
        {y = found + suc (length rest)} (omega arith)
      ∙ ap (λ (l : List Partition). (found + suc (length rest), l)) (append_assoc ps (p ∷ []) rest))

scan_entries-registered :
    (n : ℕ) (device : Text) (b : ℕ → ℕ) (i found : ℕ) (ps : List Partition)
    → length ps ≤ 32
    → scan_entries n device b i found ps ≡ registered found ps (used_from n device b i)
unfolding scan_entries used_from
scan_entries-registered zero device b i found ps le = sym (none_left (32 - length ps) found ps)
scan_entries-registered (suc n) device b i found ps le =
    elim (Bool-cases (is_used (entry_at b i))) [
      | inr f ↦ rw (f) (scan_entries-registered n device b (i + 1) found ps le)
      | inl t ↦ elim (Bool-cases (leb 32 (length ps))) [
        | inl u ↦ rw (t, u) (sym (full found ps _ (leb→le 32 (length ps) u)))
        | inr v ↦
            let lt = leb→lt 32 (length ps) v in
            let p = partition_of device i (entry_at b i) in
            rw (t, v)
              (scan_entries-registered n device b (i + 1) (found + 1) (ps ++ p ∷ [])
                  (omega (arith, lt, length-append ps (p ∷ [])))
                ∙ added found ps (used_from n device b (i + 1)) p lt)
      ]
    ]

-- The used entries of a boot record, if the sector is one.
abbrev pub record_partitions : Text → (ℕ → ℕ) → List Partition
record_partitions device b = if signature b == 0xaa55 then used_from 4 device b 0 else []

-- With at most 32 partitions before, a scan whose read succeeds registers the used entries, in their order, up to 32 partitions in all,
-- and returns how many.
pub scan_device-registered :
    {H : Type 0} (junk : ℕ → ℕ) (d : BlockDevice H) (ps : List Partition) (h : H)
    (read : ReadFunc H)
    → length ps ≤ 32
    → d.read_blocks ≡ some read
    → (read 0 1 junk h).0 ≡ true
    → scan_device junk d ps h ≡ registered 0 ps (record_partitions d.name (read 0 1 junk h).1)
unfolding scan_device
scan_device-registered junk d ps h read le can_read ok =
    elim (Bool-cases (signature (read 0 1 junk h).1 == 0xaa55)) [
      | inl t ↦
          rw (can_read, scan_device, ok, t)
            (scan_entries-registered 4 d.name (read 0 1 junk h).1 0 0 ps le)
      | inr f ↦ rw (can_read, scan_device, ok, f) (sym (none_left (32 - length ps) 0 ps))
    ]
