-- ===== src/Runtime/Strings.antt =====
-- What `kstrcmp` tells of two strings.
use morphic_os_dev.Base.{
  Bool-cases, inl, inr, true, false, ◌≡◌, ◌≢◌, refl, sym, ap, ◌∙◌, [], ◌∷◌, arith,
}
use morphic_os_dev.Base.Int.{ℤ, pos, negsuc}
use morphic_os_dev.Runtime.{Text, kstrcmp, is_zero, same_text}

-- A C string holds no NUL.
abbrev pub NoNul : Text → Type 0
NoNul [] = Unit {0}
NoNul (a ∷ s) = (a ≢ 0) × NoNul s

kstrcmp_refl : (s : Text) → kstrcmp s s ≡ pos 0
unfolding kstrcmp
kstrcmp_refl [] = refl
kstrcmp_refl (a ∷ s) = ground (arith, kstrcmp_refl s)

kstrcmp_zero : (s t : Text) → NoNul s → NoNul t → kstrcmp s t ≡ pos 0 → s ≡ t
unfolding kstrcmp
kstrcmp_zero [] [] p q e = refl
kstrcmp_zero [] (b ∷ t) p q e = ground arith
kstrcmp_zero (a ∷ s) [] p q e = ground arith
kstrcmp_zero (a ∷ s) (b ∷ t) p q e = ground (arith, kstrcmp_zero s t)

-- Two C strings compare as equal exactly if they are equal.
pub kstrcmp_lem :
    (s t : Text) → NoNul s → NoNul t → (kstrcmp s t ≡ pos 0 → s ≡ t) × (s ≡ t → kstrcmp s t ≡ pos 0)
kstrcmp_lem s t p q = (kstrcmp_zero s t p q, λ e. ap (kstrcmp s) (sym e) ∙ kstrcmp_refl s)

pub same_text-equal : (s t : Text) → NoNul s → NoNul t → same_text s t ≡ true → s ≡ t
same_text-equal s t p q e = (kstrcmp_lem s t p q).0 (zero_result (kstrcmp s t) e)
  where
    zero_result : (d : ℤ) → is_zero d ≡ true → d ≡ pos 0
    zero_result (pos n) h = ap pos (ground (arith, h))
    zero_result (negsuc n) h = absurd (ground (arith, h))

pub same_text-differ : (s t : Text) → NoNul s → NoNul t → same_text s t ≡ false → s ≢ t
same_text-differ s t p q e h = absurd (ground (arith, e, ap is_zero ((kstrcmp_lem s t p q).1 h)))

pub same_text_refl : (s : Text) → NoNul s → same_text s s ≡ true
same_text_refl s p = elim (Bool-cases (same_text s s)) [
  | inl e ↦ e
  | inr e ↦ absurd (same_text-differ s s p p e refl)
]

pub same_text_sym : (s t : Text) → NoNul s → NoNul t → same_text s t ≡ false → same_text t s ≡ false
same_text_sym s t p q e = elim (Bool-cases (same_text t s)) [
  | inl f ↦ absurd (same_text-differ s t p q e (sym (same_text-equal t s q p f)))
  | inr f ↦ f
]
