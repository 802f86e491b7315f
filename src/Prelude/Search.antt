-- ===== src/Prelude/Search.antt =====
-- Searches in a list, against what is in the list.
use ray_exomem.Prelude.{
  ◌≡◌, refl, ap, Text, text_mem, text_eq, text_eq_iff, Bool, true, false, some, List, [], ◌∷◌, Memᴰ,
  Memᴰ-cons, inl, inr, Bool-cases, arith, any, all, find, ◌↔◌, sym,
}

module _ {ℓ} {A : Type ℓ} (p : A → Bool) where
  pub any-Memᴰ : (xs : List A) {a : A} → Memᴰ a xs → p a ≡ true → any p xs ≡ true
  unfolding any
  any-Memᴰ [] m h = elim m [ ]
  any-Memᴰ (x ∷ xs) (Memᴰ.head e) h = let here : p x ≡ true = cc (ap p e, h) in ground arith
  any-Memᴰ (x ∷ xs) (Memᴰ.tail m) h = let ih = any-Memᴰ xs m h in ground arith

  pub any_none : (xs : List A) → ((a : A) → Memᴰ a xs → p a ≡ false) → any p xs ≡ false
  unfolding any
  any_none [] h = refl
  any_none (x ∷ xs) h =
      let ih = any_none xs (λ a m. h a (Memᴰ.tail m)) in
      let here = h x (Memᴰ.head refl) in ground arith

  pub find_there :
      (xs : List A) {a : A} → Memᴰ a xs → p a ≡ true → (found : A) × (find p xs ≡ some found)
  unfolding find
  find_there [] m h = elim m [ ]
  find_there (x ∷ xs) m h = elim (Bool-cases (p x)) [
    | inl e ↦ rw e (x, refl)
    | inr e ↦ rw e (elim (Memᴰ-cons m) [
      | inl same ↦ absurd (cc (ap p same, h, e))
      | inr n ↦ find_there xs n h
    ])
  ]

  pub all-Memᴰ : (xs : List A) → all p xs ≡ true → (a : A) → Memᴰ a xs → p a ≡ true
  unfolding all
  all-Memᴰ [] h a m = elim m [ ]
  all-Memᴰ (x ∷ xs) h a m = elim (Memᴰ-cons m) [
    | inl e ↦ let here : p x ≡ true = ground arith in cc (ap p e, here)
    | inr n ↦ all-Memᴰ xs (ground arith) a n
  ]

pub text_mem-Memᴰ : (t : Text) (ts : List Text) → (text_mem t ts ≡ true) ↔ Memᴰ t ts
unfolding text_mem
text_mem-Memᴰ t [] = (λ h. absurd (cc h), λ m. elim m [ ])
text_mem-Memᴰ t (x ∷ xs) = (
  λ h. elim (Bool-cases (text_eq x t)) [
    | inl e ↦ Memᴰ.head (sym ((text_eq_iff x t).0 e))
    | inr e ↦ Memᴰ.tail ((text_mem-Memᴰ t xs).0 (ground arith))
  ],
  λ m. elim (Memᴰ-cons m) [
    | inl e ↦ let here = (text_eq_iff x t).1 (sym e) in ground arith
    | inr n ↦ let there = (text_mem-Memᴰ t xs).1 n in ground arith
  ],
)
