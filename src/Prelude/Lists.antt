-- ===== src/Prelude/Lists.antt =====
-- Lists as Rust's `Vec` and iterators use them, with lengths in native numbers.
use Prim.Native.Nat.{ℕ, suc, ◌+◌}
use mathlib.Core.Path.{◌≡◌, refl, sym, ap, ◌∙◌}
use mathlib.Core.Logic.{◌⊎◌, inl, inr}
use mathlib.Core.Bool.{Bool, true, false, ◌&&◌, ◌||◌}
use mathlib.Core.Option.{Option, none, some}
use mathlib.Core.List.{List, [], ◌∷◌, ◌++◌, Memᴰ}
use native.Mathlib.Omega.{arith}
use ray_exomem.Prelude.Tests.{if◌then◌else◌, Bool-cases}

module _ {ℓ} {A : Type ℓ} where
  abbrev pub length : List A → ℕ
  length [] = 0
  length (x ∷ xs) = suc (length xs)

  -- `iter().any`
  unfoldable pub any : (A → Bool) → List A → Bool
  any p [] = false
  any p (x ∷ xs) = p x || any p xs

  unfoldable pub all : (A → Bool) → List A → Bool
  all p [] = true
  all p (x ∷ xs) = p x && all p xs

  -- `iter().filter` and `Vec::retain`
  unfoldable pub retain : (A → Bool) → List A → List A
  retain p [] = []
  retain p (x ∷ xs) = let rest = retain p xs in if p x then x ∷ rest else rest

  -- `iter().find`
  unfoldable pub find : (A → Bool) → List A → Option A
  find p [] = none
  find p (x ∷ xs) = if p x then some x else find p xs

  unfoldable pub last : List A → Option A
  last [] = none
  last (x ∷ []) = some x
  last (x ∷ y ∷ ys) = last (y ∷ ys)

  -- A change of the first element that passes the test (`iter_mut().find`), or of all of them.
  unfoldable pub update_first : (A → Bool) → (A → A) → List A → List A
  update_first p f [] = []
  update_first p f (x ∷ xs) = if p x then f x ∷ xs else x ∷ update_first p f xs

  unfoldable pub update_all : (A → Bool) → (A → A) → List A → List A
  update_all p f [] = []
  update_all p f (x ∷ xs) = (if p x then f x else x) ∷ update_all p f xs

  pub length-append : (xs ys : List A) → length (xs ++ ys) ≡ length xs + length ys
  length-append [] ys = omega arith
  length-append (x ∷ xs) ys = omega (arith, length-append xs ys)

  pub Memᴰ-cons : {a b : A} {xs : List A} → Memᴰ a (b ∷ xs) → (a ≡ b) ⊎ Memᴰ a xs
  Memᴰ-cons (Memᴰ.head e) = inl e
  Memᴰ-cons (Memᴰ.tail m) = inr m

  pub Memᴰ-append : {a : A} (xs : List A) {ys : List A} → Memᴰ a (xs ++ ys) → Memᴰ a xs ⊎ Memᴰ a ys
  Memᴰ-append [] m = inr m
  Memᴰ-append (x ∷ xs) m = elim (Memᴰ-cons m) [
    | inl e ↦ inl (Memᴰ.head e)
    | inr n ↦ elim (Memᴰ-append xs n) [ inl l ↦ inl (Memᴰ.tail l) | inr r ↦ inr r ]
  ]

  pub Memᴰ-append_left : {a : A} {xs : List A} (ys : List A) → Memᴰ a xs → Memᴰ a (xs ++ ys)
  Memᴰ-append_left ys (Memᴰ.head e) = Memᴰ.head e
  Memᴰ-append_left ys (Memᴰ.tail m) = Memᴰ.tail (Memᴰ-append_left ys m)

  pub Memᴰ-append_right : {a : A} (xs : List A) {ys : List A} → Memᴰ a ys → Memᴰ a (xs ++ ys)
  Memᴰ-append_right [] m = m
  Memᴰ-append_right (x ∷ xs) m = Memᴰ.tail (Memᴰ-append_right xs m)

  pub Memᴰ-retain :
      (p : A → Bool) (xs : List A) {a : A} → Memᴰ a (retain p xs) → Memᴰ a xs × (p a ≡ true)
  unfolding retain
  Memᴰ-retain p [] m = elim m [ ]
  Memᴰ-retain p (x ∷ xs) {a} m = elim (Bool-cases (p x)) [
    | inl t ↦ elim (Memᴰ-cons (rw t at m)) [
      | inl e ↦ (Memᴰ.head e, ap p e ∙ t)
      | inr r ↦ let (n, q) = Memᴰ-retain p xs r in (Memᴰ.tail n, q)
    ]
    | inr f ↦ let (n, q) = Memᴰ-retain p xs (rw f at m) in (Memᴰ.tail n, q)
  ]

  pub Memᴰ-retain_of :
      (p : A → Bool) {a : A} {xs : List A} → Memᴰ a xs → p a ≡ true → Memᴰ a (retain p xs)
  unfolding retain
  Memᴰ-retain_of p (Memᴰ.head e) t = let u = ap p (sym e) ∙ t in rw u (Memᴰ.head e)
  Memᴰ-retain_of p (Memᴰ.tail {x = x} {xs = xs} m) t = elim (Bool-cases (p x)) [
    | inl u ↦ rw u (Memᴰ.tail (Memᴰ-retain_of p m t))
    | inr u ↦ rw u (Memᴰ-retain_of p m t)
  ]

  abbrev pub change : (A → Bool) → (A → A) → A → A
  change p f x = if p x then f x else x

  pub Memᴰ-update_all :
      (p : A → Bool) (f : A → A) (xs : List A) {a : A}
      → Memᴰ a (update_all p f xs)
      → (x : A) × Memᴰ x xs × (a ≡ change p f x)
  unfolding update_all
  Memᴰ-update_all p f [] m = elim m [ ]
  Memᴰ-update_all p f (x ∷ xs) m = elim (Memᴰ-cons m) [
    | inl e ↦ (x, Memᴰ.head refl, e)
    | inr n ↦ let (y, k, e) = Memᴰ-update_all p f xs n in (y, Memᴰ.tail k, e)
  ]

  pub Memᴰ-update_all_of :
      (p : A → Bool) (f : A → A) {a : A} {xs : List A}
      → Memᴰ a xs
      → Memᴰ (change p f a) (update_all p f xs)
  unfolding update_all
  Memᴰ-update_all_of p f (Memᴰ.head e) = Memᴰ.head (ap (change p f) e)
  Memᴰ-update_all_of p f (Memᴰ.tail m) = Memᴰ.tail (Memᴰ-update_all_of p f m)

  pub Memᴰ-single : {a x : A} → Memᴰ a (x ∷ []) → a ≡ x
  Memᴰ-single m = elim (Memᴰ-cons m) [ inl e ↦ e | inr n ↦ elim n [ ] ]

  pub update_all-none : (f : A → A) (xs : List A) → update_all (λ _. false) f xs ≡ xs
  unfolding update_all
  update_all-none f [] = refl
  update_all-none f (x ∷ xs) = ap (λ ys. x ∷ ys) (update_all-none f xs)

  pub find-Memᴰ :
      (p : A → Bool) (xs : List A) {a : A} → find p xs ≡ some a → Memᴰ a xs × (p a ≡ true)
  unfolding find
  find-Memᴰ p [] e = absurd (cc e)
  find-Memᴰ p (x ∷ xs) {a} e = elim (Bool-cases (p x)) [
    | inl t ↦
        let u : some x ≡ some a = rw t at e in
        let i : x ≡ a = cc in (Memᴰ.head (sym i), ap p (sym i) ∙ t)
    | inr f ↦ let (m, t) = find-Memᴰ p xs (rw f at e) in (Memᴰ.tail m, t)
  ]

  pub retain-append :
      (p : A → Bool) (xs ys : List A) → retain p (xs ++ ys) ≡ retain p xs ++ retain p ys
  unfolding retain
  retain-append p [] ys = refl
  retain-append p (x ∷ xs) ys = elim (Bool-cases (p x)) [
    | inl t ↦ rw (t, retain-append p xs ys)
    | inr f ↦ rw (f, retain-append p xs ys)
  ]

  -- A change of elements that are dropped, before and after, is not seen.
  pub retain-update_all :
      (q p : A → Bool) (f : A → A) (xs : List A)
      → ((x : A) → p x ≡ true → (q x ≡ false) × (q (f x) ≡ false))
      → retain q (update_all p f xs) ≡ retain q xs
  unfolding retain update_all
  retain-update_all q p f [] h = refl
  retain-update_all q p f (x ∷ xs) h = elim (Bool-cases (p x)) [
    | inl t ↦ let (a, b) = h x t in rw (t, a, b, retain-update_all q p f xs h)
    | inr u ↦ rw (u, retain-update_all q p f xs h)
  ]

  pub retain-eq-nil :
      (q : A → Bool) (xs : List A) → ((x : A) → Memᴰ x xs → q x ≡ false) → retain q xs ≡ []
  unfolding retain
  retain-eq-nil q [] h = refl
  retain-eq-nil q (x ∷ xs) h =
      rw (h x (Memᴰ.head refl)) (retain-eq-nil q xs (λ y m. h y (Memᴰ.tail m)))
