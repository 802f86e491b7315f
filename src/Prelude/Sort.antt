-- ===== src/Prelude/Sort.antt =====
-- `sort_by_key` (a stable sort), and `retain(|r| seen.insert(key(r)))` over a hash set of keys.
use ray_exomem.Prelude.{
  ◌≡◌, refl, sym, ap, ◌∙◌, ◌⊎◌, inl, inr, Bool, true, false, List, [], ◌∷◌, Memᴰ, Memᴰ-cons, Text,
  text_mem, text_eq, text_eq_iff, arith, if◌then◌else◌, Bool-cases, text_mem_cons,
}

module _ {ℓ} {A : Type ℓ} (le : A → A → Bool) where
  -- Equal keys keep their order: an element goes before those that are not smaller.
  unfoldable pub insert : A → List A → List A
  insert x [] = x ∷ []
  insert x (y ∷ ys) = if le x y then x ∷ y ∷ ys else y ∷ insert x ys

  unfoldable pub sort : List A → List A
  unfolding insert
  sort [] = []
  sort (x ∷ xs) = insert x (sort xs)

  abbrev pub AllAbove : A → List A → Type ℓ
  AllAbove x ys = (y : A) → Memᴰ y ys → le x y ≡ true

  abbrev pub IsSorted : List A → Type ℓ
  IsSorted [] = Unit
  IsSorted (x ∷ xs) = AllAbove x xs × IsSorted xs

  Memᴰ-insert : {a : A} (x : A) (ys : List A) → Memᴰ a (insert x ys) → (a ≡ x) ⊎ Memᴰ a ys
  unfolding insert
  Memᴰ-insert x [] m = Memᴰ-cons m
  Memᴰ-insert x (y ∷ ys) m = elim (Bool-cases (le x y)) [
    | inl t ↦ Memᴰ-cons (rw t at m)
    | inr f ↦ elim (Memᴰ-cons (rw f at m)) [
      | inl e ↦ inr (Memᴰ.head e)
      | inr n ↦ elim (Memᴰ-insert x ys n) [ inl e ↦ inl e | inr k ↦ inr (Memᴰ.tail k) ]
    ]
  ]

  Memᴰ-insert_self : (x : A) (ys : List A) → Memᴰ x (insert x ys)
  unfolding insert
  Memᴰ-insert_self x [] = Memᴰ.head refl
  Memᴰ-insert_self x (y ∷ ys) = elim (Bool-cases (le x y)) [
    | inl t ↦ rw t (Memᴰ.head refl)
    | inr f ↦ rw f (Memᴰ.tail (Memᴰ-insert_self x ys))
  ]

  Memᴰ-insert_of : {a : A} (x : A) {ys : List A} → Memᴰ a ys → Memᴰ a (insert x ys)
  unfolding insert
  Memᴰ-insert_of x (Memᴰ.head {x = y} e) = elim (Bool-cases (le x y)) [
    | inl t ↦ rw t (Memᴰ.tail (Memᴰ.head e))
    | inr f ↦ rw f (Memᴰ.head e)
  ]
  Memᴰ-insert_of x (Memᴰ.tail {x = y} m) = elim (Bool-cases (le x y)) [
    | inl t ↦ rw t (Memᴰ.tail (Memᴰ.tail m))
    | inr f ↦ rw f (Memᴰ.tail (Memᴰ-insert_of x m))
  ]

  pub Memᴰ-sort : {a : A} (xs : List A) → Memᴰ a (sort xs) → Memᴰ a xs
  unfolding sort
  Memᴰ-sort [] m = m
  Memᴰ-sort (x ∷ xs) m = elim (Memᴰ-insert x (sort xs) m) [
    | inl e ↦ Memᴰ.head e
    | inr n ↦ Memᴰ.tail (Memᴰ-sort xs n)
  ]

  pub Memᴰ-sort_of : {a : A} (xs : List A) → Memᴰ a xs → Memᴰ a (sort xs)
  unfolding sort
  Memᴰ-sort_of [] m = m
  Memᴰ-sort_of {a} (x ∷ xs) m = elim (Memᴰ-cons m) [
    | inl e ↦ rw e (Memᴰ-insert_self x (sort xs))
    | inr n ↦ Memᴰ-insert_of x (Memᴰ-sort_of xs n)
  ]

  abbrev pub IsTotal : Type ℓ
  IsTotal = (a b : A) → le a b ≡ false → le b a ≡ true

  abbrev pub IsTransitive : Type ℓ
  IsTransitive = (a b c : A) → le a b ≡ true → le b c ≡ true → le a c ≡ true

  module _ (total : IsTotal) (trans : IsTransitive) where
    insert-IsSorted : (x : A) (ys : List A) → IsSorted ys → IsSorted (insert x ys)
    unfolding insert
    insert-IsSorted x [] s = (λ y m. elim m [ ], tt)
    insert-IsSorted x (y ∷ ys) s = elim (Bool-cases (le x y)) [
      | inl t ↦
          rw t ((λ z m. elim (Memᴰ-cons m) [ inl e ↦ rw e t | inr n ↦ trans x y z t (s.0 z n) ]), s)
      | inr f ↦ rw f (
        (λ z m. elim (Memᴰ-insert x ys m) [ inl e ↦ rw e (total x y f) | inr n ↦ s.0 z n ]),
        insert-IsSorted x ys s.1,
      )
    ]

    pub sort-IsSorted : (xs : List A) → IsSorted (sort xs)
    unfolding sort
    sort-IsSorted [] = tt
    sort-IsSorted (x ∷ xs) = insert-IsSorted x (sort xs) (sort-IsSorted xs)

module _ {ℓ} {A : Type ℓ} (key : A → Text) where
  unfoldable pub keep_first : List Text → List A → List A
  keep_first seen [] = []
  keep_first seen (x ∷ xs) =
      let again = keep_first seen xs in
      let fresh = keep_first (key x ∷ seen) xs in if text_mem (key x) seen then again else x ∷ fresh

  abbrev pub HasKey : Text → List A → Type ℓ
  HasKey k xs = (a : A) × Memᴰ a xs × (key a ≡ k)

  abbrev pub AreDistinct : List A → Type ℓ
  AreDistinct [] = Unit
  AreDistinct (x ∷ xs) = ((y : A) → Memᴰ y xs → ¬ (key x ≡ key y)) × AreDistinct xs

  pub Memᴰ-keep_first :
      (seen : List Text) (xs : List A) {a : A}
      → Memᴰ a (keep_first seen xs)
      → Memᴰ a xs × (text_mem (key a) seen ≡ false)
  unfolding keep_first
  Memᴰ-keep_first seen [] m = elim m [ ]
  Memᴰ-keep_first seen (x ∷ xs) {a} m = elim (Bool-cases (text_mem (key x) seen)) [
    | inl t ↦ let (n, q) = Memᴰ-keep_first seen xs (rw t at m) in (Memᴰ.tail n, q)
    | inr f ↦ elim (Memᴰ-cons (rw f at m)) [
      | inl e ↦ (Memᴰ.head e, rw e f)
      | inr r ↦
          let (n, q) = Memᴰ-keep_first (key x ∷ seen) xs r in
          (Memᴰ.tail n, (text_mem_cons (key a) (key x) seen q).1)
    ]
  ]

  pub keep_first-AreDistinct : (seen : List Text) (xs : List A) → AreDistinct (keep_first seen xs)
  unfolding keep_first
  keep_first-AreDistinct seen [] = tt
  keep_first-AreDistinct seen (x ∷ xs) = elim (Bool-cases (text_mem (key x) seen)) [
    | inl t ↦ rw t (keep_first-AreDistinct seen xs)
    | inr f ↦ rw f (
      (λ y m e.
          let (_, q) = Memᴰ-keep_first (key x ∷ seen) xs m in
          (text_mem_cons (key y) (key x) seen q).0 e),
      keep_first-AreDistinct (key x ∷ seen) xs,
    )
  ]

  pub keep_first-HasKey :
      (seen : List Text) (xs : List A) {b : A}
      → Memᴰ b xs
      → text_mem (key b) seen ≡ false
      → HasKey (key b) (keep_first seen xs)
  unfolding keep_first
  keep_first-HasKey seen [] m f = elim m [ ]
  keep_first-HasKey seen (x ∷ xs) {b} m f = elim (Bool-cases (text_mem (key x) seen)) [
    | inl t ↦ elim (Memᴰ-cons m) [
      | inl e ↦ absurd (cc (f, t, ap key e))
      | inr n ↦ rw t (keep_first-HasKey seen xs n f)
    ]
    | inr g ↦ elim (Memᴰ-cons m) [
      | inl e ↦ rw g (x, Memᴰ.head refl, ap key (sym e))
      | inr n ↦ elim (Bool-cases (text_eq (key x) (key b))) [
        | inl same ↦ rw g (x, Memᴰ.head refl, (text_eq_iff (key x) (key b)).0 same)
        | inr other ↦
            let unseen : text_mem (key b) (key x ∷ seen) ≡ false =
              unfold text_mem in ground arith in
            let (a, k, e) = keep_first-HasKey (key x ∷ seen) xs n unseen in rw g (a, Memᴰ.tail k, e)
      ]
    ]
  ]

  module _ (le : A → A → Bool) (le_self : (a : A) → le a a ≡ true) where
    -- On a sorted list the row that is kept for a key is the least of that key.
    pub keep_first-le :
        (seen : List Text) (xs : List A) {a b : A}
        → IsSorted le xs
        → Memᴰ a (keep_first seen xs)
        → Memᴰ b xs
        → key b ≡ key a
        → le a b ≡ true
    unfolding keep_first
    keep_first-le seen [] s m n e = elim m [ ]
    keep_first-le seen (x ∷ xs) {a} {b} s m n e = elim (Bool-cases (text_mem (key x) seen)) [
      | inl t ↦
          let later = rw t at m in
          let (_, q) = Memᴰ-keep_first seen xs later in
          elim (Memᴰ-cons n) [
            | inl i ↦ absurd (cc (q, t, e, ap key i))
            | inr k ↦ keep_first-le seen xs s.1 later k e
          ]
      | inr f ↦ elim (Memᴰ-cons (rw f at m)) [
        | inl i ↦ elim (Memᴰ-cons n) [ inl j ↦ rw i (rw j (le_self x)) | inr k ↦ rw i (s.0 b k) ]
        | inr later ↦
            let (_, q) = Memᴰ-keep_first (key x ∷ seen) xs later in
            elim (Memᴰ-cons n) [
              | inl j ↦ absurd ((text_mem_cons (key a) (key x) seen q).0 (ap key (sym j) ∙ e))
              | inr k ↦ keep_first-le (key x ∷ seen) xs s.1 later k e
            ]
      ]
    ]
