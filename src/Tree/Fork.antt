-- ===== src/Tree/Fork.antt =====
-- `default_fork_target` of src/exom.rs. Whether a path is taken on disk is a parameter.
mod Tests
use mathlib.Core.Path.{subst}
use mathlib.Core.List.{append_assoc}
use ray_exomem.Prelude.{
  ◌≡◌, refl, sym, ap, ◌∙◌, ℕ, zero, suc, ◌+◌, ◌/◌, ◌%◌, ◌≤◌, ◌<◌, Text, codes, text_eq, starts_with,
  starts_with-append, Bool, true, false, ◌||◌, Option, none, some, List, [], ◌∷◌, ◌++◌, ◌==◌, ltb,
  if◌then◌else◌, unwrap_or, Bool-cases, inl, inr, ◌⊎◌, arith,
}
use ray_exomem.Prelude.Fallible.{Fallible, ok, err}
use ray_exomem.Path.{slash, is_nonempty}
use ray_exomem.Auth.Access.{is_within, public_root}

pub data ForkCollision : Type 0 where
  fork_collision : ForkCollision

unfoldable pub strip_prefix : (text prefix : Text) → Option Text
strip_prefix text [] = some text
strip_prefix [] (p ∷ prefix) = none
strip_prefix (c ∷ text) (p ∷ prefix) = if c == p then strip_prefix text prefix else none

abbrev forked : Text
forked = codes "forked"

abbrev stripped : (source root : Text) → Text
stripped source root = unwrap_or (strip_prefix source (root ++ slash ∷ [])) forked

-- The source without the folder of its owner, where that is `public` or the user.
unfoldable pub subpath : (user_email source_slash : Text) → Text
subpath user source =
    if is_within public_root source
    then stripped source public_root
    else if is_within user source
    then stripped source user
    else source

abbrev or_last : Text → Option Text → Text
or_last sub source_last = if is_nonempty sub then sub else unwrap_or source_last forked

unfoldable pub fork_base : (user_email source_slash : Text) → (source_last : Option Text) → Text
fork_base user source source_last =
    user ++ slash ∷ (forked ++ slash ∷ or_last (subpath user source) source_last)

-- A number of up to three digits.
unfoldable pub decimal : ℕ → Text
decimal n =
    if ltb n 10
    then (48 + n) ∷ []
    else if ltb n 100
    then (48 + n / 10) ∷ (48 + n % 10) ∷ []
    else (48 + n / 100) ∷ (48 + (n / 10) % 10) ∷ (48 + n % 10) ∷ []

abbrev pub suffixed : (base : Text) → ℕ → Text
suffixed base i = base ++ b'-' ∷ decimal i

-- The loop, with `i` for the next suffix; it gives up in the round that makes `i` greater than 100.
unfoldable pub fork_loop :
    ℕ
    → (exists : Text → Bool) → (base : Text) → (i : ℕ) → (candidate : Text)
    → Fallible ForkCollision Text
fork_loop zero exists base i candidate = err ForkCollision.fork_collision
fork_loop (suc fuel) exists base i candidate = elim (exists candidate) [
  | false ↦ ok candidate
  | true ↦ elim (ltb 100 (i + 1)) [
    | true ↦ err ForkCollision.fork_collision
    | false ↦ fork_loop fuel exists base (i + 1) (suffixed base i)
  ]
]

unfoldable pub default_fork_target :
    (exists : Text → Bool)
    → (user_email source_slash : Text) → (source_last : Option Text) → Fallible ForkCollision Text
default_fork_target exists user source source_last =
    let base = fork_base user source source_last in fork_loop 99 exists base 2 base

-- The candidates in their order: the base is the first.
abbrev pub candidate_at : (base : Text) → ℕ → Text
candidate_at base k = if k == 1 then base else suffixed base k

module _ (exists : Text → Bool) (base : Text) where
  abbrev pub AllTaken : ℕ → Type 0
  AllTaken k = (j : ℕ) → 1 ≤ j → j < k → exists (candidate_at base j) ≡ true

  -- The first candidate that is free, or all 99 are taken.
  abbrev pub IsFirstFree : Fallible ForkCollision Text → Type 0
  IsFirstFree (ok target) =
      (k : ℕ) × (1 ≤ k)
      × (k ≤ 99)
      × (target ≡ candidate_at base k)
      × (exists target ≡ false)
      × AllTaken k
  IsFirstFree (err e) = AllTaken 100

  one_more : (k : ℕ) → exists (candidate_at base k) ≡ true → AllTaken k → AllTaken (k + 1)
  one_more k h taken j a b = elim (Bool-cases (j == k)) [
    | inl e ↦ let same : j ≡ k = ground arith in rw same h
    | inr e ↦ let less : j < k = ground arith in taken j a less
  ]

  fork_loop-taken :
      (fuel i : ℕ) (candidate : Text)
      → exists candidate ≡ true
      → ltb 100 (i + 1) ≡ false
      → fork_loop (suc fuel) exists base i candidate
        ≡ fork_loop fuel exists base (i + 1) (suffixed base i)
  unfolding fork_loop
  fork_loop-taken fuel i candidate h k = rw (fork_loop, h, k) refl

  fork_loop-IsFirstFree :
      (fuel k : ℕ)
      → 1 ≤ k
      → k + fuel ≡ 100
      → 1 ≤ fuel
      → AllTaken k
      → IsFirstFree (fork_loop fuel exists base (k + 1) (candidate_at base k))
  unfolding fork_loop
  fork_loop-IsFirstFree zero k a b c taken = absurd (omega arith)
  fork_loop-IsFirstFree (suc fuel) k a b c taken =
      elim (Bool-cases (exists (candidate_at base k))) [
        | inr free ↦ rw (fork_loop, free) (k, a, omega arith, refl, free, taken)
        | inl used ↦ elim (Bool-cases (ltb 100 (k + 1 + 1))) [
          | inl last ↦
              let end : k + 1 ≡ 100 = ground arith in
              rw (fork_loop, used, last) (subst AllTaken end (one_more k used taken))
          | inr more ↦
              let round = fork_loop-taken fuel (k + 1) (candidate_at base k) used more in
              let next : suffixed base (k + 1) ≡ candidate_at base (k + 1) = ground arith in
              let later =
                fork_loop-IsFirstFree fuel (k + 1) (omega arith) (omega arith) (ground arith)
                  (one_more k used taken) in
              subst IsFirstFree (sym (round ∙ ap (fork_loop fuel exists base (k + 1 + 1)) next))
                later
        ]
      ]

within_front : (user rest : Text) → is_within user (user ++ slash ∷ rest) ≡ true
unfolding is_within
within_front user rest =
    let front : starts_with (user ++ slash ∷ rest) (user ++ slash ∷ []) ≡ true =
      ap (λ t. starts_with t (user ++ slash ∷ [])) (sym (append_assoc user (slash ∷ []) rest))
      ∙ starts_with-append (user ++ slash ∷ []) rest in
    ground arith

candidate_within :
    (user rest : Text) (k : ℕ) → is_within user (candidate_at (user ++ slash ∷ rest) k) ≡ true
candidate_within user rest k = elim (Bool-cases (k == 1)) [
  | inl e ↦ rw e (within_front user rest)
  | inr e ↦ rw e (
      ap (is_within user) (append_assoc user (slash ∷ rest) (b'-' ∷ decimal k))
      ∙ within_front user (rest ++ b'-' ∷ decimal k))
]

-- The target of a fork is the first of the 99 candidates that is free, each of which lies in the
-- user's own namespace; it is an error where all are taken.
pub default_fork_target-IsFirstFree :
    (exists : Text → Bool) (user source : Text) (source_last : Option Text)
    → IsFirstFree exists
        (fork_base user source source_last)
        (default_fork_target exists user source source_last)
      × ((k : ℕ) → is_within user (candidate_at (fork_base user source source_last) k) ≡ true)
unfolding default_fork_target fork_base
default_fork_target-IsFirstFree exists user source source_last =
    let base = fork_base user source source_last in
    (
      fork_loop-IsFirstFree exists base 99 1 (omega arith) refl (omega arith)
          (λ j a b. absurd (omega arith)),
      candidate_within user (forked ++ slash ∷ or_last (subpath user source) source_last),
    )
