-- ===== src/Prelude/Texts.antt =====
-- Rust's `str` as its UTF-8 bytes: equality, the lexicographic order of `Ord`, prefixes.
use Prim.Native.Nat.{ℕ}
use Prim.Native.Char.{code}
use Prim.Native.String.{String}
use mathlib.Core.Path.{◌≡◌, refl}
use mathlib.Core.Logic.{◌↔◌}
use mathlib.Core.Bool.{Bool, true, false, ◌&&◌, ◌||◌}
use mathlib.Core.Option.{Option, none, some}
use mathlib.Core.List.{List, [], ◌∷◌, ◌++◌}
use native.Mathlib.Omega.{arith}
use ray_exomem.Prelude.Tests.{◌==◌, ltb}

abbrev pub Text : Type 0
Text = List ℕ

-- The bytes of an ASCII literal.
abbrev pub codes : String → Text
codes String.[] = []
codes (String.◌∷◌ c s) = code c ∷ codes s

unfoldable pub text_eq : Text → Text → Bool
text_eq [] [] = true
text_eq (x ∷ xs) (y ∷ ys) = x == y && text_eq xs ys
text_eq _ _ = false

-- `a <= b` on `str`
unfoldable pub text_leb : Text → Text → Bool
text_leb [] b = true
text_leb (x ∷ xs) [] = false
text_leb (x ∷ xs) (y ∷ ys) = ltb x y || (x == y && text_leb xs ys)

pub text_eq_refl : (a : Text) → text_eq a a ≡ true
unfolding text_eq
text_eq_refl [] = refl
text_eq_refl (x ∷ xs) = ground (arith, text_eq_refl xs)

text_eq_sound : (a b : Text) → text_eq a b ≡ true → a ≡ b
unfolding text_eq
text_eq_sound [] [] h = refl
text_eq_sound (x ∷ xs) (y ∷ ys) h = ground (arith, text_eq_sound xs ys)
text_eq_sound _ _ h = cc

pub text_eq_iff : (a b : Text) → (text_eq a b ≡ true) ↔ (a ≡ b)
text_eq_iff a b = (text_eq_sound a b, λ e. rw e (text_eq_refl b))

pub Text-set : IsSet Text
Text-set = hlevel

unfoldable pub text_mem : Text → List Text → Bool
text_mem t [] = false
text_mem t (x ∷ xs) = text_eq x t || text_mem t xs

-- `o == Some(t)` on an optional string.
abbrev pub is_text : Option Text → Text → Bool
is_text none t = false
is_text (some s) t = text_eq s t

unfoldable pub starts_with : Text → Text → Bool
starts_with text [] = true
starts_with [] (p ∷ ps) = false
starts_with (c ∷ cs) (p ∷ ps) = c == p && starts_with cs ps

pub starts_with_self : (t : Text) → starts_with t t ≡ true
unfolding starts_with
starts_with_self [] = refl
starts_with_self (x ∷ xs) = ground (arith, starts_with_self xs)

pub starts_with-append : (p t : Text) → starts_with (p ++ t) p ≡ true
unfolding starts_with
starts_with-append [] [] = refl
starts_with-append [] (c ∷ cs) = refl
starts_with-append (x ∷ xs) t = ground (arith, starts_with-append xs t)

pub text_mem_cons :
    (t x : Text) (xs : List Text)
    → text_mem t (x ∷ xs) ≡ false
    → (¬ (x ≡ t)) × (text_mem t xs ≡ false)
unfolding text_mem
text_mem_cons t x xs h = (λ e. ground (arith, (text_eq_iff x t).1 e), ground arith)

pub starts_with_sound : (p t : Text) → starts_with t p ≡ true → (rest : Text) × (t ≡ p ++ rest)
unfolding starts_with
starts_with_sound [] t h = (t, refl)
starts_with_sound (x ∷ p) [] h = absurd (cc h)
starts_with_sound (x ∷ p) (y ∷ t) h =
    let (rest, e) = starts_with_sound p t (ground arith) in
    let i : y ≡ x = ground arith in (rest, cc (e, i))
