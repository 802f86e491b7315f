-- ===== src/Brain/Predicate.antt =====
-- src/brain.rs: `validate_predicate_name`. White space is that of `char::is_whitespace`, read off
-- the UTF-8 bytes. The check for space at the ends is part of the check for space anywhere, since
-- both give the same error here.
use ray_exomem.Prelude.{
  ℕ, Text, Bool, true, false, ◌&&◌, ◌||◌, [], ◌∷◌, ◌==◌, leb, if◌then◌else◌, any,
}

abbrev pub is_ascii_space : ℕ → Bool
is_ascii_space c = (leb 9 c && leb c 13) || c == 32

-- U+0085 and U+00A0.
abbrev pub is_space2 : ℕ → ℕ → Bool
is_space2 a b = a == 0xc2 && (b == 0x85 || b == 0xa0)

-- U+1680, U+2000 to U+200A, U+2028, U+2029, U+202F, U+205F, U+3000.
abbrev pub is_space3 : ℕ → ℕ → ℕ → Bool
is_space3 a b c =
    (a == 0xe1 && (b == 0x9a && c == 0x80))
    || ((a == 0xe2
          && (b == 0x80 && ((leb 0x80 c && leb c 0x8a) || (c == 0xa8 || (c == 0xa9 || c == 0xaf)))))
        || ((a == 0xe2 && (b == 0x81 && c == 0x9f)) || (a == 0xe3 && (b == 0x80 && c == 0x80))))

unfoldable pub has_space : Text → Bool
has_space [] = false
has_space (a ∷ []) = is_ascii_space a
has_space (a ∷ b ∷ []) = is_ascii_space a || (is_space2 a b || has_space (b ∷ []))
has_space (a ∷ b ∷ c ∷ rest) =
    is_ascii_space a || (is_space2 a b || (is_space3 a b c || has_space (b ∷ c ∷ rest)))

unfoldable pub has_quote : Text → Bool
has_quote name = any (λ c. c == 39 || c == 34) name

unfoldable pub validate_predicate_name : Text → Bool
validate_predicate_name [] = false
validate_predicate_name (c ∷ name) =
    if has_space (c ∷ name) then false else if has_quote (c ∷ name) then false else true
