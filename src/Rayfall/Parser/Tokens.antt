-- ===== src/Rayfall/Parser/Tokens.antt =====
-- The pieces of a printed text of src/rayfall_ast.rs, read back: symbols, strings, white space.
use mathlib.Core.List.{append_assoc}
use ray_exomem.Prelude.{
  ℕ, ◌≡◌, refl, ap, sym, ◌∙◌, Text, Bool, true, false, not, ◌&&◌, ◌||◌, [], ◌∷◌, ◌++◌, ◌==◌, leb,
  arith, Bool-cases, inl, inr, ==_iff,
}
use ray_exomem.Brain.Predicate.{is_ascii_space}
use ray_exomem.Rayfall.{
  Expr, list, symbol, string, quote, Exprs, no_items, item, emit, escape_string, escape_char,
  double_quote, backslash, blank, apostrophe, open_paren, close_paren, newline,
}
use ray_exomem.Rayfall.Parser.{
  Parsed, ok, push, space_len, skip, skip_ws_and_comments, stops, take_symbol, unescape_char,
  read_string,
}

-- A text that can stand for a symbol: not empty, and nothing in it ends a symbol.
unfoldable pub has_no_stop : Text → Bool
has_no_stop [] = true
has_no_stop (c ∷ t) = not (stops (c ∷ t)) && has_no_stop t

unfoldable pub is_name : Text → Bool
is_name [] = false
is_name (c ∷ t) = has_no_stop (c ∷ t)

unfoldable mutual
  pub is_clean : Expr → Bool
  is_clean (list items) = are_clean items
  is_clean (symbol value) = is_name value
  is_clean (string value) = true
  is_clean (quote inner) = is_clean inner

  pub are_clean : Exprs → Bool
  are_clean no_items = true
  are_clean (item e items) = is_clean e && are_clean items

-- What may follow an expression in a print: nothing, a blank, or the end of a list.
abbrev pub is_boundary : Text → Bool
is_boundary [] = true
is_boundary (c ∷ t) = c == blank || c == close_paren

pub space_len_ascii :
    (c : ℕ) (t : Text) → leb c 127 ≡ true → is_ascii_space c ≡ false → space_len (c ∷ t) ≡ 0
unfolding space_len
space_len_ascii c [] a h = rw h
space_len_ascii c (d ∷ []) a h = ground arith
space_len_ascii c (d ∷ e ∷ t) a h = ground arith

stops-append :
    (c : ℕ) (t rest : Text)
    → is_boundary rest ≡ true
    → stops (c ∷ t) ≡ false
    → stops ((c ∷ t) ++ rest) ≡ false
unfolding stops space_len
stops-append c [] [] b h = h
stops-append c [] (x ∷ []) b h = ground arith
stops-append c [] (x ∷ y ∷ rest) b h = ground arith
stops-append c (d ∷ []) [] b h = h
stops-append c (d ∷ []) (x ∷ rest) b h = ground arith
stops-append c (d ∷ e ∷ t) rest b h = h

boundary-stops : (rest : Text) → is_boundary rest ≡ true → stops rest ≡ true
unfolding stops space_len
boundary-stops [] b = refl
boundary-stops (c ∷ []) b = ground arith
boundary-stops (c ∷ d ∷ []) b = ground arith
boundary-stops (c ∷ d ∷ e ∷ t) b = ground arith

take_boundary : (rest : Text) → stops rest ≡ true → take_symbol rest ≡ ([], rest)
unfolding take_symbol
take_boundary [] h = refl
take_boundary (c ∷ t) h = rw h

pub take_symbol-append :
    (name rest : Text)
    → has_no_stop name ≡ true
    → is_boundary rest ≡ true
    → take_symbol (name ++ rest) ≡ (name, rest)
unfolding take_symbol has_no_stop
take_symbol-append [] rest h b = take_boundary rest (boundary-stops rest b)
take_symbol-append (c ∷ t) rest h b =
    let here : stops (c ∷ t) ≡ false = ground arith in
    rw (stops-append c t rest b here, take_symbol-append t rest (ground arith) b)

-- A string is read up to its closing quote.
uncons : (t rest : Text) (c : ℕ) → (d : ℕ) × (u : Text) × (t ++ c ∷ rest ≡ d ∷ u)
uncons [] rest c = (c, rest, refl)
uncons (d ∷ t) rest c = (d, t ++ c ∷ rest, refl)

read_plain :
    (c d : ℕ) (t : Text)
    → c == double_quote ≡ false
    → c == backslash ≡ false
    → read_string (c ∷ d ∷ t) ≡ push c (read_string (d ∷ t))
unfolding read_string
read_plain c d t q b = rw (read_string, q, b)

push_same : (c k : ℕ) (r : Parsed (Text × Text)) → c == k ≡ true → push k r ≡ push c r
push_same c k r h = ap (λ x. push x r) (sym ((==_iff c k).0 h))

read_escaped_char :
    (c d : ℕ) (t : Text) → read_string (escape_char c ++ d ∷ t) ≡ push c (read_string (d ∷ t))
unfolding read_string escape_char unescape_char
read_escaped_char c d t = elim (Bool-cases (c == backslash)) [
  | inl h ↦ rw h (push_same c backslash (read_string (d ∷ t)) h)
  | inr h ↦ elim (Bool-cases (c == double_quote)) [
    | inl q ↦ rw (h, q) (push_same c double_quote (read_string (d ∷ t)) q)
    | inr q ↦ elim (Bool-cases (c == newline)) [
      | inl n ↦ rw (h, q, n) (push_same c newline (read_string (d ∷ t)) n)
      | inr n ↦ elim (Bool-cases (c == 13)) [
        | inl r ↦ rw (h, q, n, r) (push_same c 13 (read_string (d ∷ t)) r)
        | inr r ↦ elim (Bool-cases (c == 9)) [
          | inl x ↦ rw (h, q, n, r, x) (push_same c 9 (read_string (d ∷ t)) x)
          | inr x ↦ rw (h, q, n, r, x) (read_plain c d t q h)
        ]
      ]
    ]
  ]
]

read_escaped :
    (c : ℕ) (t rest : Text)
    → read_string (escape_char c ++ (t ++ double_quote ∷ rest))
      ≡ push c (read_string (t ++ double_quote ∷ rest))
unfolding read_string escape_char unescape_char
read_escaped c t rest = let (d, u, e) = uncons t rest double_quote in rw e (read_escaped_char c d u)

pub read_string-escape_string :
    (s rest : Text) → read_string (escape_string s ++ double_quote ∷ rest) ≡ ok (s, rest)
unfolding escape_string
read_string-escape_string [] [] = unfold read_string in refl
read_string-escape_string [] (c ∷ rest) = unfold read_string in refl
read_string-escape_string (c ∷ s) rest =
    rw append_assoc
      (read_escaped c (escape_string s) rest ∙ ap (push c) (read_string-escape_string s rest))

pub skip_past :
    (c : ℕ) (t : Text)
    → space_len (c ∷ t) ≡ 0
    → c == b';' ≡ false
    → skip_ws_and_comments (c ∷ t) ≡ c ∷ t
unfolding skip_ws_and_comments skip
skip_past c [] s h = rw (skip_ws_and_comments, skip, s)
skip_past c (d ∷ t) s h = rw (skip_ws_and_comments, skip, h, s)

-- A print begins with a char that is neither white space nor a comment.
pub skip-emit :
    (e : Expr) (rest : Text)
    → is_clean e ≡ true
    → is_boundary rest ≡ true
    → skip_ws_and_comments (emit e ++ rest) ≡ emit e ++ rest
unfolding emit is_clean is_name has_no_stop
skip-emit (list items) rest h b = skip_past _ _ (space_len_ascii open_paren _ refl refl) refl
skip-emit (symbol []) rest h b = absurd (cc h)
skip-emit (symbol (c ∷ t)) rest h b =
    let here = stops-append c t rest b (ground arith) in
    skip_past c (t ++ rest) (unfold stops in ground arith) (unfold stops in ground arith)
skip-emit (string value) rest h b = skip_past _ _ (space_len_ascii double_quote _ refl refl) refl
skip-emit (quote inner) rest h b = skip_past _ _ (space_len_ascii apostrophe _ refl refl) refl

-- Its first char is no closing delimiter.
pub emit_front :
    (e : Expr) (rest : Text)
    → is_clean e ≡ true
    → (c : ℕ) × (t : Text) × (emit e ++ rest ≡ c ∷ t) × (c == close_paren ≡ false)
unfolding emit is_clean is_name has_no_stop stops
emit_front (list items) rest h = (open_paren, _, refl, refl)
emit_front (symbol []) rest h = absurd (cc h)
emit_front (symbol (c ∷ t)) rest h = (c, t ++ rest, refl, ground arith)
emit_front (string value) rest h = (double_quote, _, refl, refl)
emit_front (quote inner) rest h = (apostrophe, _, refl, refl)
