-- ===== src/Rayfall/Parser.antt =====
-- `Parser` of src/rayfall_ast.rs. Its index is the text that is left. What a call leaves is not a
-- structural part of its text, so each call costs a unit of fuel.
pub mod Fuel
pub mod Tokens
pub mod RoundTrip
mod Tests
use ray_exomem.Prelude.{
  ℕ, zero, suc, ◌+◌, ◌*◌, Text, Bool, true, false, ◌&&◌, ◌||◌, List, [], ◌∷◌, ◌++◌, ◌==◌, leb,
  if◌then◌else◌, length,
}
use ray_exomem.Brain.Predicate.{is_ascii_space, is_space2, is_space3}
use ray_exomem.Rayfall.{
  Expr, list, symbol, string, quote, Exprs, no_items, item, newline, double_quote, backslash,
  apostrophe, open_paren, close_paren,
}

pub data ParseError : Type 0 where
  unexpected_end unexpected_closing unterminated_list unterminated_string : ParseError
  unterminated_escape expected_symbol expected_one_form : ParseError

pub data Parsed {ℓ} (A : Type ℓ) : Type ℓ where
  ok : A → Parsed A
  failed : ParseError → Parsed A
  out_of_fuel : Parsed A

abbrev pub bind {ℓ κ} : {A : Type ℓ} {B : Type κ} → Parsed A → (A → Parsed B) → Parsed B
bind (ok a) f = f a
bind (failed e) f = failed e
bind out_of_fuel f = out_of_fuel

-- The bytes of the white space that a text begins with; 0 where it begins otherwise.
unfoldable pub space_len : Text → ℕ
space_len [] = 0
space_len (a ∷ []) = if is_ascii_space a then 1 else 0
space_len (a ∷ b ∷ []) = if is_ascii_space a then 1 else if is_space2 a b then 2 else 0
space_len (a ∷ b ∷ c ∷ _) =
    if is_ascii_space a then 1 else if is_space2 a b then 2 else if is_space3 a b c then 3 else 0

abbrev pub starts_comment : Text → Bool
starts_comment (a ∷ b ∷ _) = a == b';' && b == b';'
starts_comment _ = false

-- `skip_ws_and_comments`: in a comment, or with the rest of a wide space to drop.
unfoldable pub skip : ℕ → Bool → Text → Text
skip wide comment [] = []
skip (suc wide) comment (c ∷ t) = skip wide comment t
skip zero true (c ∷ t) = elim (c == newline) [ true ↦ skip zero false t | false ↦ skip zero true t ]
skip zero false (c ∷ t) = elim (starts_comment (c ∷ t)) [
  | true ↦ skip zero true t
  | false ↦ elim (space_len (c ∷ t)) [ zero ↦ c ∷ t | suc wide ↦ skip wide false t ]
]

unfoldable pub skip_ws_and_comments : Text → Text
skip_ws_and_comments t = skip 0 false t

abbrev pub is_delimiter : ℕ → Bool
is_delimiter c =
    c == open_paren
    || (c == close_paren
        || (c == b'[' || (c == b']' || (c == double_quote || (c == apostrophe || c == b';')))))

-- Where `parse_symbol` stops.
unfoldable pub stops : Text → Bool
stops [] = true
stops (c ∷ t) = leb 1 (space_len (c ∷ t)) || is_delimiter c

unfoldable pub take_symbol : Text → Text × Text
take_symbol [] = ([], [])
take_symbol (c ∷ t) =
    let more = take_symbol t in if stops (c ∷ t) then ([], c ∷ t) else (c ∷ more.0, more.1)

abbrev pub symbol_or_fail : Text × Text → Parsed (Expr × Text)
symbol_or_fail ([], rest) = failed ParseError.expected_symbol
symbol_or_fail (c ∷ name, rest) = ok (symbol (c ∷ name), rest)

unfoldable pub parse_symbol : Text → Parsed (Expr × Text)
parse_symbol t = symbol_or_fail (take_symbol t)

unfoldable pub unescape_char : ℕ → ℕ
unescape_char c =
    if c == b'n' then newline else if c == b'r' then 13 else if c == b't' then 9 else c

abbrev pub push : ℕ → Parsed (Text × Text) → Parsed (Text × Text)
push c r = bind r (λ p. ok (c ∷ p.0, p.1))

-- The text after the opening quote.
unfoldable pub read_string : Text → Parsed (Text × Text)
read_string [] = failed ParseError.unterminated_string
read_string (c ∷ []) =
    if c == double_quote
    then ok ([], [])
    else if c == backslash
    then failed ParseError.unterminated_escape
    else failed ParseError.unterminated_string
read_string (c ∷ d ∷ t) = elim (c == double_quote) [
  | true ↦ ok ([], d ∷ t)
  | false ↦ elim (c == backslash) [
    | true ↦ push (unescape_char d) (read_string t)
    | false ↦ push c (read_string (d ∷ t))
  ]
]

unfoldable pub parse_string : Text → Parsed (Expr × Text)
parse_string t = bind (read_string t) (λ p. ok (string p.0, p.1))

-- What the first char of an expression makes of it.
pub data Lead : Type 0 where
  opens : (closer : ℕ) → Lead
  closes starts_string starts_quote plain : Lead

unfoldable pub lead : ℕ → Lead
lead c =
    if c == open_paren
    then opens close_paren
    else if c == b'['
    then opens b']'
    else if c == close_paren || c == b']'
    then closes
    else if c == double_quote
    then starts_string
    else if c == apostrophe
    then starts_quote
    else plain

unfoldable mutual
  pub parse_expr : ℕ → Text → Parsed (Expr × Text)
  parse_expr zero t = out_of_fuel
  parse_expr (suc f) t = parse_lead f (skip_ws_and_comments t)

  pub parse_lead : ℕ → Text → Parsed (Expr × Text)
  parse_lead zero t = out_of_fuel
  parse_lead (suc f) [] = failed ParseError.unexpected_end
  parse_lead (suc f) (c ∷ t) = elim (lead c) [
    | opens closer ↦ bind (parse_list f closer t) (λ p. ok (list p.0, p.1))
    | closes ↦ failed ParseError.unexpected_closing
    | starts_string ↦ parse_string t
    | starts_quote ↦ bind (parse_expr f t) (λ p. ok (quote p.0, p.1))
    | plain ↦ parse_symbol (c ∷ t)
  ]

  pub parse_list : ℕ → (closer : ℕ) → Text → Parsed (Exprs × Text)
  parse_list zero closer t = out_of_fuel
  parse_list (suc f) closer t = parse_item f closer (skip_ws_and_comments t)

  pub parse_item : ℕ → (closer : ℕ) → Text → Parsed (Exprs × Text)
  parse_item zero closer t = out_of_fuel
  parse_item (suc f) closer [] = failed ParseError.unterminated_list
  parse_item (suc f) closer (c ∷ t) = elim (c == closer) [
    | true ↦ ok (no_items, t)
    | false ↦
        bind (parse_expr f (c ∷ t))
          (λ p. bind (parse_list f closer p.1) (λ q. ok (item p.0 q.0, q.1)))
  ]

unfoldable pub fuel_for : Text → ℕ
fuel_for t = 4 * length t + 2

-- `parse_forms`: forms up to the end of the text.
unfoldable mutual
  pub read_forms : ℕ → Text → Parsed Exprs
  read_forms zero t = out_of_fuel
  read_forms (suc f) t = read_form f (skip_ws_and_comments t)

  pub read_form : ℕ → Text → Parsed Exprs
  read_form zero t = out_of_fuel
  read_form (suc f) [] = ok no_items
  read_form (suc f) (c ∷ t) =
      bind (parse_expr (fuel_for (c ∷ t)) (c ∷ t))
        (λ p. bind (read_forms f p.1) (λ rest. ok (item p.0 rest)))

unfoldable pub parse_forms : Text → Parsed Exprs
parse_forms t = read_forms (2 * length t + 2) t

abbrev pub only_form : Exprs → Parsed Expr
only_form (item e no_items) = ok e
only_form _ = failed ParseError.expected_one_form

unfoldable pub parse_one : Text → Parsed Expr
parse_one t = bind (parse_forms t) only_form
