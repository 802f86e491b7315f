-- ===== src/Rayfall.antt =====
-- src/rayfall_ast.rs: expressions of Rayfall and how they are printed. Texts are UTF-8 bytes; what
-- the code tests is ASCII or white space, which is found at the first byte of its char.
pub mod Parser
pub mod Forms
pub mod Lower
pub mod Rewrite
use ray_exomem.Prelude.{
  ℕ, zero, suc, Text, codes, Bool, true, false, ◌&&◌, ◌||◌, Option, none, some, List, [], ◌∷◌, ◌++◌,
  ◌==◌, leb, if◌then◌else◌,
}

-- `Exprs` is `Vec<Expr>`.
mutual
  pub data Expr : Type 0 where
    list : Exprs → Expr
    symbol : Text → Expr
    string : Text → Expr
    quote : Expr → Expr

  pub data Exprs : Type 0 where
    no_items : Exprs
    item : Expr → Exprs → Exprs

abbrev pub newline : ℕ
newline = 10

abbrev pub blank : ℕ
blank = 32

abbrev pub double_quote : ℕ
double_quote = b'"'

abbrev pub backslash : ℕ
backslash = b'\\'

abbrev pub apostrophe : ℕ
apostrophe = b'\''

abbrev pub open_paren : ℕ
open_paren = b'('

abbrev pub close_paren : ℕ
close_paren = b')'

-- What `escape_string` pushes for a char.
unfoldable pub escape_char : ℕ → Text
escape_char c =
    if c == backslash
    then backslash ∷ backslash ∷ []
    else if c == double_quote
    then backslash ∷ double_quote ∷ []
    else if c == newline
    then backslash ∷ b'n' ∷ []
    else if c == 13
    then backslash ∷ b'r' ∷ []
    else if c == 9
    then backslash ∷ b't' ∷ []
    else c ∷ []

unfoldable pub escape_string : Text → Text
escape_string [] = []
escape_string (c ∷ t) = escape_char c ++ escape_string t

-- `emit`, and the items with a blank between them.
unfoldable mutual
  pub emit : Expr → Text
  emit (list items) = open_paren ∷ (emit_items items ++ close_paren ∷ [])
  emit (symbol value) = value
  emit (string value) = double_quote ∷ (escape_string value ++ double_quote ∷ [])
  emit (quote inner) = apostrophe ∷ emit inner

  pub emit_items : Exprs → Text
  emit_items no_items = []
  emit_items (item e items) = emit e ++ emit_rest items

  pub emit_rest : Exprs → Text
  emit_rest no_items = []
  emit_rest (item e items) = blank ∷ (emit e ++ emit_rest items)

abbrev pub as_list : Expr → Option Exprs
as_list (list items) = some items
as_list _ = none

abbrev pub as_symbol : Expr → Option Text
as_symbol (symbol value) = some value
as_symbol _ = none
