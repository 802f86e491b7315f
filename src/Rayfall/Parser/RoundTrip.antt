-- ===== src/Rayfall/Parser/RoundTrip.antt =====
-- `parse_one` of src/rayfall_ast.rs undoes `emit`, on expressions whose symbols can be written.
use mathlib.Core.List.{append_assoc, append-nil}
use ray_exomem.Prelude.{
  ℕ, zero, suc, ◌+◌, ◌*◌, ◌<◌, ◌≡◌, refl, ap, sym, ◌∙◌, Text, true, false, [], ◌∷◌, ◌++◌, ◌==◌,
  length, length-append, arith,
}
use ray_exomem.Rayfall.{
  Expr, list, symbol, string, quote, Exprs, no_items, item, emit, emit_items, emit_rest,
  escape_string, double_quote, blank, apostrophe, open_paren, close_paren,
}
use ray_exomem.Rayfall.Parser.{
  ok, space_len, skip, skip_ws_and_comments, stops, parse_symbol, parse_string, Lead, lead,
  parse_expr, parse_lead, parse_list, parse_item, read_forms, fuel_for, parse_forms, parse_one,
}
use ray_exomem.Rayfall.Parser.Tokens.{
  has_no_stop, is_name, is_boundary, space_len_ascii, take_symbol-append, read_string-escape_string,
  skip_past, skip-emit, emit_front, is_clean, are_clean,
}

-- Fuel above a bound is two steps above another.
spend {ℓ} :
    {n : ℕ} (P : ℕ → Type ℓ)
    → ((f : ℕ) → n < suc (suc f) → P (suc (suc f)))
    → (f : ℕ) → suc n < f
    → P f
spend P k zero h = absurd (omega arith)
spend P k (suc zero) h = absurd (omega arith)
spend P k (suc (suc f)) h = k f (omega arith)

rest_boundary : (items : Exprs) (t : Text) → is_boundary (emit_rest items ++ close_paren ∷ t) ≡ true
unfolding emit_rest
rest_boundary no_items t = refl
rest_boundary (item e items) t = refl

symbol_lead : (c : ℕ) (t : Text) → stops (c ∷ t) ≡ false → lead c ≡ Lead.plain
unfolding stops lead
symbol_lead c t h = ground arith

parse_symbol-append :
    (name rest : Text)
    → is_name name ≡ true
    → is_boundary rest ≡ true
    → parse_symbol (name ++ rest) ≡ ok (symbol name, rest)
unfolding parse_symbol is_name
parse_symbol-append [] rest h b = absurd (cc h)
parse_symbol-append (c ∷ t) rest h b = rw (take_symbol-append (c ∷ t) rest h b)

skip_blank : (t : Text) → skip_ws_and_comments (blank ∷ t) ≡ skip_ws_and_comments t
unfolding skip_ws_and_comments skip space_len
skip_blank [] = refl
skip_blank (c ∷ []) = refl
skip_blank (c ∷ d ∷ t) = refl

skip_close : (t : Text) → skip_ws_and_comments (close_paren ∷ t) ≡ close_paren ∷ t
skip_close t = skip_past close_paren t (space_len_ascii close_paren t refl refl) refl

-- Reading a symbol, where nothing has to be skipped.
lead-symbol :
    (f : ℕ) (name rest : Text)
    → is_name name ≡ true
    → is_boundary rest ≡ true
    → parse_lead (suc f) (name ++ rest) ≡ ok (symbol name, rest)
unfolding parse_lead is_name has_no_stop
lead-symbol f [] rest h b = absurd (cc h)
lead-symbol f (c ∷ t) rest h b =
    rw (parse_lead, symbol_lead c t (ground arith)) (parse_symbol-append (c ∷ t) rest h b)

item_step :
    (f c : ℕ) (t more rest : Text) (e : Expr) (items : Exprs)
    → c == close_paren ≡ false
    → parse_expr f (c ∷ t) ≡ ok (e, more)
    → parse_list f close_paren more ≡ ok (items, rest)
    → parse_item (suc f) close_paren (c ∷ t) ≡ ok (item e items, rest)
unfolding parse_item
item_step f c t more rest e items n h k = rw (parse_item, n, h, k)

emit_pos : (e : Expr) → is_clean e ≡ true → 0 < length (emit e)
unfolding emit is_clean is_name
emit_pos (list items) h = omega arith
emit_pos (symbol []) h = absurd (cc h)
emit_pos (symbol (c ∷ t)) h = omega arith
emit_pos (string value) h = omega arith
emit_pos (quote inner) h = omega arith

list_step :
    (f : ℕ) (t rest : Text) (items : Exprs)
    → parse_list f close_paren t ≡ ok (items, rest)
    → parse_lead (suc f) (skip_ws_and_comments (open_paren ∷ t)) ≡ ok (list items, rest)
unfolding parse_lead lead
list_step f t rest items h =
    rw (skip_past open_paren t (space_len_ascii open_paren t refl refl) refl) (rw h)

string_step :
    (f : ℕ) (value rest : Text)
    → parse_lead
        (suc f)
        (skip_ws_and_comments (double_quote ∷ (escape_string value ++ double_quote ∷ rest)))
      ≡ ok (string value, rest)
unfolding parse_lead lead parse_string
string_step f value rest =
    rw (skip_past double_quote _ (space_len_ascii double_quote _ refl refl) refl)
      (rw (read_string-escape_string value rest))

quote_step :
    (f : ℕ) (t rest : Text) (inner : Expr)
    → parse_expr f t ≡ ok (inner, rest)
    → parse_lead (suc f) (skip_ws_and_comments (apostrophe ∷ t)) ≡ ok (quote inner, rest)
unfolding parse_lead lead
quote_step f t rest inner h =
    rw (skip_past apostrophe t (space_len_ascii apostrophe t refl refl) refl) (rw h)

close_step :
    (f : ℕ) (rest : Text)
    → parse_item (suc f) close_paren (skip_ws_and_comments (close_paren ∷ rest))
      ≡ ok (no_items, rest)
unfolding parse_item
close_step f rest = rw (skip_close rest)

abbrev after : Exprs → Text → Text
after items rest = emit_rest items ++ close_paren ∷ rest

length-append_text : (s t : Text) → length (s ++ t) ≡ length s + length t
length-append_text = length-append

ruleset lengths = (arith, length-append_text)

-- An item with what comes after it, once both can be read.
item-emit :
    (e : Expr) (items : Exprs) (rest : Text) (f : ℕ)
    → is_clean e ≡ true
    → parse_expr f (emit e ++ after items rest) ≡ ok (e, after items rest)
    → parse_list f close_paren (after items rest) ≡ ok (items, rest)
    → parse_item (suc f) close_paren (skip_ws_and_comments (emit e ++ after items rest))
      ≡ ok (item e items, rest)
item-emit e items rest f h first more =
    let (c, t, front, n) = emit_front e (after items rest) h in
    ap (parse_item (suc f) close_paren)
      (skip-emit e (after items rest) h (rest_boundary items rest) ∙ front)
    ∙ item_step f c t (after items rest) rest e items n (ap (parse_expr f) (sym front) ∙ first) more

mutual
  unfolding parse_expr emit is_clean

  expr-emit :
      (e : Expr) (rest : Text) (f : ℕ)
      → is_clean e ≡ true
      → is_boundary rest ≡ true
      → 4 * length (emit e) < f
      → parse_expr f (emit e ++ rest) ≡ ok (e, rest)
  expr-emit e rest zero h b k = absurd (omega arith)
  expr-emit e rest (suc zero) h b k = absurd (omega (arith, emit_pos e h))
  expr-emit (list items) rest (suc (suc f)) h b k =
      rw append_assoc (list_step f _ rest items (items-emit items rest f h (omega lengths)))
  expr-emit (symbol name) rest (suc (suc f)) h b k =
      rw (parse_expr, skip-emit (symbol name) rest h b) (lead-symbol f name rest h b)
  expr-emit (string value) rest (suc (suc f)) h b k = rw append_assoc (string_step f value rest)
  expr-emit (quote inner) rest (suc (suc f)) h b k =
      quote_step f _ rest inner (expr-emit inner rest f h b (omega lengths))

  items-emit :
      (items : Exprs) (rest : Text) (f : ℕ)
      → are_clean items ≡ true
      → 4 * length (emit_items items) + 2 < f
      → parse_list f close_paren (emit_items items ++ close_paren ∷ rest) ≡ ok (items, rest)
  items-emit items rest zero h k = absurd (omega arith)
  items-emit items rest (suc zero) h k = absurd (omega arith)
  items-emit no_items rest (suc (suc f)) h k = close_step f rest
  items-emit (item e items) rest (suc (suc f)) h k =
      let pos = emit_pos e (ground arith) in
      rw append_assoc (
        item-emit e items rest f (ground arith)
          (expr-emit e (after items rest) f (ground arith) (rest_boundary items rest)
            (omega lengths))
          (rest-emit items rest f (ground arith) (omega (lengths, pos))))

  rest-emit :
      (items : Exprs) (rest : Text) (f : ℕ)
      → are_clean items ≡ true
      → 4 * length (emit_rest items) + 2 < f
      → parse_list f close_paren (emit_rest items ++ close_paren ∷ rest) ≡ ok (items, rest)
  rest-emit items rest zero h k = absurd (omega arith)
  rest-emit items rest (suc zero) h k = absurd (omega arith)
  rest-emit no_items rest (suc (suc f)) h k = close_step f rest
  rest-emit (item e items) rest (suc (suc f)) h k = rw append_assoc (
      ap (parse_item (suc f) close_paren) (skip_blank (emit e ++ after items rest))
      ∙ item-emit e items rest f (ground arith)
          (expr-emit e (after items rest) f (ground arith) (rest_boundary items rest)
            (omega lengths))
          (rest-emit items rest f (ground arith) (omega (lengths, emit_pos e (ground arith)))))

-- Reading an expression that was printed, whatever follows it.
pub parse_expr-emit :
    (e : Expr) (rest : Text) (f : ℕ)
    → is_clean e ≡ true
    → is_boundary rest ≡ true
    → 4 * length (emit e) < f
    → parse_expr f (emit e ++ rest) ≡ ok (e, rest)
parse_expr-emit = expr-emit

read_end : (f : ℕ) → 1 < f → read_forms f [] ≡ ok no_items
unfolding read_forms skip_ws_and_comments skip
read_end zero h = absurd (omega arith)
read_end (suc zero) h = absurd (omega arith)
read_end (suc (suc f)) h = refl

read_only :
    (f c : ℕ) (t : Text) (e : Expr)
    → 3 < f
    → skip_ws_and_comments (c ∷ t) ≡ c ∷ t
    → parse_expr (fuel_for (c ∷ t)) (c ∷ t) ≡ ok (e, [])
    → read_forms f (c ∷ t) ≡ ok (item e no_items)
unfolding read_forms
read_only zero c t e h s p = absurd (omega arith)
read_only (suc zero) c t e h s p = absurd (omega arith)
read_only (suc (suc f)) c t e h s p = rw (read_forms, s) (rw (p, read_end f (omega arith)))

-- An expression is read back from its print, when each of its symbols is a name: not empty, without
-- white space, delimiters and semicolons. Strings may hold any bytes.
pub parse_one-emit : (e : Expr) → is_clean e ≡ true → parse_one (emit e) ≡ ok e
unfolding parse_one parse_forms
parse_one-emit e h =
    let (c, t, front, n) = emit_front e [] h in
    let whole : emit e ≡ c ∷ t = sym (append-nil (emit e)) ∙ front in
    let unskipped : skip_ws_and_comments (c ∷ t) ≡ c ∷ t =
      ap skip_ws_and_comments (sym front) ∙ skip-emit e [] h refl ∙ front in
    let read : parse_expr (fuel_for (c ∷ t)) (c ∷ t) ≡ ok (e, []) =
      ap (λ x. parse_expr (fuel_for (c ∷ t)) x) (sym front)
      ∙ expr-emit e [] (fuel_for (c ∷ t)) h refl
          (unfold fuel_for in omega (arith, ap length whole)) in
    rw whole (rw (read_only (2 * length (c ∷ t) + 2) c t e (omega arith) unskipped read))
