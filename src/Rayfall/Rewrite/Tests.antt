-- ===== src/Rayfall/Rewrite/Tests.antt =====
-- Literals that the rewriting of src/rayfall_ast.rs turns into symbols, and its theorem applied.
use ray_exomem.Prelude.{
  ℕ, ◌≡◌, refl, Text, codes, text_eq, text_mem, Bool, true, false, Option, none, some, List, [],
  ◌∷◌,
}
use ray_exomem.Rayfall.{
  Expr, list, symbol, string, quote, no_items, item, emit, emit_items, emit_rest,
}
use ray_exomem.Rayfall.Forms.{CanonicalQuery}
use ray_exomem.Rayfall.Rewrite.{
  pin_string_to_sym, pin_all, value_pins, call_pins, slot_pins, both_pins, pins_of, rewrite_item,
  rewrite_items, rewrite_expr_body_literals, rewrite_body_literals_with_schema_and_rules,
}
use ray_exomem.Rayfall.Rewrite.Pins.{nth, count}
use ray_exomem.Rayfall.Rewrite.Exact.{IsRewritten, rewrite_body_literals-IsRewritten}

abbrev is_known : Bool → Option Text
is_known true = some (codes "predicate")
is_known false = none

abbrev kinds : Text → Option Text
kinds attr = is_known (text_eq attr (codes "fact/predicate"))

abbrev no_rules : Text → Option (List (Option Text))
no_rules name = none

abbrev atom : (literal : Text) → Expr
atom literal = list (
    item (symbol (codes "?e"))
      (item (quote (symbol (codes "fact/predicate"))) (item (string literal) no_items)))

pinned :
    rewrite_expr_body_literals kinds no_rules (atom (codes "p"))
    ≡ list (
        item (symbol (codes "?e")) (
          item
            (quote (symbol (codes "fact/predicate")))
            (item (quote (symbol (codes "p"))) no_items)))
unfolding rewrite_expr_body_literals rewrite_item rewrite_items pins_of both_pins value_pins
    call_pins pin_all pin_string_to_sym text_eq text_mem
pinned = refl

-- A literal that is no symbol is printed as other forms.
pinned_broken :
    emit (rewrite_expr_body_literals kinds no_rules (atom (codes "p) (q")))
    ≡ codes "(?e 'fact/predicate 'p) (q)"
unfolding rewrite_expr_body_literals rewrite_item rewrite_items pins_of both_pins value_pins
    call_pins pin_all pin_string_to_sym text_eq text_mem emit emit_items emit_rest
pinned_broken = refl

-- A rule `near` whose second parameter is the value of `fact/predicate`.
abbrev rule_of : Bool → Option (List (Option Text))
rule_of true = some (none ∷ some (codes "fact/predicate") ∷ [])
rule_of false = none

abbrev one_rule : Text → Option (List (Option Text))
one_rule name = rule_of (text_eq name (codes "near"))

abbrev call : (first second : Expr) → Expr
call first second = list (item (symbol (codes "near")) (item first (item second no_items)))

called :
    rewrite_expr_body_literals kinds one_rule (call (string (codes "a")) (string (codes "p")))
    ≡ call (string (codes "a")) (quote (symbol (codes "p")))
unfolding rewrite_expr_body_literals rewrite_item rewrite_items pins_of both_pins value_pins
    call_pins slot_pins pin_all pin_string_to_sym text_eq text_mem
called = refl

abbrev asked : CanonicalQuery
asked = record {
  exom = codes "work/main";
  clauses =
      item (atom (codes "p")) (item (call (string (codes "a")) (string (codes "p"))) no_items);
}

rewrite_body_literals-IsRewritten_example :
    let r = rewrite_body_literals_with_schema_and_rules kinds one_rule asked in
    (r.exom ≡ asked.exom)
    × (count r.clauses ≡ count asked.clauses)
    × ((i : ℕ) (x y : Expr)
        → nth asked.clauses i ≡ some x
        → nth r.clauses i ≡ some y
        → IsRewritten kinds one_rule no_items 0 x y)
rewrite_body_literals-IsRewritten_example = rewrite_body_literals-IsRewritten kinds one_rule asked
