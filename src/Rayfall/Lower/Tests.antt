-- ===== src/Rayfall/Lower/Tests.antt =====
-- Forms of src/rayfall_ast.rs, printed, read and lowered, and the theorems applied to them.
use ray_exomem.Prelude.{◌≡◌, refl, codes, text_eq, true, none, some, [], ◌∷◌, Memᴰ}
use ray_exomem.Prelude.Fallible.{ok, err}
use ray_exomem.Path.{replace_colons}
use ray_exomem.Rayfall.{Expr, list, symbol, string, Exprs, no_items, item}
use ray_exomem.Rayfall.Parser.{Parsed, parse_one, stops, space_len}
use ray_exomem.Rayfall.Parser.Tokens.{is_clean, is_name, has_no_stop}
use ray_exomem.Rayfall.Forms.{CanonicalForm, to_expr, emit_form, form_path}
use ray_exomem.Rayfall.Lower.{
  LowerError, LoweringOptions, head_of, resolve_exom, lower_fact_mutation, lower_tuple,
  lower_fact_retract, lower_id, lower_headed, lower_child, lower_children, lower_in_exom,
  lower_top_level,
}
use ray_exomem.Rayfall.Lower.Laws.{emit_form-lower_top_level, lower_top_level-in_exom}

abbrev options : LoweringOptions
options = record { default_query_exom = none; default_rule_exom = some (codes "other") }

abbrev a_rule : CanonicalForm
a_rule = CanonicalForm.rule (record {
  exom = codes "work/main";
  clauses = item (list (item (symbol (codes "r")) (item (symbol (codes "?x")) no_items))) no_items;
})

a_rule_clean : is_clean (to_expr a_rule) ≡ true
unfolding to_expr is_clean is_name has_no_stop stops space_len
a_rule_clean = refl

emit_form-lower_top_level_example :
    (e : Expr) × (parse_one (emit_form a_rule) ≡ Parsed.ok e)
    × (lower_top_level e options ≡ ok (a_rule ∷ []))
unfolding replace_colons
emit_form-lower_top_level_example = emit_form-lower_top_level a_rule options refl refl a_rule_clean

abbrev children : Exprs
children =
    item
      (list (
        item (symbol (codes "assert-fact")) (
          item (string (codes "f"))
            (item (symbol (codes "p")) (item (string (codes "v")) no_items)))))
      no_items

abbrev asserted : CanonicalForm
asserted =
    CanonicalForm.assert_fact
      (record { exom = codes "a/b"; fact_id = codes "f"; predicate = codes "p"; value = codes "v" })

lowered :
    lower_top_level
      (list (item (symbol (codes "in-exom")) (item (symbol (codes "a::b")) children)))
      options
    ≡ ok (asserted ∷ [])
unfolding lower_top_level lower_in_exom lower_children lower_child lower_headed lower_fact_mutation
    lower_tuple resolve_exom head_of text_eq replace_colons
lowered = refl

-- An explicit exom that is not that of the `in-exom` is refused.
conflict :
    lower_top_level
      (list (
        item (symbol (codes "in-exom")) (
          item (symbol (codes "a")) (
            item
              (list (
                item
                  (symbol (codes "retract-fact"))
                  (item (symbol (codes "b")) (item (string (codes "f")) no_items))))
              no_items))))
      options
    ≡ err (LowerError.conflicting_exom (codes "b") (codes "a"))
unfolding lower_top_level lower_in_exom lower_children lower_child lower_headed lower_fact_retract
    lower_id resolve_exom head_of text_eq replace_colons
conflict = refl

lower_top_level-in_exom_example : form_path asserted ≡ replace_colons (codes "a::b")
lower_top_level-in_exom_example =
    lower_top_level-in_exom (codes "a::b") children options (asserted ∷ []) lowered asserted
      (Memᴰ.head refl)
