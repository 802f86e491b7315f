-- ===== src/Rayfall/Forms.antt =====
-- src/rayfall_ast.rs: the canonical forms that a program is lowered to, and their expressions.
use ray_exomem.Prelude.{Text, codes, Option, none, some}
use ray_exomem.Rayfall.{Expr, list, symbol, string, quote, Exprs, no_items, item, emit}

pub record CanonicalQuery : Type 0 where
  pub exom : Text
  pub clauses : Exprs

pub record CanonicalRule : Type 0 where
  pub exom : Text
  pub clauses : Exprs

pub record CanonicalFactMutation : Type 0 where
  pub exom : Text
  pub fact_id : Text
  pub predicate : Text
  pub value : Text

pub record CanonicalFactRetract : Type 0 where
  pub exom : Text
  pub fact_id : Text
  pub tuple : Option (Text × Text)

pub data CanonicalForm : Type 0 where
  query : CanonicalQuery → CanonicalForm
  rule : CanonicalRule → CanonicalForm
  assert_fact : CanonicalFactMutation → CanonicalForm
  retract_fact : CanonicalFactRetract → CanonicalForm

-- `items.extend(clauses)`, after the head and the name of the exom.
abbrev clauses_expr : (head exom : Text) → Exprs → Expr
clauses_expr head exom clauses = list (item (symbol head) (item (symbol exom) clauses))

abbrev tuple_items : Option (Text × Text) → Exprs
tuple_items none = no_items
tuple_items (some (predicate, value)) =
    item (quote (symbol predicate)) (item (string value) no_items)

unfoldable pub to_expr : CanonicalForm → Expr
to_expr (CanonicalForm.query q) = clauses_expr (codes "query") q.exom q.clauses
to_expr (CanonicalForm.rule r) = clauses_expr (codes "rule") r.exom r.clauses
to_expr (CanonicalForm.assert_fact m) = list (
    item (symbol (codes "assert-fact")) (
      item (symbol m.exom) (
        item (string m.fact_id)
          (item (quote (symbol m.predicate)) (item (string m.value) no_items)))))
to_expr (CanonicalForm.retract_fact r) = list (
    item (symbol (codes "retract-fact"))
      (item (symbol r.exom) (item (string r.fact_id) (tuple_items r.tuple))))

unfoldable pub emit_form : CanonicalForm → Text
emit_form form = emit (to_expr form)

-- The exom that a form is about.
abbrev pub form_path : CanonicalForm → Text
form_path (CanonicalForm.query q) = q.exom
form_path (CanonicalForm.rule r) = r.exom
form_path (CanonicalForm.assert_fact m) = m.exom
form_path (CanonicalForm.retract_fact r) = r.exom
