-- ===== src/Rayfall/Lower.antt =====
-- src/rayfall_ast.rs: from an expression to canonical forms.
pub mod Laws
mod Tests
use ray_exomem.Prelude.{
  Text, codes, text_eq, Bool, true, false, Option, none, some, List, [], ◌∷◌, ◌++◌, if◌then◌else◌,
  or_else,
}
use ray_exomem.Prelude.Fallible.{Fallible, ok, err, ◌>>=◌, ◌>>◌}
use ray_exomem.Path.{replace_colons}
use ray_exomem.Rayfall.{
  Expr, list, symbol, string, quote, Exprs, no_items, item, as_list, as_symbol,
}
use ray_exomem.Rayfall.Forms.{
  CanonicalQuery, CanonicalRule, CanonicalFactMutation, CanonicalFactRetract, CanonicalForm,
}

pub record LoweringOptions : Type 0 where
  pub default_query_exom : Option Text
  pub default_rule_exom : Option Text

-- A constructor for each kind of message.
pub data LowerError : Type 0 where
  expected_list expected_head in_exom_arity no_clause fact_arity missing_exom : LowerError
  expected_exom expected_string expected_predicate unsupported_child : LowerError
  nested_form unsupported_form : Text → LowerError
  conflicting_exom : (explicit env : Text) → LowerError

-- The heads that are known; any other keeps its name.
pub data Head : Type 0 where
  in_exom query rule assert_fact retract_fact : Head
  other : Text → Head

unfoldable pub head_of : Text → Head
head_of name =
    if text_eq name (codes "in-exom")
    then in_exom
    else if text_eq name (codes "query")
    then query
    else if text_eq name (codes "rule")
    then rule
    else if text_eq name (codes "assert-fact")
    then assert_fact
    else if text_eq name (codes "retract-fact")
    then retract_fact
    else other name

abbrev to_result : {A : Type 0} → LowerError → Option A → Fallible LowerError A
to_result e none = err e
to_result e (some a) = ok a

abbrev agreed : (explicit env : Text) → Fallible LowerError Text
agreed explicit env = if text_eq explicit env then ok env else err (conflicting_exom explicit env)

-- The slash path of the exom: that of `in-exom`, which an explicit one may only repeat, or the
-- explicit one, or the default.
unfoldable pub resolve_exom : (explicit env default : Option Text) → Fallible LowerError Text
resolve_exom none (some env) default = ok (replace_colons env)
resolve_exom (some explicit) (some env) default =
    agreed (replace_colons explicit) (replace_colons env)
resolve_exom (some explicit) none default = ok (replace_colons explicit)
resolve_exom none none (some default) = ok (replace_colons default)
resolve_exom none none none = err missing_exom

abbrev pub expect_symbol : Expr → Fallible LowerError Text
expect_symbol e = to_result expected_exom (as_symbol e)

abbrev pub expect_string : Expr → Fallible LowerError Text
expect_string (string value) = ok value
expect_string _ = err expected_string

abbrev pub expect_predicate : Expr → Fallible LowerError Text
expect_predicate (quote inner) = to_result expected_predicate (as_symbol inner)
expect_predicate (symbol value) = ok value
expect_predicate _ = err expected_predicate

-- A symbol in front is the exom; the rest are clauses.
unfoldable pub maybe_explicit_exom : Exprs → Option Text × Exprs
maybe_explicit_exom (item (symbol exom) clauses) = (some exom, clauses)
maybe_explicit_exom clauses = (none, clauses)

abbrev pub some_clauses : Exprs → Fallible LowerError Exprs
some_clauses no_items = err no_clause
some_clauses (item e items) = ok (item e items)

unfoldable pub lower_clauses :
    Exprs → (env default : Option Text) → Fallible LowerError (Text × Exprs)
lower_clauses args env default =
    let split = maybe_explicit_exom args in
    do exom ← resolve_exom split.0 env default; clauses ← some_clauses split.1; ok (exom, clauses)

unfoldable pub lower_query :
    Exprs → (env default : Option Text) → Fallible LowerError CanonicalQuery
lower_query args env default = do
  p ← lower_clauses args env default
  ok (record { exom = p.0; clauses = p.1 })

unfoldable pub lower_rule : Exprs → (env default : Option Text) → Fallible LowerError CanonicalRule
lower_rule args env default = do
  p ← lower_clauses args env default
  ok (record { exom = p.0; clauses = p.1 })

unfoldable pub lower_tuple :
    (explicit env : Option Text)
    → (id predicate value : Expr) → Fallible LowerError CanonicalFactMutation
lower_tuple explicit env id predicate value = do
  exom ← resolve_exom explicit env none
  fact_id ← expect_string id
  name ← expect_predicate predicate
  text ← expect_string value
  ok (record { exom = exom; fact_id = fact_id; predicate = name; value = text })

unfoldable pub lower_fact_mutation :
    Exprs → (env : Option Text) → Fallible LowerError CanonicalFactMutation
lower_fact_mutation (item id (item predicate (item value no_items))) env =
    lower_tuple none env id predicate value
lower_fact_mutation (item exom (item id (item predicate (item value no_items)))) env = do
  explicit ← expect_symbol exom
  lower_tuple (some explicit) env id predicate value
lower_fact_mutation _ env = err fact_arity

unfoldable pub lower_id :
    (explicit env : Option Text) → Expr → Fallible LowerError CanonicalFactRetract
lower_id explicit env id = do
  exom ← resolve_exom explicit env none
  fact_id ← expect_string id
  ok (record { exom = exom; fact_id = fact_id; tuple = none })

unfoldable pub lower_fact_retract :
    Exprs → (env : Option Text) → Fallible LowerError CanonicalFactRetract
lower_fact_retract no_items env = err fact_arity
lower_fact_retract (item id no_items) env = lower_id none env id
lower_fact_retract (item exom (item id no_items)) env = do
  explicit ← expect_symbol exom
  lower_id (some explicit) env id
lower_fact_retract args env = do
  m ← lower_fact_mutation args env
  ok (record { exom = m.exom; fact_id = m.fact_id; tuple = some (m.predicate, m.value) })

abbrev unknown_head : Option Text → Text → LowerError
unknown_head none name = unsupported_form name
unknown_head (some env) name = nested_form name

abbrev pub only :
    {A : Type 0}
    → (A → CanonicalForm)
    → Fallible LowerError A
    → Fallible LowerError (List CanonicalForm)
only f (ok a) = ok (f a ∷ [])
only f (err e) = err e

-- `nested` is what an `in-exom` comes to here.
unfoldable pub lower_headed :
    Head
    → Exprs
    → (env : Option Text) → LoweringOptions
    → (nested : Fallible LowerError (List CanonicalForm)) → Fallible LowerError (List CanonicalForm)
lower_headed in_exom args env options nested = nested
lower_headed query args env options nested =
    only CanonicalForm.query (lower_query args env options.default_query_exom)
lower_headed rule args env options nested =
    only CanonicalForm.rule (lower_rule args env options.default_rule_exom)
lower_headed assert_fact args env options nested =
    only CanonicalForm.assert_fact (lower_fact_mutation args env)
lower_headed retract_fact args env options nested =
    only CanonicalForm.retract_fact (lower_fact_retract args env)
lower_headed (other name) args env options nested = err (unknown_head env name)

-- A form inside `in-exom`: one of the four, never another `in-exom`.
unfoldable pub lower_child :
    Text → LoweringOptions → Expr → Fallible LowerError (List CanonicalForm)
lower_child exom options (list (item (symbol head) args)) =
    lower_headed (head_of head) args (some exom) options (err (nested_form head))
lower_child exom options _ = err unsupported_child

unfoldable pub lower_children :
    Text → LoweringOptions → Exprs → Fallible LowerError (List CanonicalForm)
lower_children exom options no_items = ok []
lower_children exom options (item child rest) = do
  forms ← lower_child exom options child
  more ← lower_children exom options rest
  ok (forms ++ more)

unfoldable pub lower_in_exom : Exprs → LoweringOptions → Fallible LowerError (List CanonicalForm)
lower_in_exom (item name (item child rest)) options = do
  exom ← expect_symbol name
  lower_children exom options (item child rest)
lower_in_exom _ options = err in_exom_arity

unfoldable pub lower_top_level : Expr → LoweringOptions → Fallible LowerError (List CanonicalForm)
lower_top_level (list (item (symbol head) args)) options =
    lower_headed (head_of head) args none options (lower_in_exom args options)
lower_top_level (list items) options = err expected_head
lower_top_level _ options = err expected_list
