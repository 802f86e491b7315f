-- ===== src/Rayfall/Rewrite.antt =====
-- src/rayfall_ast.rs: string literals of a query that are turned into symbols where the schema says
-- so, and rules that are put at the end of a query. The kinds of attributes and what a rule's
-- parameters stand for are functions that the caller gives.
pub mod Pins
pub mod Exact
mod Tests
use ray_exomem.Prelude.{
  ℕ, zero, suc, ◌+◌, Text, codes, text_mem, Bool, true, false, Option, none, some, List, [], ◌∷◌,
  ◌++◌, if◌then◌else◌,
}
use ray_exomem.Rayfall.{Expr, list, symbol, string, quote, Exprs, no_items, item}
use ray_exomem.Rayfall.Parser.{Parsed, ok, bind, parse_one}
use ray_exomem.Rayfall.Forms.{CanonicalQuery, CanonicalForm, emit_form}

abbrev pub sym_encoded_kinds : List Text
sym_encoded_kinds =
    codes "predicate" ∷ codes "branch" ∷ codes "tx-entity" ∷ codes "entity" ∷ codes "sym" ∷ []

abbrev pub is_sym_kind : Option Text → Bool
is_sym_kind none = false
is_sym_kind (some kind) = text_mem kind sym_encoded_kinds

module _ (value_kind_for_attr : Text → Option Text)
    (rule_param_attrs : Text → Option (List (Option Text))) where
  unfoldable pub pin_string_to_sym : Expr → (attr : Text) → Expr
  pin_string_to_sym (string s) attr =
      if is_sym_kind (value_kind_for_attr attr) then quote (symbol s) else string s
  pin_string_to_sym e attr = e

  abbrev pub attr_name : Expr → Option Text
  attr_name (quote (symbol s)) = some s
  attr_name _ = none

  -- The attributes that an item is pinned by, one after the other.
  unfoldable pub pin_all : Expr → List Text → Expr
  pin_all e [] = e
  pin_all e (attr ∷ attrs) = pin_all (pin_string_to_sym e attr) attrs

  abbrev pub to_list : Option Text → List Text
  to_list none = []
  to_list (some attr) = attr ∷ []

  -- `(?ent 'attr "literal")`: three items of which the second is a quoted symbol.
  unfoldable pub value_pins : Exprs → List (List Text)
  value_pins (item e (item a (item v no_items))) = [] ∷ [] ∷ to_list (attr_name a) ∷ []
  value_pins items = []

  unfoldable pub slot_pins : List (Option Text) → List (List Text)
  slot_pins [] = []
  slot_pins (slot ∷ slots) = to_list slot ∷ slot_pins slots

  abbrev pub slots_of : Option (List (Option Text)) → List (List Text)
  slots_of none = []
  slots_of (some slots) = [] ∷ slot_pins slots

  -- A call of a rule: the arguments, each with its slot.
  unfoldable pub call_pins : Exprs → List (List Text)
  call_pins (item (symbol name) args) = slots_of (rule_param_attrs name)
  call_pins items = []

  unfoldable pub both_pins : List (List Text) → List (List Text) → List (List Text)
  both_pins [] qs = qs
  both_pins (p ∷ ps) [] = p ∷ ps
  both_pins (p ∷ ps) (q ∷ qs) = (p ++ q) ∷ both_pins ps qs

  unfoldable pub pins_of : Exprs → List (List Text)
  pins_of items = both_pins (value_pins items) (call_pins items)

  abbrev pub first_pins : List (List Text) → List Text
  first_pins [] = []
  first_pins (p ∷ ps) = p

  abbrev pub later_pins : List (List Text) → List (List Text)
  later_pins [] = []
  later_pins (p ∷ ps) = ps

  -- `rewrite_expr_body_literals` of an item that its list pins by some attributes: a list is left by
  -- the pins, and nothing else has items of its own to go on to.
  unfoldable mutual
    pub rewrite_item : Expr → List Text → Expr
    rewrite_item (list items) pins = list (rewrite_items items (pins_of items))
    rewrite_item (symbol s) pins = pin_all (symbol s) pins
    rewrite_item (string s) pins = pin_all (string s) pins
    rewrite_item (quote e) pins = pin_all (quote e) pins

    pub rewrite_items : Exprs → List (List Text) → Exprs
    rewrite_items no_items pins = no_items
    rewrite_items (item e items) pins =
        item (rewrite_item e (first_pins pins)) (rewrite_items items (later_pins pins))

  unfoldable pub rewrite_expr_body_literals : Expr → Expr
  rewrite_expr_body_literals e = rewrite_item e []

  unfoldable pub rewrite_clauses : Exprs → Exprs
  rewrite_clauses no_items = no_items
  rewrite_clauses (item e items) = item (rewrite_expr_body_literals e) (rewrite_clauses items)

  unfoldable pub rewrite_body_literals_with_schema_and_rules : CanonicalQuery → CanonicalQuery
  rewrite_body_literals_with_schema_and_rules q = record {
    exom = q.exom;
    clauses = rewrite_clauses q.clauses;
  }

unfoldable pub parse_bodies : List Text → Parsed Exprs
parse_bodies [] = ok no_items
parse_bodies (body ∷ bodies) =
    bind (parse_one body) (λ e. bind (parse_bodies bodies) (λ rest. ok (item e rest)))

unfoldable pub push_clause : Exprs → Expr → Exprs
push_clause no_items e = item e no_items
push_clause (item c clauses) e = item c (push_clause clauses e)

abbrev with_rules : CanonicalQuery → Exprs → Text
with_rules q rules = emit_form (
    CanonicalForm.query (record {
      exom = q.exom;
      clauses = push_clause q.clauses (list (item (symbol (codes "rules")) rules));
    }))

unfoldable pub append_rules_to_query :
    CanonicalQuery → (rule_inline_bodies : List Text) → Parsed Text
append_rules_to_query q [] = ok (emit_form (CanonicalForm.query q))
append_rules_to_query q (body ∷ bodies) =
    bind (parse_bodies (body ∷ bodies)) (λ rules. ok (with_rules q rules))
