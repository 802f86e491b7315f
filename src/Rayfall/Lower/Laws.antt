-- ===== src/Rayfall/Lower/Laws.antt =====
-- src/rayfall_ast.rs: what lowering gives back of a form that was printed, and where the forms of an
-- `in-exom` stand.
use mathlib.Core.Path.{subst}
use ray_exomem.Prelude.{
  ◌≡◌, refl, ap, ◌∙◌, Text, codes, Bool, true, false, Option, none, some, List, [], ◌∷◌, ◌++◌, Memᴰ,
  inl, inr, Memᴰ-append, Memᴰ-single, text_eq, Bool-cases,
}
use ray_exomem.Prelude.Fallible.{Fallible, ok, err, ◌>>=◌, >>=-eq-ok}
use ray_exomem.Path.{replace_colons}
use ray_exomem.Rayfall.{Expr, list, symbol, string, quote, Exprs, no_items, item}
use ray_exomem.Rayfall.Parser.{Parsed, parse_one}
use ray_exomem.Rayfall.Parser.Tokens.{is_clean}
use ray_exomem.Rayfall.Parser.RoundTrip.{parse_one-emit}
use ray_exomem.Rayfall.Forms.{
  CanonicalFactMutation, CanonicalFactRetract, CanonicalForm, to_expr, emit_form, form_path,
}
use ray_exomem.Rayfall.Lower.{
  LoweringOptions, LowerError, Head, in_exom, query, rule, assert_fact, retract_fact, other,
  head_of, resolve_exom, maybe_explicit_exom, lower_clauses, lower_query, lower_rule, lower_tuple,
  lower_fact_mutation, lower_id, lower_fact_retract, expect_symbol, expect_string, expect_predicate,
  some_clauses, only, lower_headed, lower_child, lower_children, lower_in_exom, lower_top_level,
}

abbrev pub has_items : Exprs → Bool
has_items no_items = false
has_items (item e items) = true

-- A query or a rule has a clause.
abbrev pub has_body : CanonicalForm → Bool
has_body (CanonicalForm.query q) = has_items q.clauses
has_body (CanonicalForm.rule r) = has_items r.clauses
has_body _ = true

lower_clauses_some :
    (exom : Text) (clauses : Exprs) (default : Option Text)
    → has_items clauses ≡ true
    → lower_clauses (item (symbol exom) clauses) none default ≡ ok (replace_colons exom, clauses)
unfolding lower_clauses maybe_explicit_exom resolve_exom
lower_clauses_some exom no_items default h = absurd (cc h)
lower_clauses_some exom (item e items) default h = refl

lower_tuple-some :
    (exom fact_id predicate value : Text)
    → lower_tuple (some exom) none (string fact_id) (quote (symbol predicate)) (string value)
      ≡ ok (record {
        exom = replace_colons exom;
        fact_id = fact_id;
        predicate = predicate;
        value = value;
      })
unfolding lower_tuple resolve_exom
lower_tuple-some exom fact_id predicate value = refl

lower_retract :
    (fact_id : Text) (tuple : Option (Text × Text)) (exom : Text) (options : LoweringOptions)
    → replace_colons exom ≡ exom
    → let form =
        CanonicalForm.retract_fact (record { exom = exom; fact_id = fact_id; tuple = tuple }) in
      lower_top_level (to_expr form) options ≡ ok (form ∷ [])
unfolding lower_top_level to_expr head_of lower_headed lower_fact_retract lower_fact_mutation
    lower_id resolve_exom text_eq
lower_retract fact_id none exom options n = rw n
lower_retract fact_id (some (p, v)) exom options n = rw (lower_tuple-some exom fact_id p v, n)

-- A form whose exom is spelled with slashes, with a clause where it is a query or a rule, comes out
-- as it is when its expression is lowered, whatever the defaults are.
pub lower_top_level-to_expr :
    (form : CanonicalForm) (options : LoweringOptions)
    → replace_colons (form_path form) ≡ form_path form
    → has_body form ≡ true
    → lower_top_level (to_expr form) options ≡ ok (form ∷ [])
unfolding lower_top_level to_expr head_of lower_headed lower_query lower_rule lower_fact_mutation
    lower_fact_retract lower_id resolve_exom text_eq
lower_top_level-to_expr (CanonicalForm.query q) options n b =
    rw (lower_clauses_some q.exom q.clauses options.default_query_exom b, n)
lower_top_level-to_expr (CanonicalForm.rule r) options n b =
    rw (lower_clauses_some r.exom r.clauses options.default_rule_exom b, n)
lower_top_level-to_expr (CanonicalForm.assert_fact m) options n b =
    rw (lower_tuple-some m.exom m.fact_id m.predicate m.value, n)
lower_top_level-to_expr (CanonicalForm.retract_fact r) options n b =
    lower_retract r.fact_id r.tuple r.exom options n

-- The text of a form comes back as that form: printed, parsed and lowered. Its exom is spelled with
-- slashes, it has a clause where it is a query or a rule, and its symbols are such as the parser
-- reads.
pub emit_form-lower_top_level :
    (form : CanonicalForm) (options : LoweringOptions)
    → replace_colons (form_path form) ≡ form_path form
    → has_body form ≡ true
    → is_clean (to_expr form) ≡ true
    → (e : Expr) × (parse_one (emit_form form) ≡ Parsed.ok e)
      × (lower_top_level e options ≡ ok (form ∷ []))
unfolding emit_form
emit_form-lower_top_level form options n b c =
    (to_expr form, parse_one-emit (to_expr form) c, lower_top_level-to_expr form options n b)

abbrev IsAt : Text → List CanonicalForm → Type 0
IsAt exom forms = (form : CanonicalForm) → Memᴰ form forms → form_path form ≡ exom

resolve_env :
    (explicit default : Option Text) (env exom : Text)
    → resolve_exom explicit (some env) default ≡ ok exom
    → exom ≡ replace_colons env
unfolding resolve_exom
resolve_env none default env exom h = cc h
resolve_env (some e) default env exom h =
    elim (Bool-cases (text_eq (replace_colons e) (replace_colons env))) [
      | inl s ↦ cc (rw s at h)
      | inr s ↦ absurd (cc (rw s at h))
    ]

lower_clauses_at :
    (args : Exprs) (env : Text) (default : Option Text) (p : Text × Exprs)
    → lower_clauses args (some env) default ≡ ok p
    → p.0 ≡ replace_colons env
unfolding lower_clauses
lower_clauses_at args env default p h =
    let (exom, e, r) =
      >>=-eq-ok (resolve_exom (maybe_explicit_exom args).0 (some env) default) _ h in
    let (clauses, c, s) = >>=-eq-ok (some_clauses (maybe_explicit_exom args).1) _ r in
    let i : p ≡ (exom, clauses) = cc s in ap (λ q. q.0) i ∙ resolve_env _ default env exom e

lower_tuple_at :
    (explicit : Option Text) (env : Text) (id predicate value : Expr) (m : CanonicalFactMutation)
    → lower_tuple explicit (some env) id predicate value ≡ ok m
    → m.exom ≡ replace_colons env
unfolding lower_tuple
lower_tuple_at explicit env id predicate value m h =
    let (exom, e, r) = >>=-eq-ok (resolve_exom explicit (some env) none) _ h in
    let (i, a, s) = >>=-eq-ok (expect_string id) _ r in
    let (n, b, t) = >>=-eq-ok (expect_predicate predicate) _ s in
    let (v, c, u) = >>=-eq-ok (expect_string value) _ t in
    let same : m ≡ record { exom = exom; fact_id = i; predicate = n; value = v } = cc u in
    ap (λ x. x.exom) same ∙ resolve_env explicit none env exom e

lower_fact_mutation_at :
    (args : Exprs) (env : Text) (m : CanonicalFactMutation)
    → lower_fact_mutation args (some env) ≡ ok m
    → m.exom ≡ replace_colons env
unfolding lower_fact_mutation
lower_fact_mutation_at no_items env m h = absurd (cc h)
lower_fact_mutation_at (item a no_items) env m h = absurd (cc h)
lower_fact_mutation_at (item a (item b no_items)) env m h = absurd (cc h)
lower_fact_mutation_at (item a (item b (item c no_items))) env m h =
    lower_tuple_at none env a b c m h
lower_fact_mutation_at (item a (item b (item c (item d no_items)))) env m h =
    let (x, e, r) = >>=-eq-ok (expect_symbol a) _ h in lower_tuple_at (some x) env b c d m r
lower_fact_mutation_at (item a (item b (item c (item d (item e rest))))) env m h = absurd (cc h)

lower_id_at :
    (explicit : Option Text) (env : Text) (id : Expr) (m : CanonicalFactRetract)
    → lower_id explicit (some env) id ≡ ok m
    → m.exom ≡ replace_colons env
unfolding lower_id
lower_id_at explicit env id m h =
    let (exom, e, r) = >>=-eq-ok (resolve_exom explicit (some env) none) _ h in
    let (i, a, s) = >>=-eq-ok (expect_string id) _ r in
    let same : m ≡ record { exom = exom; fact_id = i; tuple = none } = cc s in
    ap (λ x. x.exom) same ∙ resolve_env explicit none env exom e

-- The retraction of a tuple is a mutation that is lowered.
tuple_retract_at :
    (args : Exprs) (env : Text) (m : CanonicalFactRetract)
    → (lower_fact_mutation args (some env) >>= λ x.
        ok (record { exom = x.exom; fact_id = x.fact_id; tuple = some (x.predicate, x.value) }))
      ≡ ok m
    → m.exom ≡ replace_colons env
tuple_retract_at args env m h =
    let (x, e, r) = >>=-eq-ok (lower_fact_mutation args (some env)) _ h in
    let same : m
        ≡ record { exom = x.exom; fact_id = x.fact_id; tuple = some (x.predicate, x.value) } =
      cc r in
    ap (λ y. y.exom) same ∙ lower_fact_mutation_at args env x e

lower_fact_retract_at :
    (args : Exprs) (env : Text) (m : CanonicalFactRetract)
    → lower_fact_retract args (some env) ≡ ok m
    → m.exom ≡ replace_colons env
unfolding lower_fact_retract
lower_fact_retract_at no_items env m h = absurd (cc h)
lower_fact_retract_at (item a no_items) env m h = lower_id_at none env a m h
lower_fact_retract_at (item a (item b no_items)) env m h =
    let (x, e, r) = >>=-eq-ok (expect_symbol a) _ h in lower_id_at (some x) env b m r
lower_fact_retract_at (item a (item b (item c rest))) env m h =
    tuple_retract_at (item a (item b (item c rest))) env m h

only-IsAt :
    {A : Type 0} (f : A → CanonicalForm) (r : Fallible LowerError A) (exom : Text)
    (forms : List CanonicalForm)
    → ((a : A) → r ≡ ok a → form_path (f a) ≡ exom)
    → only f r ≡ ok forms
    → IsAt exom forms
only-IsAt f (err e) exom forms at h = absurd (cc h)
only-IsAt f (ok a) exom forms at h =
    let same : forms ≡ f a ∷ [] = cc h in
    λ form m. ap form_path (Memᴰ-single (subst (λ l. Memᴰ form l) same m)) ∙ at a refl

lower_headed-IsAt :
    (head : Head) (args : Exprs) (env : Text) (options : LoweringOptions) (e : LowerError)
    (forms : List CanonicalForm)
    → lower_headed head args (some env) options (err e) ≡ ok forms
    → IsAt (replace_colons env) forms
unfolding lower_headed lower_query lower_rule
lower_headed-IsAt in_exom args env options e forms h = absurd (cc h)
lower_headed-IsAt query args env options e forms h =
    only-IsAt CanonicalForm.query _ (replace_colons env) forms
      (λ q i.
        let (p, j, r) = >>=-eq-ok (lower_clauses args (some env) options.default_query_exom) _ i in
        let same : q ≡ record { exom = p.0; clauses = p.1 } = cc r in
        ap (λ x. x.exom) same ∙ lower_clauses_at args env options.default_query_exom p j)
      h
lower_headed-IsAt rule args env options e forms h =
    only-IsAt CanonicalForm.rule _ (replace_colons env) forms
      (λ q i.
        let (p, j, r) = >>=-eq-ok (lower_clauses args (some env) options.default_rule_exom) _ i in
        let same : q ≡ record { exom = p.0; clauses = p.1 } = cc r in
        ap (λ x. x.exom) same ∙ lower_clauses_at args env options.default_rule_exom p j)
      h
lower_headed-IsAt assert_fact args env options e forms h =
    only-IsAt CanonicalForm.assert_fact _ (replace_colons env) forms
      (lower_fact_mutation_at args env) h
lower_headed-IsAt retract_fact args env options e forms h =
    only-IsAt CanonicalForm.retract_fact _ (replace_colons env) forms
      (lower_fact_retract_at args env) h
lower_headed-IsAt (other name) args env options e forms h = absurd (cc h)

lower_child-IsAt :
    (env : Text) (options : LoweringOptions) (child : Expr) (forms : List CanonicalForm)
    → lower_child env options child ≡ ok forms
    → IsAt (replace_colons env) forms
unfolding lower_child
lower_child-IsAt env options (list (item (symbol head) args)) forms h =
    lower_headed-IsAt (head_of head) args env options (LowerError.nested_form head) forms h
lower_child-IsAt env options (list no_items) forms h = absurd (cc h)
lower_child-IsAt env options (list (item (list l) args)) forms h = absurd (cc h)
lower_child-IsAt env options (list (item (string s) args)) forms h = absurd (cc h)
lower_child-IsAt env options (list (item (quote q) args)) forms h = absurd (cc h)
lower_child-IsAt env options (symbol s) forms h = absurd (cc h)
lower_child-IsAt env options (string s) forms h = absurd (cc h)
lower_child-IsAt env options (quote q) forms h = absurd (cc h)

lower_children-IsAt :
    (env : Text) (options : LoweringOptions) (children : Exprs) (forms : List CanonicalForm)
    → lower_children env options children ≡ ok forms
    → IsAt (replace_colons env) forms
unfolding lower_children
lower_children-IsAt env options no_items forms h form m =
    let same : forms ≡ [] = cc h in elim (subst (λ l. Memᴰ form l) same m) [ ]
lower_children-IsAt env options (item child rest) forms h form m =
    let (a, i, r) = >>=-eq-ok (lower_child env options child) _ h in
    let (b, j, s) = >>=-eq-ok (lower_children env options rest) _ r in
    let same : forms ≡ a ++ b = cc s in
    elim (Memᴰ-append a (subst (λ l. Memᴰ form l) same m)) [
      | inl n ↦ lower_child-IsAt env options child a i form n
      | inr n ↦ lower_children-IsAt env options rest b j form n
    ]

-- Every form that an `in-exom` is lowered to stands at the exom it names, in slash spelling: no
-- child, by an exom of its own or by a default, leads to another.
pub lower_top_level-in_exom :
    (exom : Text) (children : Exprs) (options : LoweringOptions) (forms : List CanonicalForm)
    → lower_top_level (list (item (symbol (codes "in-exom")) (item (symbol exom) children))) options
      ≡ ok forms
    → (form : CanonicalForm) → Memᴰ form forms
    → form_path form ≡ replace_colons exom
unfolding lower_top_level lower_in_exom head_of lower_headed text_eq
lower_top_level-in_exom exom no_items options forms h = absurd (cc h)
lower_top_level-in_exom exom (item child rest) options forms h =
    lower_children-IsAt exom options (item child rest) forms h
