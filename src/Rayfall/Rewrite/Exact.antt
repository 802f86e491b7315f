-- ===== src/Rayfall/Rewrite/Exact.antt =====
-- The rewriting of src/rayfall_ast.rs, item by item: which strings become quoted symbols, and that
-- all else stays.
use mathlib.Core.Path.{subst}
use ray_exomem.Prelude.{
  ℕ, zero, suc, ◌+◌, ◌≡◌, refl, ap, ◌↔◌, inl, inr, Text, Option, some, none, List, [], ◌∷◌, Memᴰ,
  Memᴰ-cons, ◌⊎◌, Bool-cases, true, arith,
}
use ray_exomem.Prelude.Search.{text_mem-Memᴰ}
use ray_exomem.Rayfall.{Expr, list, symbol, string, quote, Exprs, no_items, item}
use ray_exomem.Rayfall.Forms.{CanonicalQuery}
use ray_exomem.Rayfall.Rewrite.{
  pin_string_to_sym, is_sym_kind, sym_encoded_kinds, pin_all, pins_of, first_pins, later_pins,
  rewrite_item, rewrite_items, rewrite_expr_body_literals, rewrite_clauses,
  rewrite_body_literals_with_schema_and_rules,
}
use ray_exomem.Rayfall.Rewrite.Pins.{
  atom_value, argument, nth, count, IsValueOf, pins_at, pins_of-IsValueOf,
}

module _ (kind : Text → Option Text) (rules : Text → Option (List (Option Text))) where
  -- An attribute whose values are stored as symbols.
  abbrev pub IsSymAttr : Text → Type 0
  IsSymAttr attr = (k : Text) × (kind attr ≡ some k) × Memᴰ k sym_encoded_kinds

  -- The item in a place is the value of an attribute whose values are stored as symbols.
  abbrev pub IsPinned : Exprs → ℕ → Type 0
  IsPinned items i = (attr : Text) × IsValueOf kind rules items i attr × IsSymAttr attr

  -- What the item in a place of a list becomes: a pinned string a quoted symbol, any other string,
  -- symbol or quote itself, and a list a list of as many items, of each of which the same holds.
  pub data IsRewritten : Exprs → ℕ → Expr → Expr → Type 0 where
    symbol_kept : {items : Exprs} {i : ℕ} (s : Text) → IsRewritten items i (symbol s) (symbol s)
    quote_kept : {items : Exprs} {i : ℕ} (e : Expr) → IsRewritten items i (quote e) (quote e)
    string_pinned :
        {items : Exprs} {i : ℕ} (s : Text)
        → IsPinned items i
        → IsRewritten items i (string s) (quote (symbol s))
    string_kept :
        {items : Exprs} {i : ℕ} (s : Text)
        → ¬ IsPinned items i
        → IsRewritten items i (string s) (string s)
    list_rewritten :
        {items : Exprs} {i : ℕ} (xs ys : Exprs)
        → count ys ≡ count xs
        → ((j : ℕ) (x y : Expr) → nth xs j ≡ some x → nth ys j ≡ some y → IsRewritten xs j x y)
        → IsRewritten items i (list xs) (list ys)

  is_sym_kind-IsSymAttr : (attr : Text) → (is_sym_kind (kind attr) ≡ true) ↔ IsSymAttr attr
  is_sym_kind-IsSymAttr attr = sym_kind (kind attr)
    where
      sym_kind :
          (o : Option Text)
          → (is_sym_kind o ≡ true) ↔ ((k : Text) × (o ≡ some k) × Memᴰ k sym_encoded_kinds)
      sym_kind none = (λ h. absurd (cc h), λ (k, e, _). absurd (cc e))
      sym_kind (some a) = (
        λ h. (a, refl, (text_mem-Memᴰ a sym_encoded_kinds).0 h),
        λ (k, e, m).
            let same : k ≡ a = cc e in
            (text_mem-Memᴰ a sym_encoded_kinds).1 (subst (λ t. Memᴰ t sym_encoded_kinds) same m),
      )

  pin_all_quote : (e : Expr) (pins : List Text) → pin_all kind rules (quote e) pins ≡ quote e
  unfolding pin_all pin_string_to_sym
  pin_all_quote e [] = refl
  pin_all_quote e (attr ∷ attrs) = pin_all_quote e attrs

  pin_all_symbol : (s : Text) (pins : List Text) → pin_all kind rules (symbol s) pins ≡ symbol s
  unfolding pin_all pin_string_to_sym
  pin_all_symbol s [] = refl
  pin_all_symbol s (attr ∷ attrs) = pin_all_symbol s attrs

  -- A string becomes a symbol exactly when one of the pins has a kind that is stored as symbols.
  pin_all_string :
      (s : Text) (pins : List Text)
      → ((attr : Text) × Memᴰ attr pins
          × IsSymAttr attr
          × (pin_all kind rules (string s) pins ≡ quote (symbol s)))
        ⊎ ((¬ ((attr : Text) × Memᴰ attr pins × IsSymAttr attr))
            × (pin_all kind rules (string s) pins ≡ string s))
  unfolding pin_all pin_string_to_sym
  pin_all_string s [] = inr (λ (_, m, _). elim m [ ], refl)
  pin_all_string s (attr ∷ attrs) = elim (Bool-cases (is_sym_kind (kind attr))) [
    | inl e ↦ rw e (
        inl
          (attr, Memᴰ.head refl, (is_sym_kind-IsSymAttr attr).0 e, pin_all_quote (symbol s) attrs))
    | inr e ↦ rw e (elim (pin_all_string s attrs) [
      | inl (a, m, k, r) ↦ inl (a, Memᴰ.tail m, k, r)
      | inr (n, r) ↦ inr (
        λ (a, m, k). elim (Memᴰ-cons m) [
          | inl same ↦ let yes = (is_sym_kind-IsSymAttr a).1 k in absurd (cc (ap kind same, yes, e))
          | inr later ↦ n (a, later, k)
        ],
        r,
      )
    ])
  ]

  -- The pins of a place are the attributes that the item there is a value of.
  abbrev ArePins : Exprs → ℕ → List Text → Type 0
  ArePins items i pins = (attr : Text) → Memᴰ attr pins ↔ IsValueOf kind rules items i attr

  string-IsRewritten :
      (items : Exprs) (i : ℕ) (s : Text) (pins : List Text)
      → ArePins items i pins
      → IsRewritten items i (string s) (pin_all kind rules (string s) pins)
  string-IsRewritten items i s pins h = elim (pin_all_string s pins) [
    | inl (attr, m, k, r) ↦ rw r (string_pinned s (attr, (h attr).0 m, k))
    | inr (n, r) ↦ rw r (string_kept s (λ (attr, v, k). n (attr, (h attr).1 v, k)))
  ]

  count-rewrite_items :
      (items : Exprs) (pins : List (List Text))
      → count (rewrite_items kind rules items pins) ≡ count items
  unfolding rewrite_items count
  count-rewrite_items no_items pins = refl
  count-rewrite_items (item e items) pins =
      ap suc (count-rewrite_items items (later_pins kind rules pins))

  mutual
    unfolding rewrite_item rewrite_items nth pins_at

    rewrite_item-IsRewritten :
        (e : Expr) (items : Exprs) (i : ℕ) (pins : List Text)
        → ArePins items i pins
        → IsRewritten items i e (rewrite_item kind rules e pins)
    rewrite_item-IsRewritten (symbol s) items i pins h = rw (pin_all_symbol s pins) (symbol_kept s)
    rewrite_item-IsRewritten (quote e) items i pins h = rw (pin_all_quote e pins) (quote_kept e)
    rewrite_item-IsRewritten (string s) items i pins h = string-IsRewritten items i s pins h
    rewrite_item-IsRewritten (list xs) items i pins h =
        let found = pins_of kind rules xs in
        list_rewritten xs (rewrite_items kind rules xs found) (count-rewrite_items xs found)
          (λ j x y.
            rewrite_items-IsRewritten xs xs found 0 j
              (λ k n same.
                subst (λ l. ArePins xs l (pins_at kind rules found k))
                  (let place : k ≡ n = omega (arith, same) in place)
                  (pins_of-IsValueOf kind rules xs k))
              j (omega arith) x y)

    -- The items of a list from a place `start` on, with what pins them; `n` is the place of the item
    -- `j` of them in the whole list.
    rewrite_items-IsRewritten :
        (rest whole : Exprs) (pins : List (List Text)) (start j : ℕ)
        → ((k n : ℕ) → n ≡ start + k → ArePins whole n (pins_at kind rules pins k))
        → (n : ℕ) → n ≡ start + j
        → (x y : Expr) → nth rest j ≡ some x
        → nth (rewrite_items kind rules rest pins) j ≡ some y
        → IsRewritten whole n x y
    rewrite_items-IsRewritten no_items whole pins start j h n p x y a b = absurd (cc a)
    rewrite_items-IsRewritten (item e items) whole pins start zero h n p x y a b =
        let old : e ≡ x = cc a in
        let new : rewrite_item kind rules e (first_pins kind rules pins) ≡ y = cc b in
        subst (λ u. IsRewritten whole n u y) old
          (subst (IsRewritten whole n e) new
            (rewrite_item-IsRewritten e whole n (first_pins kind rules pins) (h zero n p)))
    rewrite_items-IsRewritten (item e items) whole pins start (suc j) h n p x y a b =
        rewrite_items-IsRewritten items whole (later_pins kind rules pins) (suc start) j
          (λ k m q. h (suc k) m (omega (arith, q))) n (omega (arith, p)) x y a b

  count-rewrite_clauses : (q : Exprs) → count (rewrite_clauses kind rules q) ≡ count q
  unfolding rewrite_clauses count
  count-rewrite_clauses no_items = refl
  count-rewrite_clauses (item e items) = ap suc (count-rewrite_clauses items)

  -- A clause of a query stands in no list, so that nothing pins it.
  clause_free : (attr : Text) → Memᴰ attr [] ↔ IsValueOf kind rules no_items 0 attr
  unfolding count nth
  clause_free attr = (
    λ m. elim m [ ],
    λ v. elim v [
      | atom_value n p e ↦ absurd (omega (arith, n))
      | argument name slots j head rule place slot ↦ absurd (cc head)
    ],
  )

  rewrite_clauses-IsRewritten :
      (clauses : Exprs) (i : ℕ) (x y : Expr)
      → nth clauses i ≡ some x
      → nth (rewrite_clauses kind rules clauses) i ≡ some y
      → IsRewritten no_items 0 x y
  unfolding rewrite_clauses rewrite_expr_body_literals nth
  rewrite_clauses-IsRewritten no_items i x y a b = absurd (cc a)
  rewrite_clauses-IsRewritten (item e items) zero x y a b =
      let old : e ≡ x = cc a in
      let new : rewrite_item kind rules e [] ≡ y = cc b in
      subst (λ u. IsRewritten no_items 0 u y) old
        (subst (IsRewritten no_items 0 e) new
          (rewrite_item-IsRewritten e no_items 0 [] clause_free))
  rewrite_clauses-IsRewritten (item e items) (suc i) x y a b =
      rewrite_clauses-IsRewritten items i x y a b

  -- A rewritten query is about the same exom and has as many clauses, each rewritten exactly: in a
  -- list of a clause, however deep, a string becomes the quoted symbol of its text when the schema
  -- stores the values of the attribute that its place gives it as symbols, be it the third of three
  -- items after a quoted attribute or an argument of a rule; any other string, and each symbol and
  -- quoted expression, stays, and lists keep their number of items.
  pub rewrite_body_literals-IsRewritten :
      (q : CanonicalQuery)
      → (let r = rewrite_body_literals_with_schema_and_rules kind rules q in
          (r.exom ≡ q.exom)
          × (count r.clauses ≡ count q.clauses)
          × ((i : ℕ) (x y : Expr)
              → nth q.clauses i ≡ some x
              → nth r.clauses i ≡ some y
              → IsRewritten no_items 0 x y))
  unfolding rewrite_body_literals_with_schema_and_rules
  rewrite_body_literals-IsRewritten q =
      (refl, count-rewrite_clauses q.clauses, rewrite_clauses-IsRewritten q.clauses)
