-- ===== src/Rayfall/Parser/Fuel.antt =====
-- The parser of src/rayfall_ast.rs stops on every text: the fuel that it is given is enough.
use ray_exomem.Prelude.{
  ℕ, zero, suc, ◌+◌, ◌*◌, ◌≤◌, ◌<◌, ◌≡◌, ◌≢◌, refl, Text, Bool, true, false, [], ◌∷◌, ◌==◌, length,
  arith, Bool-cases, inl, inr,
}
use ray_exomem.Rayfall.{Exprs, no_items, item, list, quote, newline, double_quote, backslash}
use ray_exomem.Rayfall.Parser.{
  Parsed, ok, failed, out_of_fuel, bind, push, space_len, starts_comment, skip,
  skip_ws_and_comments, stops, take_symbol, parse_symbol, symbol_or_fail, read_string, parse_string,
  Lead, opens, closes, starts_string, starts_quote, plain, lead, parse_expr, parse_lead, parse_list,
  parse_item, read_forms, read_form, fuel_for, parse_forms, parse_one, only_form,
}

-- The run came to an end, and `P` holds of what it read, if it read anything.
pub data Ends {A : Type 0} (P : A → Type 0) : Parsed A → Type 0 where
  read : {a : A} → P a → Ends P (ok a)
  refused : {e : _} → Ends P (failed e)

module _ {A : Type 0} {P : A → Type 0} where
  Ends-out_of_fuel : {r : Parsed A} → Ends P r → r ≢ out_of_fuel
  Ends-out_of_fuel (read h) = cc
  Ends-out_of_fuel refused = cc

  Ends-bind :
      {B : Type 0} {Q : B → Type 0} {r : Parsed A} {f : A → Parsed B}
      → Ends P r
      → ((a : A) → P a → Ends Q (f a))
      → Ends Q (bind r f)
  Ends-bind (read {a} h) k = k a h
  Ends-bind refused k = refused

-- What is left is shorter than a text.
abbrev LeavesLess : {A : Type 0} → Text → A × Text → Type 0
LeavesLess t p = length p.1 < length t

length_skipped :
    (c : ℕ) (t : Text)
    → ((wide : ℕ) → length (skip wide false t) ≤ length t)
    → (n : ℕ)
    → length (elim n as (λ _. Text) [ zero ↦ c ∷ t | suc wide ↦ skip wide false t ])
      ≤ length (c ∷ t)
length_skipped c t le zero = omega arith
length_skipped c t le (suc wide) = omega (arith, le wide)

length-skip : (wide : ℕ) (comment : Bool) (t : Text) → length (skip wide comment t) ≤ length t
unfolding skip
length-skip zero comment [] = omega arith
length-skip (suc wide) comment [] = omega arith
length-skip (suc wide) comment (c ∷ t) = omega (arith, length-skip wide comment t)
length-skip zero true (c ∷ t) = elim (Bool-cases (c == newline)) [
  | inl h ↦ rw (skip, h) (omega (arith, length-skip zero false t))
  | inr h ↦ rw (skip, h) (omega (arith, length-skip zero true t))
]
length-skip zero false (c ∷ t) = elim (Bool-cases (starts_comment (c ∷ t))) [
  | inl h ↦ rw (skip, h) (omega (arith, length-skip zero true t))
  | inr h ↦ rw (skip, h) (length_skipped c t (λ wide. length-skip wide false t) (space_len (c ∷ t)))
]

length-take_symbol : (t : Text) → length (take_symbol t).0 + length (take_symbol t).1 ≡ length t
unfolding take_symbol
length-take_symbol [] = refl
length-take_symbol (c ∷ t) = elim (Bool-cases (stops (c ∷ t))) [
  | inl h ↦ rw h (omega arith)
  | inr h ↦ rw h (omega (arith, length-take_symbol t))
]

symbol-Ends :
    (p : Text × Text) (t : Text)
    → length p.0 + length p.1 ≡ length t
    → Ends (LeavesLess t) (symbol_or_fail p)
symbol-Ends ([], rest) t e = refused
symbol-Ends (c ∷ name, rest) t e = read (omega (arith, e))

parse_symbol-Ends : (t : Text) → Ends (LeavesLess t) (parse_symbol t)
unfolding parse_symbol
parse_symbol-Ends t = symbol-Ends (take_symbol t) t (length-take_symbol t)

push-Ends :
    (c : ℕ) (t u : Text) (r : Parsed (Text × Text))
    → length t < length u
    → Ends (LeavesLess t) r
    → Ends (LeavesLess u) (push c r)
push-Ends c t u r h e = Ends-bind e (λ p k. read (omega (arith, h, k)))

read_string-Ends : (t : Text) → Ends (LeavesLess t) (read_string t)
unfolding read_string
read_string-Ends [] = refused
read_string-Ends (c ∷ []) = elim (Bool-cases (c == double_quote)) [
  | inl q ↦ rw q (read (omega arith))
  | inr q ↦ elim (Bool-cases (c == backslash)) [
    | inl b ↦ rw (q, b) refused
    | inr b ↦ rw (q, b) refused
  ]
]
read_string-Ends (c ∷ d ∷ t) = elim (Bool-cases (c == double_quote)) [
  | inl q ↦ rw (read_string, q) (read (omega arith))
  | inr q ↦ elim (Bool-cases (c == backslash)) [
    | inl b ↦
        rw (read_string, q, b) (push-Ends _ t (c ∷ d ∷ t) _ (omega arith) (read_string-Ends t))
    | inr b ↦
        rw (read_string, q, b)
          (push-Ends _ (d ∷ t) (c ∷ d ∷ t) _ (omega arith) (read_string-Ends (d ∷ t)))
  ]
]

parse_string-Ends : (t : Text) → Ends (LeavesLess t) (parse_string t)
unfolding parse_string
parse_string-Ends t = Ends-bind (read_string-Ends t) (λ p k. read k)

weaken :
    {A : Type 0} (t u : Text) (r : Parsed (A × Text))
    → length t ≤ length u
    → Ends (LeavesLess t) r
    → Ends (LeavesLess u) r
weaken t u _ h (read k) = read (omega (arith, h, k))
weaken t u _ h refused = refused

wrap-Ends :
    {A B : Type 0} (t u : Text) (r : Parsed (A × Text)) (f : A → B)
    → length t ≤ length u
    → Ends (LeavesLess t) r
    → Ends (LeavesLess u) (bind r (λ p. ok (f p.0, p.1)))
wrap-Ends t u r f h e = Ends-bind e (λ p k. read (omega (arith, h, k)))

-- What `parse_lead` does with what the calls that it may make give.
lead_as-Ends :
    (l : Lead) (c f : ℕ) (t : Text)
    → ((closer : ℕ) → Ends (LeavesLess t) (parse_list f closer t))
    → Ends (LeavesLess t) (parse_expr f t)
    → lead c ≡ l
    → Ends (LeavesLess (c ∷ t)) (parse_lead (suc f) (c ∷ t))
unfolding parse_lead
lead_as-Ends (opens closer) c f t lists expr h =
    rw (parse_lead, h) (wrap-Ends t (c ∷ t) _ list (omega arith) (lists closer))
lead_as-Ends closes c f t lists expr h = rw (parse_lead, h) refused
lead_as-Ends starts_string c f t lists expr h =
    rw (parse_lead, h) (weaken t (c ∷ t) _ (omega arith) (parse_string-Ends t))
lead_as-Ends starts_quote c f t lists expr h =
    rw (parse_lead, h) (wrap-Ends t (c ∷ t) _ quote (omega arith) expr)
lead_as-Ends plain c f t lists expr h = rw (parse_lead, h) (parse_symbol-Ends (c ∷ t))

mutual
  unfolding parse_expr skip_ws_and_comments

  expr-Ends : (f : ℕ) (t : Text) → 4 * length t + 1 < f → Ends (LeavesLess t) (parse_expr f t)
  expr-Ends zero t h = absurd (omega arith)
  expr-Ends (suc f) t h =
      let le = length-skip 0 false t in
      weaken (skip_ws_and_comments t) t _ le
        (lead-Ends f (skip_ws_and_comments t) (omega (arith, le)))

  lead-Ends : (f : ℕ) (t : Text) → 4 * length t + 1 < suc f → Ends (LeavesLess t) (parse_lead f t)
  lead-Ends zero [] h = absurd (omega arith)
  lead-Ends zero (c ∷ t) h = absurd (omega arith)
  lead-Ends (suc f) [] h = refused
  lead-Ends (suc f) (c ∷ t) h =
      lead_as-Ends (lead c) c f t (λ closer. list-Ends f closer t (omega arith))
        (expr-Ends f t (omega arith)) refl

  list-Ends :
      (f closer : ℕ) (t : Text) → 4 * length t + 3 < f → Ends (LeavesLess t) (parse_list f closer t)
  list-Ends zero closer t h = absurd (omega arith)
  list-Ends (suc f) closer t h =
      let le = length-skip 0 false t in
      weaken (skip_ws_and_comments t) t _ le
        (item-Ends f closer (skip_ws_and_comments t) (omega (arith, le)))

  item-Ends :
      (f closer : ℕ) (t : Text)
      → 4 * length t + 3 < suc f
      → Ends (LeavesLess t) (parse_item f closer t)
  item-Ends zero closer t h = absurd (omega arith)
  item-Ends (suc f) closer [] h = refused
  item-Ends (suc f) closer (c ∷ t) h = elim (Bool-cases (c == closer)) [
    | inl e ↦ rw (parse_item, e) (read (omega arith))
    | inr e ↦
        rw (parse_item, e)
          (Ends-bind (expr-Ends f (c ∷ t) (omega arith)) (λ p k.
            Ends-bind (list-Ends f closer p.1 (omega (arith, k)))
              (λ q j. read (omega (arith, k, j)))))
  ]

fuel_enough : (t : Text) → 4 * length t + 1 < fuel_for t
unfolding fuel_for
fuel_enough t = omega arith

mutual
  unfolding read_forms skip_ws_and_comments

  forms-Ends : (f : ℕ) (t : Text) → 2 * length t + 1 < f → Ends (λ _. Unit) (read_forms f t)
  forms-Ends zero t h = absurd (omega arith)
  forms-Ends (suc f) t h =
      form-Ends f (skip_ws_and_comments t) (omega (arith, length-skip 0 false t))

  form-Ends : (f : ℕ) (t : Text) → 2 * length t + 1 < suc f → Ends (λ _. Unit) (read_form f t)
  form-Ends zero t h = absurd (omega arith)
  form-Ends (suc f) [] h = read tt
  form-Ends (suc f) (c ∷ t) h =
      Ends-bind (expr-Ends (fuel_for (c ∷ t)) (c ∷ t) (fuel_enough (c ∷ t)))
        (λ p k. Ends-bind (forms-Ends f p.1 (omega (arith, k))) (λ rest _. read tt))

only_form-Ends : (items : Exprs) → Ends (λ _. Unit) (only_form items)
only_form-Ends no_items = refused
only_form-Ends (item e no_items) = read tt
only_form-Ends (item e (item d items)) = refused

-- `parse_expr` with fuel above four times the length of its text and one comes to an end, and what
-- it leaves is shorter than the text.
pub parse_expr-Ends :
    (f : ℕ) (t : Text) → 4 * length t + 1 < f → Ends (LeavesLess t) (parse_expr f t)
parse_expr-Ends = expr-Ends

-- On every text `parse_forms` and `parse_one` come to an end: the model never gives up where the
-- program would go on.
pub parse_one-ne-out_of_fuel :
    (t : Text) → (parse_forms t ≢ out_of_fuel) × (parse_one t ≢ out_of_fuel)
unfolding parse_one parse_forms
parse_one-ne-out_of_fuel t =
    let forms = forms-Ends (2 * length t + 2) t (omega arith) in
    (Ends-out_of_fuel forms, Ends-out_of_fuel (Ends-bind forms (λ items _. only_form-Ends items)))
