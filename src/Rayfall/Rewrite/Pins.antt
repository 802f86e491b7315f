-- ===== src/Rayfall/Rewrite/Pins.antt =====
-- Which attributes pin an item of a list, in terms of the list's items by their places, and the pins
-- that src/rayfall_ast.rs finds.
use mathlib.Core.List.{append-nil}
use ray_exomem.Prelude.{
  ℕ, zero, suc, ◌≡◌, refl, ap, sym, ◌∙◌, ◌↔◌, inl, inr, Text, Option, none, some, List, [], ◌∷◌,
  ◌++◌, Memᴰ, Memᴰ-single, Memᴰ-append, Memᴰ-append_left, Memᴰ-append_right, ◌≢◌, arith,
}
use ray_exomem.Rayfall.{Expr, list, symbol, string, quote, Exprs, no_items, item}
use ray_exomem.Rayfall.Rewrite.{
  attr_name, to_list, value_pins, slot_pins, slots_of, call_pins, both_pins, pins_of, first_pins,
  later_pins,
}

-- The item in a place, from 0.
unfoldable pub nth : Exprs → ℕ → Option Expr
nth no_items i = none
nth (item e items) zero = some e
nth (item e items) (suc i) = nth items i

unfoldable pub count : Exprs → ℕ
count no_items = 0
count (item e items) = suc (count items)

unfoldable pub nth_slot : List (Option Text) → ℕ → Option (Option Text)
nth_slot [] i = none
nth_slot (slot ∷ slots) zero = some slot
nth_slot (slot ∷ slots) (suc i) = nth_slot slots i

module _ (kind : Text → Option Text) (rules : Text → Option (List (Option Text))) where
  -- The item in a place stands for a value of an attribute: it is the third of three with the quoted
  -- attribute before it, or an argument of a rule whose parameter in that place has the attribute.
  pub data IsValueOf (items : Exprs) (i : ℕ) (attr : Text) : Type 0 where
    atom_value :
        count items ≡ 3 → i ≡ 2 → nth items 1 ≡ some (quote (symbol attr)) → IsValueOf items i attr
    argument :
        (name : Text)
        → (slots : List (Option Text)) → (j : ℕ) → nth items 0 ≡ some (symbol name)
        → rules name ≡ some slots
        → i ≡ suc j
        → nth_slot slots j ≡ some (some attr)
        → IsValueOf items i attr

  -- The pins of a place.
  unfoldable pub pins_at : List (List Text) → ℕ → List Text
  pins_at pins zero = first_pins kind rules pins
  pins_at pins (suc i) = pins_at (later_pins kind rules pins) i

  pins_at-no_pins : (i : ℕ) → pins_at [] i ≡ []
  unfolding pins_at
  pins_at-no_pins zero = refl
  pins_at-no_pins (suc i) = pins_at-no_pins i

  pins_at-both_pins :
      (ps qs : List (List Text)) (i : ℕ)
      → pins_at (both_pins kind rules ps qs) i ≡ pins_at ps i ++ pins_at qs i
  unfolding both_pins pins_at
  pins_at-both_pins [] qs i = rw (pins_at-no_pins i)
  pins_at-both_pins (p ∷ ps) [] i = rw (pins_at-no_pins i) (sym (append-nil (pins_at (p ∷ ps) i)))
  pins_at-both_pins (p ∷ ps) (q ∷ qs) zero = refl
  pins_at-both_pins (p ∷ ps) (q ∷ qs) (suc i) = pins_at-both_pins ps qs i

  to_list-Memᴰ :
      (o : Option Text) (attr : Text) → Memᴰ attr (to_list kind rules o) ↔ (o ≡ some attr)
  to_list-Memᴰ none attr = (λ m. elim m [ ], λ e. absurd (cc e))
  to_list-Memᴰ (some a) attr =
      (λ m. ap some (sym (Memᴰ-single m)), λ e. Memᴰ.head (let i : a ≡ attr = cc e in sym i))

  attr_name_iff :
      (e : Expr) (attr : Text) → (attr_name kind rules e ≡ some attr) ↔ (e ≡ quote (symbol attr))
  attr_name_iff (list xs) attr = (λ h. absurd (cc h), λ h. absurd (cc h))
  attr_name_iff (symbol s) attr = (λ h. absurd (cc h), λ h. absurd (cc h))
  attr_name_iff (string s) attr = (λ h. absurd (cc h), λ h. absurd (cc h))
  attr_name_iff (quote (list xs)) attr = (λ h. absurd (cc h), λ h. absurd (cc h))
  attr_name_iff (quote (symbol s)) attr = (λ h. cc h, λ h. cc h)
  attr_name_iff (quote (string s)) attr = (λ h. absurd (cc h), λ h. absurd (cc h))
  attr_name_iff (quote (quote e)) attr = (λ h. absurd (cc h), λ h. absurd (cc h))

  slot_pins-Memᴰ :
      (slots : List (Option Text)) (j : ℕ) (attr : Text)
      → Memᴰ attr (pins_at (slot_pins kind rules slots) j) ↔ (nth_slot slots j ≡ some (some attr))
  unfolding slot_pins pins_at nth_slot
  slot_pins-Memᴰ [] j attr = (λ m. elim (rw (pins_at-no_pins j) at m) [ ], λ e. absurd (cc e))
  slot_pins-Memᴰ (slot ∷ slots) zero attr =
      let (there, back) = to_list-Memᴰ slot attr in (λ m. ap some (there m), λ e. back (cc e))
  slot_pins-Memᴰ (slot ∷ slots) (suc j) attr = slot_pins-Memᴰ slots j attr

  -- The attribute of the quoted symbol before a third item.
  abbrev IsAtomValue : Exprs → ℕ → Text → Type 0
  IsAtomValue items i attr =
      (count items ≡ 3) × (i ≡ 2) × (nth items 1 ≡ some (quote (symbol attr)))

  value_pins-Memᴰ :
      (items : Exprs) (i : ℕ) (attr : Text)
      → Memᴰ attr (pins_at (value_pins kind rules items) i) ↔ IsAtomValue items i attr
  unfolding value_pins pins_at nth count
  value_pins-Memᴰ no_items i attr =
      (λ m. elim (rw (pins_at-no_pins i) at m) [ ], λ (n, _, _). absurd (omega (arith, n)))
  value_pins-Memᴰ (item a no_items) i attr =
      (λ m. elim (rw (pins_at-no_pins i) at m) [ ], λ (n, _, _). absurd (omega (arith, n)))
  value_pins-Memᴰ (item a (item b no_items)) i attr =
      (λ m. elim (rw (pins_at-no_pins i) at m) [ ], λ (n, _, _). absurd (omega (arith, n)))
  value_pins-Memᴰ (item a (item b (item c (item d items)))) i attr =
      (λ m. elim (rw (pins_at-no_pins i) at m) [ ], λ (n, _, _). absurd (omega (arith, n)))
  value_pins-Memᴰ (item a (item b (item c no_items))) zero attr =
      (λ m. elim m [ ], λ (_, n, _). absurd (omega (arith, n)))
  value_pins-Memᴰ (item a (item b (item c no_items))) (suc zero) attr =
      (λ m. elim m [ ], λ (_, n, _). absurd (omega (arith, n)))
  value_pins-Memᴰ (item a (item b (item c no_items))) (suc (suc zero)) attr =
      let (there, back) = to_list-Memᴰ (attr_name kind rules b) attr in
      let (quoted, name) = attr_name_iff b attr in
      (λ m. (refl, refl, ap some (quoted (there m))), λ (_, _, e). back (name (cc e)))
  value_pins-Memᴰ (item a (item b (item c no_items))) (suc (suc (suc i))) attr =
      (λ m. elim (rw (pins_at-no_pins i) at m) [ ], λ (_, n, _). absurd (omega (arith, n)))

  -- The attribute of the parameter of a rule in the place of an argument.
  abbrev IsArgument : Exprs → ℕ → Text → Type 0
  IsArgument items i attr =
      (name : Text) × (slots : List (Option Text)) × (j : ℕ) × (nth items 0 ≡ some (symbol name))
      × (rules name ≡ some slots)
      × (i ≡ suc j)
      × (nth_slot slots j ≡ some (some attr))

  slots_of-Memᴰ :
      (o : Option (List (Option Text))) (i : ℕ) (attr : Text)
      → Memᴰ attr (pins_at (slots_of kind rules o) i) ↔ (
          (slots : List (Option Text)) × (j : ℕ) × (o ≡ some slots)
          × (i ≡ suc j)
          × (nth_slot slots j ≡ some (some attr)))
  unfolding pins_at
  slots_of-Memᴰ none i attr =
      (λ m. elim (rw (pins_at-no_pins i) at m) [ ], λ (_, _, e, _, _). absurd (cc e))
  slots_of-Memᴰ (some slots) zero attr =
      (λ m. elim m [ ], λ (_, _, _, e, _). absurd (omega (arith, e)))
  slots_of-Memᴰ (some slots) (suc j) attr =
      let (there, back) = slot_pins-Memᴰ slots j attr in
      (
        λ m. (slots, j, refl, refl, there m),
        λ (slots', j', o, i, e).
            let same : slots ≡ slots' = cc o in
            let at_j : j ≡ j' = omega (arith, i) in
            back (ap (λ s. nth_slot s j) same ∙ ap (nth_slot slots') at_j ∙ e),
      )

  no_call :
      (items : Exprs) (i : ℕ) (attr : Text)
      → ((name : Text) → nth items 0 ≢ some (symbol name))
      → Memᴰ attr (pins_at [] i) ↔ IsArgument items i attr
  no_call items i attr h =
      (λ m. elim (rw (pins_at-no_pins i) at m) [ ], λ (name, _, _, e, _, _, _). absurd (h name e))

  call_pins-Memᴰ :
      (items : Exprs) (i : ℕ) (attr : Text)
      → Memᴰ attr (pins_at (call_pins kind rules items) i) ↔ IsArgument items i attr
  unfolding call_pins nth
  call_pins-Memᴰ no_items i attr = no_call no_items i attr (λ name e. absurd (cc e))
  call_pins-Memᴰ (item (list xs) args) i attr =
      no_call (item (list xs) args) i attr (λ name e. absurd (cc e))
  call_pins-Memᴰ (item (string s) args) i attr =
      no_call (item (string s) args) i attr (λ name e. absurd (cc e))
  call_pins-Memᴰ (item (quote x) args) i attr =
      no_call (item (quote x) args) i attr (λ name e. absurd (cc e))
  call_pins-Memᴰ (item (symbol name) args) i attr =
      let (there, back) = slots_of-Memᴰ (rules name) i attr in
      (
        λ m. let (slots, j, o, p, e) = there m in (name, slots, j, refl, o, p, e),
        λ (name', slots, j, same, o, p, e).
            let called : name ≡ name' = cc same in back (slots, j, ap rules called ∙ o, p, e),
      )

  -- The pins that the code finds for a place are the attributes that the item there is a value of.
  pub pins_of-IsValueOf :
      (items : Exprs) (i : ℕ) (attr : Text)
      → Memᴰ attr (pins_at (pins_of kind rules items) i) ↔ IsValueOf items i attr
  unfolding pins_of
  pins_of-IsValueOf items i attr =
      let values = value_pins kind rules items in
      let calls = call_pins kind rules items in
      let both = pins_at-both_pins values calls i in
      let (value_there, value_back) = value_pins-Memᴰ items i attr in
      let (call_there, call_back) = call_pins-Memᴰ items i attr in
      (
        λ m. elim (Memᴰ-append (pins_at values i) (rw both at m)) [
          | inl v ↦ let (n, p, e) = value_there v in atom_value n p e
          | inr c ↦
              let (name, slots, j, head, rule, place, slot) = call_there c in
              argument name slots j head rule place slot
        ],
        λ v. rw both (elim v [
          | atom_value n p e ↦ Memᴰ-append_left (pins_at calls i) (value_back (n, p, e))
          | argument name slots j head rule place slot ↦
              Memᴰ-append_right (pins_at values i)
                (call_back (name, slots, j, head, rule, place, slot))
        ]),
      )
