-- ===== src/Brain/Write/Facts/Total.antt =====
-- `assert_fact` and `retract_fact` of src/brain.rs from the outset: what they need, in terms of the
-- tables, and what is there afterwards.
use ray_exomem.Prelude.{
  ℕ, ◌≡◌, ◌≢◌, refl, ap, sym, ◌⊎◌, inl, inr, ◌≤◌, ◌<◌, Text, text_eq, text_eq_iff, text_mem, true,
  false, not, ◌&&◌, none, some, Option, [], ◌∷◌, ◌==◌, Memᴰ, arith, is_none, ◌||◌, Bool-cases,
}
use ray_exomem.Prelude.Search.{any-Memᴰ, any_none, find_there}
use ray_exomem.Brain.{Foreign, Memory, Brain, Branch, Fact, FactArgs, MutationContext, u64_max}
use ray_exomem.Brain.Exec.{ok}
use ray_exomem.Brain.Branches.{branch_exists, has_id}
use ray_exomem.Brain.Predicate.{validate_predicate_name, has_space, has_quote}
use ray_exomem.Brain.Views.{fact_head, facts_on_branch}
use ray_exomem.Brain.Invariant.{IsWf}
use ray_exomem.Brain.Write.{is_session_closed, may_write, session_closed_fact_id}
use ray_exomem.Brain.Write.Facts.{new_fact, assert_fact, retract_fact}
use ray_exomem.Brain.Write.Facts.Laws.{fact_head-assert_fact, facts_on_branch-retract_fact}
use ray_exomem.Brain.Write.Facts.Success.{assert_fact-succeeds, retract_fact-succeeds}

-- A byte of a name that needs no escape: printable ASCII, neither a blank nor a quote.
abbrev pub IsPlain : ℕ → Type 0
IsPlain c = (33 ≤ c) × (c < 127) × (c ≢ 39) × (c ≢ 34)

has_space-IsPlain : (name : Text) → ((c : ℕ) → Memᴰ c name → IsPlain c) → has_space name ≡ false
unfolding has_space
has_space-IsPlain [] h = refl
has_space-IsPlain (a ∷ []) h = let (lo, hi, _, _) = h a (Memᴰ.head refl) in ground arith
has_space-IsPlain (a ∷ b ∷ []) h =
    let (lo, hi, _, _) = h a (Memᴰ.head refl) in
    let ih = has_space-IsPlain (b ∷ []) (λ c m. h c (Memᴰ.tail m)) in ground arith
has_space-IsPlain (a ∷ b ∷ c ∷ rest) h =
    let (lo, hi, _, _) = h a (Memᴰ.head refl) in
    let ih = has_space-IsPlain (b ∷ c ∷ rest) (λ x m. h x (Memᴰ.tail m)) in ground arith

validate_predicate_name-IsPlain :
    (name : Text)
    → name ≢ []
    → ((c : ℕ) → Memᴰ c name → IsPlain c)
    → validate_predicate_name name ≡ true
unfolding validate_predicate_name has_quote
validate_predicate_name-IsPlain [] n h = absurd (n refl)
validate_predicate_name-IsPlain (c ∷ name) n h = rw (
  has_space-IsPlain (c ∷ name) h,
  any_none (λ x. x == 39 || x == 34) (c ∷ name)
      (λ x m. let (_, _, single, double) = h x m in ground arith),
)

is_none_not : {A : Type 0} (x : Option A) → x ≢ none → is_none x ≡ false
is_none_not none n = absurd (n refl)
is_none_not (some x) n = refl

module _ {F : Foreign} where
  -- Every row of the session's marker was retracted or replaced.
  abbrev pub IsSessionOpen : Memory F → Type 0
  IsSessionOpen m =
      (f : Fact F)
      → Memᴰ f m.facts
      → f.fact_id ≡ session_closed_fact_id
      → (f.revoked_by_tx ≢ none) ⊎ (f.superseded_by_tx ≢ none)

  -- A row of the table of branches has the id and is not archived.
  abbrev pub IsLive : Text → Memory F → Type 0
  IsLive br m = (row : Branch) × Memᴰ row m.branches × (row.branch_id ≡ br) × (row.archived ≡ false)

  branch_exists-IsLive : (br : Text) (m : Memory F) → IsLive br m → branch_exists m br ≡ true
  unfolding branch_exists
  branch_exists-IsLive br m (row, k, same, live) =
      any-Memᴰ (λ b. has_id br b && not b.archived) m.branches k
        (let here = (text_eq_iff row.branch_id br).1 same in ground arith)

  may_write-IsSessionOpen :
      (id : Text) (m : Memory F)
      → (id ≡ session_closed_fact_id) ⊎ IsSessionOpen m
      → may_write (id ∷ []) m ≡ true
  unfolding may_write is_session_closed text_mem
  may_write-IsSessionOpen id m (inl marker) =
      let here = (text_eq_iff session_closed_fact_id id).1 (sym marker) in ground arith
  may_write-IsSessionOpen id m (inr open_session) =
      let closed =
        any_none
          (λ (f : Fact F).
            text_eq f.fact_id session_closed_fact_id
            && (is_none f.revoked_by_tx && is_none f.superseded_by_tx))
          m.facts
          (λ f k. elim (Bool-cases (text_eq f.fact_id session_closed_fact_id)) [
            | inr e ↦ ground arith
            | inl e ↦ elim (open_session f k ((text_eq_iff _ _).0 e)) [
              | inl r ↦ let gone = is_none_not f.revoked_by_tx r in ground arith
              | inr r ↦ let gone = is_none_not f.superseded_by_tx r in ground arith
            ]
          ]) in
      ground arith

module _ {F : Foreign} (saves : (n : ℕ) → F.save_table_ok n ≡ true)
    (sym_saves : (n : ℕ) → F.sym_save_ok n ≡ true) (br : Text) (ctx : MutationContext) (b : Brain F)
    (wf : IsWf b.memory) (room : b.memory.next_tx < u64_max) (there : IsLive br b.memory) where
  -- `assert_fact` succeeds on a branch that is there and not archived, for a predicate of plain
  -- printable characters, while the session is open or the fact is its marker; the new row is then
  -- the head of the fact on the branch, not retracted, and one of the facts of the branch. No save
  -- fails, and the memory is well formed with an id left to allocate.
  pub assert_fact_total :
      (a : FactArgs F)
      → a.predicate ≢ []
      → ((c : ℕ) → Memᴰ c a.predicate → IsPlain c)
      → (a.fact_id ≡ session_closed_fact_id) ⊎ IsSessionOpen b.memory
      → (b' : Brain F) × (assert_fact br a ctx b ≡ (ok b.memory.next_tx, b'))
        × ((time : Text) × (fact_head b'.memory br a.fact_id
              ≡ some (new_fact a b.memory.next_tx time, true))
            × Memᴰ (new_fact a b.memory.next_tx time) (facts_on_branch b'.memory br))
  assert_fact_total a named plain open_session =
      let b' = (assert_fact br a ctx b).1 in
      let run : assert_fact br a ctx b ≡ (ok b.memory.next_tx, b') =
        ap (λ r. (r, b'))
          (assert_fact-succeeds saves sym_saves br a ctx b
            (validate_predicate_name-IsPlain a.predicate named plain)
            (branch_exists-IsLive br b.memory there)
            (may_write-IsSessionOpen a.fact_id b.memory open_session)) in
      (b', run, fact_head-assert_fact br ctx b b' b.memory.next_tx wf room a run)

  -- `retract_fact` succeeds for a fact that is seen on a branch that is there and not archived, while
  -- the session is open or the fact is its marker; no row of the fact is then seen on the branch. No
  -- save fails, and the memory is well formed with an id left to allocate.
  pub retract_fact_total :
      (id : Text) (seen : Fact F)
      → Memᴰ seen (facts_on_branch b.memory br)
      → seen.fact_id ≡ id
      → (id ≡ session_closed_fact_id) ⊎ IsSessionOpen b.memory
      → (b' : Brain F) × (retract_fact br id ctx b ≡ (ok b.memory.next_tx, b'))
        × ((f : Fact F) → Memᴰ f (facts_on_branch b'.memory br) → f.fact_id ≢ id)
  retract_fact_total id seen k same open_session =
      let b' = (retract_fact br id ctx b).1 in
      let (head, found) =
        find_there (λ (f : Fact F). text_eq f.fact_id id) (facts_on_branch b.memory br) k
          ((text_eq_iff seen.fact_id id).1 same) in
      let run : retract_fact br id ctx b ≡ (ok b.memory.next_tx, b') =
        ap (λ r. (r, b'))
          (retract_fact-succeeds saves sym_saves br id head ctx b found
            (branch_exists-IsLive br b.memory there)
            (may_write-IsSessionOpen id b.memory open_session)) in
      (b', run, facts_on_branch-retract_fact br ctx b b' b.memory.next_tx wf room id run)
