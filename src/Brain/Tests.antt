-- ===== src/Brain/Tests.antt =====
-- Runs of src/brain.rs on a small exom that is not persistent, and its theorems applied to them.
use ray_exomem.Prelude.{
  ◌≡◌, ◌⊎◌, refl, ◌<◌, ◌≤◌, Text, text_eq, text_mem, codes, Bool, true, false, none, some, List, [],
  ◌∷◌, Memᴰ, arith, inr, text_eq_iff, leb, ltb, not, ◌&&◌, ◌==◌, all, any, retain, find, update_all,
  ℕ, ◌≢◌,
}
use ray_exomem.Prelude.Sort.{insert, sort, keep_first, HasKey}
use ray_exomem.Prelude.Search.{all-Memᴰ}
use ray_exomem.Brain.{
  Foreign, Brain, Branch, Fact, FactArgs, MutationContext, empty_memory, u64_max, main_branch,
}
use ray_exomem.Brain.Exec.{ok, rebuild_splay}
use ray_exomem.Brain.Branches.{
  branch_exists, branch_ancestors, climb, tx_branch, lookup_tx, tx_on_branches, branch_depth_of_tx,
  position,
}
use ray_exomem.Brain.Predicate.{validate_predicate_name, has_space, has_quote}
use ray_exomem.Brain.Views.{
  fact_head, facts_on_branch, live_facts, newest_fact_rows, newest_rows, before, is_eligible,
  fact_revoked_in_view,
}
use ray_exomem.Brain.Views.Order.{newest_rows_nearest, newest_rows_complete}
use ray_exomem.Brain.Invariant.{IsWf}
use ray_exomem.Brain.Write.{
  is_session_closed, ensure_branch, new_tx, with_tx, push_tx, may_write, alloc_tx,
  session_closed_fact_id,
}
use ray_exomem.Brain.Write.Facts.{
  is_open_row, new_fact, assert_rows, assert_fact, tombstone, retract_rows, head_or_bail,
  retract_fact,
}
use ray_exomem.Brain.Write.Facts.Total.{
  IsPlain, IsSessionOpen, IsLive, assert_fact_total, retract_fact_total,
}
use ray_exomem.Brain.Write.Facts.Laws.{fact_head-assert_fact, facts_on_branch-retract_fact}
use ray_exomem.Brain.Write.BranchOps.{create_branch}
use ray_exomem.Brain.Isolation.Facts.{live_facts-assert_fact, live_facts-retract_fact}
use ray_exomem.Brain.Operations.{Operation, run, run_all}
use ray_exomem.Brain.Operations.Wf.{run_all-IsWf}
use ray_exomem.Brain.Operations.Closed.{run_closed}

abbrev Local : Foreign
Local = record {
  Confidence = ℕ;
  Value = Text;
  value_eq = text_eq;
  display = λ v. v;
  now_iso = λ _. codes "2026-01-01T00:00:00Z";
  save_table_ok = λ _. true;
  sym_save_ok = λ _. true;
}

abbrev ann : MutationContext
ann = record { user_email = some (codes "ann"); agent = none; model = none; session = none }

abbrev start : Brain Local
start = record {
  memory = empty_memory;
  data_dir = none;
  sym_path = none;
  disk = record { observations = []; facts = []; beliefs = []; transactions = []; branches = [] };
  ticks = 0;
}

abbrev city : Text → FactArgs Local
city name = record {
  fact_id = codes "city";
  predicate = codes "lives-in";
  value = name;
  confidence = 1;
  provenance = codes "chat";
  valid_from = none;
  valid_to = none;
}

abbrev pet : FactArgs Local
pet = record (city (codes "Rex")) { fact_id = codes "pet"; predicate = codes "keeps" }

abbrev closing : FactArgs Local
closing = record (city (codes "now")) {
  fact_id = session_closed_fact_id;
  predicate = session_closed_fact_id;
}

abbrev draft : Text
draft = codes "draft"

abbrev setup : List (Operation Local × MutationContext)
setup =
    (Operation.assert_fact main_branch (city (codes "Oslo")), ann)
    ∷ (Operation.create_branch main_branch draft draft, ann)
    ∷ (Operation.assert_fact main_branch pet, ann)
    ∷ []

-- Two facts on main, and a branch that inherits them.
abbrev forked : Brain Local
forked = run_all setup start

abbrev shut : Brain Local
shut = run (Operation.assert_fact main_branch closing) ann start

forked-IsWf : IsWf forked.memory
forked-IsWf = run_all-IsWf setup start refl (omega arith)

forked_room : forked.memory.next_tx < u64_max
unfolding run_all run assert_fact create_branch alloc_tx ensure_branch branch_exists any text_eq
    may_write is_session_closed push_tx with_tx rebuild_splay validate_predicate_name has_space
    has_quote assert_rows update_all new_tx new_fact text_mem is_open_row tx_branch lookup_tx
    branch_ancestors climb find
forked_room = omega arith

abbrev moved : Brain Local
moved = (assert_fact draft (city (codes "Rome")) ann forked).1

moved_ok : assert_fact draft (city (codes "Rome")) ann forked ≡ (ok 4, moved)
unfolding run_all run assert_fact create_branch alloc_tx ensure_branch branch_exists any text_eq
    may_write is_session_closed push_tx with_tx rebuild_splay validate_predicate_name has_space
    has_quote assert_rows update_all new_tx new_fact text_mem is_open_row tx_branch lookup_tx
    branch_ancestors climb find
moved_ok = refl

abbrev forgotten : Brain Local
forgotten = (retract_fact draft (codes "city") ann forked).1

forgotten_ok : retract_fact draft (codes "city") ann forked ≡ (ok 4, forgotten)
unfolding run_all run assert_fact create_branch alloc_tx ensure_branch branch_exists any text_eq
    may_write is_session_closed push_tx with_tx rebuild_splay validate_predicate_name has_space
    has_quote assert_rows update_all new_tx new_fact text_mem is_open_row tx_branch lookup_tx
    branch_ancestors climb find facts_on_branch live_facts newest_fact_rows newest_rows sort insert
    keep_first before is_eligible retain branch_depth_of_tx tx_on_branches position
    fact_revoked_in_view retract_fact retract_rows head_or_bail tombstone
forgotten_ok = refl

draft_unseen : text_mem draft (branch_ancestors forked.memory main_branch) ≡ false
unfolding run_all run assert_fact create_branch alloc_tx ensure_branch branch_exists any text_eq
    may_write is_session_closed push_tx with_tx rebuild_splay validate_predicate_name has_space
    has_quote assert_rows update_all new_tx new_fact text_mem is_open_row tx_branch lookup_tx
    branch_ancestors climb find
draft_unseen = refl

fact_head-assert_fact_example :
    (time : Text) × (fact_head moved.memory draft (codes "city")
      ≡ some (new_fact (city (codes "Rome")) 4 time, true))
    × Memᴰ (new_fact (city (codes "Rome")) 4 time) (facts_on_branch moved.memory draft)
fact_head-assert_fact_example =
    fact_head-assert_fact draft ann forked moved 4 forked-IsWf forked_room (city (codes "Rome"))
      moved_ok

abbrev rex : Fact Local
rex = new_fact pet 3 (codes "2026-01-01T00:00:00Z")

rex_kept : Memᴰ rex (facts_on_branch forgotten.memory draft)
unfolding run_all run assert_fact create_branch alloc_tx ensure_branch branch_exists any text_eq
    may_write is_session_closed push_tx with_tx rebuild_splay validate_predicate_name has_space
    has_quote assert_rows update_all new_tx new_fact text_mem is_open_row tx_branch lookup_tx
    branch_ancestors climb find facts_on_branch live_facts newest_fact_rows newest_rows sort insert
    keep_first before is_eligible retain branch_depth_of_tx tx_on_branches position
    fact_revoked_in_view retract_fact retract_rows head_or_bail tombstone
rex_kept = Memᴰ.head refl

facts_on_branch-retract_fact_example : rex.fact_id ≢ codes "city"
facts_on_branch-retract_fact_example =
    facts_on_branch-retract_fact draft ann forked forgotten 4 forked-IsWf forked_room (codes "city")
      forgotten_ok rex rex_kept

live_facts-assert_fact_example :
    live_facts moved.memory main_branch u64_max ≡ live_facts forked.memory main_branch u64_max
live_facts-assert_fact_example =
    live_facts-assert_fact draft ann forked moved 4 forked-IsWf forked_room main_branch u64_max
      draft_unseen (city (codes "Rome")) moved_ok

live_facts-retract_fact_example :
    live_facts forgotten.memory main_branch u64_max ≡ live_facts forked.memory main_branch u64_max
live_facts-retract_fact_example =
    live_facts-retract_fact draft ann forked forgotten 4 forked-IsWf forked_room main_branch u64_max
      draft_unseen (codes "city") forgotten_ok

run_all-IsWf_example : IsWf forked.memory
run_all-IsWf_example = run_all-IsWf setup start refl (omega arith)

shut_closed : is_session_closed shut.memory ≡ true
unfolding run_all run assert_fact create_branch alloc_tx ensure_branch branch_exists any text_eq
    may_write is_session_closed push_tx with_tx rebuild_splay validate_predicate_name has_space
    has_quote assert_rows update_all new_tx new_fact text_mem is_open_row tx_branch lookup_tx
    branch_ancestors climb find
shut_closed = refl

oslo_unmarked : text_eq (codes "city") session_closed_fact_id ≡ false
unfolding text_eq
oslo_unmarked = refl

run_closed_example : run (Operation.assert_fact main_branch (city (codes "Oslo"))) ann shut ≡ shut
run_closed_example =
    run_closed (Operation.assert_fact main_branch (city (codes "Oslo"))) ann shut (codes "city")
      shut_closed refl oslo_unmarked

abbrev noon : Text
noon = codes "2026-01-01T00:00:00Z"

abbrev oslo : Fact Local
oslo = new_fact (city (codes "Oslo")) 1 noon

abbrev rome : Fact Local
rome = new_fact (city (codes "Rome")) 4 noon

abbrev chain : List Text
chain = draft ∷ main_branch ∷ []

abbrev any_row : Fact Local → Bool
any_row f = true

abbrev newest : List (Fact Local)
newest =
    newest_rows moved.memory (λ (f : Fact Local). f.fact_id) (λ (f : Fact Local). f.created_by_tx)
      chain moved.memory.facts u64_max any_row

rome_newest : Memᴰ rome newest
unfolding run_all run assert_fact create_branch alloc_tx ensure_branch branch_exists any text_eq
    may_write is_session_closed push_tx with_tx rebuild_splay validate_predicate_name has_space
    has_quote assert_rows update_all new_tx new_fact text_mem is_open_row tx_branch lookup_tx
    branch_ancestors climb find facts_on_branch live_facts newest_fact_rows newest_rows sort insert
    keep_first before is_eligible retain branch_depth_of_tx tx_on_branches position
    fact_revoked_in_view retract_fact retract_rows head_or_bail tombstone
rome_newest = Memᴰ.head refl

oslo_stored : Memᴰ oslo moved.memory.facts
unfolding run_all run assert_fact create_branch alloc_tx ensure_branch branch_exists any text_eq
    may_write is_session_closed push_tx with_tx rebuild_splay validate_predicate_name has_space
    has_quote assert_rows update_all new_tx new_fact text_mem is_open_row tx_branch lookup_tx
    branch_ancestors climb find facts_on_branch live_facts newest_fact_rows newest_rows sort insert
    keep_first before is_eligible retain branch_depth_of_tx tx_on_branches position
    fact_revoked_in_view retract_fact retract_rows head_or_bail tombstone
oslo_stored = Memᴰ.head refl

oslo_eligible :
    is_eligible moved.memory
      (λ (f : Fact Local). f.fact_id)
      (λ (f : Fact Local). f.created_by_tx)
      chain
      u64_max
      any_row
      oslo
    ≡ true
unfolding run_all run assert_fact create_branch alloc_tx ensure_branch branch_exists any text_eq
    may_write is_session_closed push_tx with_tx rebuild_splay validate_predicate_name has_space
    has_quote assert_rows update_all new_tx new_fact text_mem is_open_row tx_branch lookup_tx
    branch_ancestors climb find facts_on_branch live_facts newest_fact_rows newest_rows sort insert
    keep_first before is_eligible retain branch_depth_of_tx tx_on_branches position
    fact_revoked_in_view retract_fact retract_rows head_or_bail tombstone
oslo_eligible = refl

same_city : oslo.fact_id ≡ rome.fact_id
unfolding new_fact
same_city = refl

newest_rows_nearest_example :
    (branch_depth_of_tx moved.memory rome.created_by_tx chain
      < branch_depth_of_tx moved.memory oslo.created_by_tx chain)
    ⊎ ((branch_depth_of_tx moved.memory rome.created_by_tx chain
          ≡ branch_depth_of_tx moved.memory oslo.created_by_tx chain)
        × (oslo.created_by_tx ≤ rome.created_by_tx))
newest_rows_nearest_example =
    newest_rows_nearest moved.memory (λ (f : Fact Local). f.fact_id)
      (λ (f : Fact Local). f.created_by_tx) chain moved.memory.facts u64_max any_row rome_newest
      oslo_stored oslo_eligible same_city

newest_rows_complete_example : HasKey (λ (f : Fact Local). f.fact_id) oslo.fact_id newest
newest_rows_complete_example =
    newest_rows_complete moved.memory (λ (f : Fact Local). f.fact_id)
      (λ (f : Fact Local). f.created_by_tx) chain moved.memory.facts u64_max any_row oslo_stored
      oslo_eligible

abbrev is_plain : ℕ → Bool
is_plain c = leb 33 c && (ltb c 127 && (not (c == 39) && not (c == 34)))

city-IsPlain : (c : ℕ) → Memᴰ c (city (codes "Rome")).predicate → IsPlain c
unfolding all
city-IsPlain c m =
    let plain = all-Memᴰ is_plain (city (codes "Rome")).predicate refl c m in
    (ground arith, ground arith, λ e. ground arith, λ e. ground arith)

unmarked :
    all (λ (f : Fact Local). not (text_eq f.fact_id session_closed_fact_id)) forked.memory.facts
    ≡ true
unfolding all run_all run assert_fact create_branch alloc_tx ensure_branch branch_exists any text_eq
    may_write is_session_closed push_tx with_tx rebuild_splay validate_predicate_name has_space
    has_quote assert_rows update_all new_tx new_fact text_mem is_open_row tx_branch lookup_tx
    branch_ancestors climb find facts_on_branch live_facts newest_fact_rows newest_rows sort insert
    keep_first before is_eligible retain branch_depth_of_tx tx_on_branches position
    fact_revoked_in_view retract_fact retract_rows head_or_bail tombstone
unmarked = refl

forked_open : IsSessionOpen forked.memory
forked_open f k same =
    let other =
      all-Memᴰ (λ (f : Fact Local). not (text_eq f.fact_id session_closed_fact_id))
        forked.memory.facts unmarked f k in
    let marked = (text_eq_iff f.fact_id session_closed_fact_id).1 same in absurd (ground arith)

abbrev draft_row : Branch
draft_row = record {
  branch_id = draft;
  name = draft;
  parent_branch_id = some main_branch;
  created_tx_id = 2;
  archived = false;
  claimed_by_user_email = none;
  claimed_by_agent = none;
  claimed_by_model = none;
}

draft_stored : Memᴰ draft_row forked.memory.branches
unfolding run_all run assert_fact create_branch alloc_tx ensure_branch branch_exists any text_eq
    may_write is_session_closed push_tx with_tx rebuild_splay validate_predicate_name has_space
    has_quote assert_rows update_all new_tx new_fact text_mem is_open_row tx_branch lookup_tx
    branch_ancestors climb find facts_on_branch live_facts newest_fact_rows newest_rows sort insert
    keep_first before is_eligible retain branch_depth_of_tx tx_on_branches position
    fact_revoked_in_view retract_fact retract_rows head_or_bail tombstone
draft_stored = Memᴰ.tail (Memᴰ.head refl)

draft-IsLive : IsLive draft forked.memory
draft-IsLive = (draft_row, draft_stored, refl, refl)

oslo_seen : Memᴰ oslo (facts_on_branch forked.memory draft)
unfolding run_all run assert_fact create_branch alloc_tx ensure_branch branch_exists any text_eq
    may_write is_session_closed push_tx with_tx rebuild_splay validate_predicate_name has_space
    has_quote assert_rows update_all new_tx new_fact text_mem is_open_row tx_branch lookup_tx
    branch_ancestors climb find facts_on_branch live_facts newest_fact_rows newest_rows sort insert
    keep_first before is_eligible retain branch_depth_of_tx tx_on_branches position
    fact_revoked_in_view retract_fact retract_rows head_or_bail tombstone
oslo_seen = Memᴰ.tail (Memᴰ.head refl)

oslo_city : oslo.fact_id ≡ codes "city"
unfolding new_fact
oslo_city = refl

assert_fact_total_example :
    (b' : Brain Local) × (assert_fact draft (city (codes "Rome")) ann forked
      ≡ (ok forked.memory.next_tx, b'))
    × ((time : Text) × (fact_head b'.memory draft (codes "city")
          ≡ some (new_fact (city (codes "Rome")) forked.memory.next_tx time, true))
        × Memᴰ
            (new_fact (city (codes "Rome")) forked.memory.next_tx time)
            (facts_on_branch b'.memory draft))
assert_fact_total_example =
    assert_fact_total (λ n. refl) (λ n. refl) draft ann forked forked-IsWf forked_room draft-IsLive
      (city (codes "Rome")) (λ e. absurd (cc e)) city-IsPlain (inr forked_open)

retract_fact_total_example :
    (b' : Brain Local) × (retract_fact draft (codes "city") ann forked
      ≡ (ok forked.memory.next_tx, b'))
    × ((f : Fact Local) → Memᴰ f (facts_on_branch b'.memory draft) → f.fact_id ≢ codes "city")
retract_fact_total_example =
    retract_fact_total (λ n. refl) (λ n. refl) draft ann forked forked-IsWf forked_room draft-IsLive
      (codes "city") oslo oslo_seen oslo_city (inr forked_open)
