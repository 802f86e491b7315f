-- ===== src/Brain.antt =====
-- src/brain.rs: the rows of the brain, its state in memory and on disk, and what it takes from
-- outside. Operations, views and proofs are in the modules below.
pub mod Exec
pub mod Branches
pub mod Views
pub mod Predicate
pub mod Write
pub mod Merge
pub mod Invariant
pub mod Operations
pub mod Isolation
mod Tests
use ray_exomem.Prelude.{ℕ, ◌^◌, ◌-◌, ◌+◌, ◌%◌, Text, codes, Bool, Option, none, List, [], ◌∷◌}

-- `u64::MAX`, also `usize::MAX`, and the sum on `u64`.
abbrev pub u64_max : ℕ
u64_max = 2 ^ 64 - 1

abbrev pub add_u64 : ℕ → ℕ → ℕ
add_u64 a b = (a + b) % 2 ^ 64

abbrev pub TxId : Type 0
TxId = ℕ

abbrev pub EntityId : Type 0
EntityId = Text

abbrev pub main_branch : Text
main_branch = codes "main"

-- What the code takes from elsewhere: the type of confidences (`f64`, stored and never compared
-- here), `FactValue` of the ray-datom crate with its `==` and its `Display`, the reading of the
-- clock and the outcomes of `save_table` and `sym_save`, each at the n-th call of the environment.
pub record Foreign : Type 1 where
  pub Confidence : Type 0
  pub Value : Type 0
  pub value_eq : Value → Value → Bool
  pub display : Value → Text
  pub now_iso : ℕ → Text
  pub save_table_ok : ℕ → Bool
  pub sym_save_ok : ℕ → Bool

pub record Observation (F : Foreign) : Type 0 where
  pub obs_id : EntityId
  pub source_type : Text
  pub source_ref : Text
  pub content : Text
  pub created_at : Text
  pub confidence : F.Confidence
  pub tx_id : TxId
  pub tags : List Text
  pub valid_from : Text
  pub valid_to : Option Text

pub record Fact (F : Foreign) : Type 0 where
  pub fact_id : EntityId
  pub predicate : Text
  pub value : F.Value
  pub created_at : Text
  pub created_by_tx : TxId
  pub superseded_by_tx : Option TxId
  pub revoked_by_tx : Option TxId
  pub confidence : F.Confidence
  pub provenance : Text
  pub valid_from : Text
  pub valid_to : Option Text

pub data BeliefStatus : Type 0 where
  active superseded revoked : BeliefStatus

pub record Belief (F : Foreign) : Type 0 where
  pub belief_id : EntityId
  pub claim_text : Text
  pub status : BeliefStatus
  pub confidence : F.Confidence
  pub supported_by : List EntityId
  pub created_by_tx : TxId
  pub valid_from : Text
  pub valid_to : Option Text
  pub rationale : Text

pub data TxAction : Type 0 where
  assert_observation assert_fact retract_fact revise_belief revoke_belief : TxAction
  create_branch merge : TxAction

pub record Tx : Type 0 where
  pub tx_id : TxId
  pub tx_time : Text
  pub user_email : Option Text
  pub agent : Option Text
  pub model : Option Text
  pub action : TxAction
  pub refs : List EntityId
  pub note : Text
  pub parent_tx_id : Option TxId
  pub branch_id : Text
  pub session : Option Text

pub record Branch : Type 0 where
  pub branch_id : Text
  pub name : Text
  pub parent_branch_id : Option Text
  pub created_tx_id : TxId
  pub archived : Bool
  pub claimed_by_user_email : Option Text
  pub claimed_by_agent : Option Text
  pub claimed_by_model : Option Text

-- `MutationContext` of src/context.rs.
pub record MutationContext : Type 0 where
  pub user_email : Option Text
  pub agent : Option Text
  pub model : Option Text
  pub session : Option Text

pub data DirtyTable : Type 0 where
  tx fact observation belief branch : DirtyTable

-- The five tables, as the splay directories of an exom hold them.
pub record Tables (F : Foreign) : Type 0 where
  pub observations : List (Observation F)
  pub facts : List (Fact F)
  pub beliefs : List (Belief F)
  pub transactions : List Tx
  pub branches : List Branch

-- The part of `Brain` that the views read. `tx_branch_index` is a map as an association list.
pub record Memory (F : Foreign) : Type 0 where
  pub observations : List (Observation F)
  pub facts : List (Fact F)
  pub beliefs : List (Belief F)
  pub transactions : List Tx
  pub branches : List Branch
  pub next_tx : TxId
  pub tx_branch_index : List (TxId × Text)

-- `disk` is what the splay tables under `data_dir` hold, and `ticks` counts the calls of the
-- environment.
pub record Brain (F : Foreign) : Type 0 where
  pub memory : Memory F
  pub open memory use *
  pub data_dir : Option Text
  pub sym_path : Option Text
  pub disk : Tables F
  pub ticks : ℕ

abbrev pub main_row : Branch
main_row = record {
  branch_id = main_branch;
  name = main_branch;
  parent_branch_id = none;
  created_tx_id = 0;
  archived = Bool.false;
  claimed_by_user_email = none;
  claimed_by_agent = none;
  claimed_by_model = none;
}

abbrev pub empty_memory : {F : Foreign} → Memory F
empty_memory = record {
  observations = [];
  facts = [];
  beliefs = [];
  transactions = [];
  branches = main_row ∷ [];
  next_tx = 1;
  tx_branch_index = [];
}

-- The arguments of `assert_fact` that become the row.
pub record FactArgs (F : Foreign) : Type 0 where
  pub fact_id : EntityId
  pub predicate : Text
  pub value : F.Value
  pub confidence : F.Confidence
  pub provenance : Text
  pub valid_from : Option Text
  pub valid_to : Option Text

-- `anyhow` errors and `WriteError`, a constructor for each message.
pub data Error : Type 0 where
  unknown_branch : Text → Error
  branch_already_exists : Text → Error
  cannot_archive_main : Error
  session_closed : Error
  no_active_fact : Text → Error
  no_active_belief : Text → Error
  invalid_predicate : Error
  source_branch_not_found : Text → Error
  target_branch_not_found : Text → Error
  branch_missing : Text → Error
  save_failed : Error
