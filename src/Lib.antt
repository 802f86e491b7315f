-- ===== src/Lib.antt =====
-- ray-exomem: a store of facts, observations and beliefs for agents, kept as bitemporal rows on
-- branches, in exoms that lie in a tree of folders with owners and shares.
--
-- The program. src/brain.rs is the core: a `Brain` holds the rows of one exom in memory, saves
-- each table it touches, and answers views of a branch, now or as of a transaction. Handlers first
-- ask src/auth/access.rs whether the user may, then `precheck_write` of src/brain.rs whether the
-- branch is theirs, then call the brain. src/path.rs spells the paths of the tree, src/exom.rs the
-- metadata of an exom, src/auth/store.rs the shares, src/tree.rs and src/scaffold.rs the folders
-- and exoms on disk, src/storage.rs the directories of tables. Programs of Rayfall are read and
-- lowered to canonical forms, each about one exom, by src/rayfall_ast.rs; the access check is over
-- those forms.
--
-- Which file models which part. Brain and below it: src/brain.rs. Rows, memory, disk (Brain);
-- methods that fail and save (Exec); branches and their ancestors (Branches); the views (Views,
-- with the order of rows in Views/Order and the head of a branch in Views/Heads); predicate names
-- (Predicate); the operations that write (Write: alloc_tx; Write/Facts, Write/Beliefs,
-- Write/BranchOps; Write/Whole: opening, replacing, resetting); merge_branch (Merge). Proofs: what
-- a transaction leaves behind (Write/Alloc), the outcome of operations on facts
-- (Write/Facts/Success, Outcome, Reads, Laws, Total), the invariant (Invariant, Operations/Wf),
-- closed sessions (Operations/Closed), one branch seen from another (Isolation).
--
-- Path: src/path.rs. Auth: src/auth/mod.rs; Auth/Access: src/auth/access.rs; Auth/Shares: the
-- shares of src/auth/store.rs. Session: src/exom.rs, `classify` of src/tree.rs, and the free
-- functions of src/brain.rs that gate writes and start sessions.
--
-- Rayfall: src/rayfall_ast.rs; its parser (Rayfall/Parser, with its tokens, the round trip and the
-- fuel below it), canonical forms (Rayfall/Forms), lowering (Rayfall/Lower) and the rewriting of
-- queries (Rayfall/Rewrite, with the places that pin a literal in Rewrite/Pins and the rewriting
-- item by item in Rewrite/Exact).
--
-- Storage/Swap: `save_table` and `recover_splay_dirs` of src/storage.rs, with Recovery below it.
-- Tree: the tree of src/tree.rs; Tree/Nodes what stands at a path of it; Tree/Scaffold:
-- src/scaffold.rs but for deletion, which is Tree/Remove; Tree/Walk: the listings of src/tree.rs,
-- with the shared view in Walk/Shared and Walk/Enough; Tree/Fork: the target of a fork
-- (src/exom.rs); Tree/Rename: `rename_last_segment`. Clock: the calendar of src/exom.rs, its loops
-- in Clock/Calendar and the closed form in Clock/Gregorian. Prelude: shared names, lists, texts,
-- sorting.
--
-- How state and operations correspond. A `&mut self` method that may fail is a function from the
-- state to a result and the state after it, so what was written before an error stays written. A
-- `&str` is its UTF-8 bytes. A `HashMap` is an association list whose first pair wins. Transaction
-- ids are `u64`: the sum that allocates them wraps at 2 ^ 64, and the invariant asks for room
-- below the greatest one, which a sequence of fewer calls than `u64::MAX` has. A year is an `i32`:
-- where the next one would leave its range there is no result, which takes more than 2 ^ 55
-- seconds.
--
-- A directory of the tree is its entries in the order of their names, in which the code lists
-- them; exom.json is a file among them. A table's directory is `dir`, `dir.new` and `dir.old`, and
-- each call on them works, fails or dies with the process, where the calls that touch many files
-- leave anything.
--
-- What is outside and taken as a parameter: confidences (`f64`, stored and not compared here),
-- values of facts with their equality and text, the clock, the outcome of each save and load
-- (splay tables are those of the rayforce library; `open_exom` is given what reading each of them
-- came to, an error of decoding included), the database behind `AuthDb`, and whether a line
-- reaches the log.
--
-- Fuel: `branch_ancestors` breaks off after 257 rounds in the source, and so does `climb`. The
-- parser of Rayfall has four units for each byte and two more, its loop over forms two for each
-- and two more; a shared view has one for each segment of the longest shared path and one more.
-- That these are enough is proved (Rayfall/Parser/Fuel, Tree/Walk/Enough). The loop over the years
-- has a unit for each day, the loop over the targets of a fork one for each round it can take;
-- their results are proved outright. No other definition has fuel.
--
-- Not modelled: the HTTP and MCP servers and the command line, which columns of a query hold ids
-- (src/rayfall_ast.rs), src/rayfall_parser.rs, the rows of tables, the listing of the root of the
-- tree, users and API keys of the auth store, the databases, the web interface, the `now_iso` of
-- src/brain.rs.
pub mod Prelude
pub mod Brain
pub mod Path
pub mod Auth
pub mod Session
pub mod Rayfall
pub mod Storage
pub mod Tree
pub mod Clock
