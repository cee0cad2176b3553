-- ===== src/Lib.antt =====
-- A verification library for clx-preprocessing, the preprocessing plugin for coding agents.
--
-- The program's parts and their files here (paths from the repository's root):
-- * src/cluxion_runtime/resources/py_queue.py, the table `work_queue`: `SqlQueue` (`_enqueue` is
--   `enqueue`, its loop over the attempts `attempts`, the block under `BEGIN IMMEDIATE`
--   `transaction`; `_dequeue` is `dequeue`, `_peek` `peek`, `_status` the two counts), and `Owner`
--   for the queue owner in a row's metadata. `_open_db` is `open_db`, with which
--   `enqueue` and `dequeue` begin; the outcome of the UPDATE that resequences a table of old is the
--   parameter `resequence`. `peek` and the counts are given the opened table.
-- * The same file, the dispatch bundles: `Dispatch` (the file, its steps, the claim), and below it
--   `Next` (`_next_step`), `Record` (`_record_step`), `Persist` (`_persist`), `Brief` (`_brief`).
-- * src/cluxion_runtime/core/types.py, the contracts of the work items: `Types`.
-- * src/cluxion_runtime/core/work_queue.py, the queue in memory: `WorkQueue`
--   (`AgentWorkQueue.enqueue` is `enqueue`, `dequeue` is `dequeue`, `_worst_index` is in `worst`),
--   with `heapq` as the interface `Heapq`, which `WorkQueue.Sorted` implements.
-- * src/cluxion_runtime/core/ledger_codec.py, the work items as JSON: `Ledger.Codec`.
-- * src/cluxion_runtime/core/ledger.py, the durable ledger: `Ledger` (Python's conversions),
--   `Ledger.Lines` (the text of the file), `Ledger.Event` (`_event`, `_entry_from_event`,
--   `_owner_from_metadata`), `Ledger.State` (`_latest_unlocked`, `_append_unlocked` and the
--   writers, under their names).
-- * src/cluxion_runtime/core/preprocess.py, the harness: `Preprocess.Signals`, `Preprocess.Policy`
--   and `Preprocess.Answer` (the functions under their names; `work_verdict` is the choice of the
--   mode in `preprocess_work`), and for the segments `Preprocess`
--   (`_collect_segment_ranges` is `collect`, `_find_boundary` is `find_boundary`). The fuel of
--   `collect` bounds the turns of its loop and the depth of its calls; a number of turns that is
--   enough for every text is part of its theorem.
-- * src/cluxion_runtime/core/intent.py, the intent of an item: `Intent`.
-- * src/cluxion_runtime/core/dispatch_store.py, the same bundles in-process: `DispatchStore`
--   (`load_dispatch_bundle`, the claim), `DispatchStore.Next`, `DispatchStore.Record`,
--   `DispatchStore.Brief`, `DispatchStore.Persist` and, for the bundle of a plan,
--   `DispatchStore.Plan`.
-- * src/cluxion_runtime/core/loop_auto.py, the loop that drains the bundles: `LoopAuto` (its data,
--   `_finalize` and `_fail`), `LoopAuto.Markers` (the markers of completion), `LoopAuto.Segment`
--   (the prompts and the attempts at one segment), `LoopAuto.Drain` (`run_loop_auto`: `turn` is one
--   pass of its loop, `drain` the loop on the iterations that are left, `on_briefing` what follows).
-- * src/cluxion_runtime/core/context_compress.py, the deterministic part of the compression:
--   `ContextCompress` (the messages), `ContextCompress.Pinned` (`_pinned_indices`) and
--   `ContextCompress.Stages` (`_stage_truncate`, `_stage_dedup`, `_stage_digest`; `sweep` is the
--   loop of the first and the last, `stage_one` the lines of `compress` that call the three), and
--   `ContextCompress.Recent` (`_stage_truncate_pinned_recent`, with fuel for its loop, of which
--   each turn but the last shortens a content).
-- * src/cluxion_runtime/core/hybrid_forget.py, the third stage of the compression: `HybridForget`
--   (`apply_hybrid_forget`; `drop_until` is its loop).
--
-- How the code is read:
-- * An operation on a file or a database that holds a lock or a transaction is one function from
--   the state to the answer and the new state; a run of several processes is a sequence of such
--   steps, since the lock lets in one at a time.
-- * An exception is a value of the answer's type, and the state comes back beside it.
-- * A JSON value is a `Json`; a dictionary is its list of fields, read by `get?` and written by
--   `put`. A text that holds JSON is what `json.loads` makes of it, `none` or `garbage` where it
--   raises. The order of the keys, which `sort_keys` changes in the text, is left out.
-- * Time is a number of microseconds and a JSON float its number of millionths, so that the
--   rounding of floats, their infinities and NaN are left out.
-- * What belongs to Python and is not written in the repository (`str.isalnum`, `str()` of a value
--   that is no text) is a parameter, `Python`.
-- * The clock, the runner of the segments and the preflight checks of the loop are a parameter,
--   `World`; no other process calls the store between the steps of the loop.
--
-- Loops are recursion on a list, on the attempts that are left, or on fuel.
--
-- Not modelled: the modes of files and directories, the lock file, the atomic replacement of a
-- file and other I/O; the command lines; the adapters of the agents; the browser bridge; the preflight
-- checks, the process and the environment switches of the loop; the regular expressions of the
-- forgetting; the Rust
-- engine that has the same contract as the Python queue, and the branch of
-- `persist_dispatch_bundle` that asks it first.
pub mod Chars
pub mod ContextCompress
pub mod Dispatch
pub mod DispatchStore
pub mod HybridForget
pub mod Intent
pub mod Json
pub mod Ledger
pub mod LoopAuto
pub mod Owner
pub mod Prelude
pub mod Preprocess
pub mod Result
pub mod SqlQueue
pub mod Types
pub mod WorkQueue
