-- ===== src/Lib.antt =====
-- A model of gitreins, the git-native quality harness, and the theorems that its gate, its task
-- store, its job store, its caps, its evidence bounds, its resolution gate, its merge, its data
-- protection, its pipeline and its QA ledger rest on.
-- Paths are from the repository's root.
--
-- Gate models engine/gate.py, the one authority for what a stored verdict means. `Gate.Value` is
-- the dynamic value (dict, list, attribute object, scalar) that `_field` reads; `Gate.PassClass` is
-- `pass_class`, `Gate.Waiver` is `waiver_satisfied`, `Gate.Coverage` is `check_coverage` and
-- `verdict_is_passing`. Unicode's tables, `str` of a container and SHA-256 are parameters; the
-- environment variable and the configuration file that was read are arguments.
--
-- TaskManager models engine/task_manager.py. `TaskManager.Task` is a task and its YAML entry, with
-- PyYAML as a record of operations and two laws. `TaskManager.Store` is `_load`, `_save`, `reload`,
-- `_preserve_unreadable_state` and `_locked_load_save` over a manager and a disk; the lock makes a
-- cycle one step, so processes interleave as sequences of cycles on one disk. `TaskManager.Methods`
-- holds the public methods, with the clock's readings as arguments. Not modelled: messages on
-- stderr, files that exist and cannot be opened, and the enforcement policy for thin criteria.
--
-- JobStore models engine/job_store.py. A record is the JSON dict that is on disk, over a type of
-- floats whose operations are a parameter; `JobStore.Record` has its fields, `JobStore.Liveness` is
-- `worker_liveness` with the process table and the clock as a moment, `JobStore.Store` the
-- directory with leases, `reap_stale_job`, `beat` and `find_running_job`, each as one step, and
-- `JobStore.Lease` the statements of a beat and a reap as steps that interleave. A `started_at`
-- that is no number and an `id` that is no string do not occur in the records that `make_job`
-- makes. The files are UTF-8: `load_job` raises on others. Not modelled: the thread of `JobHeartbeat` and log messages. `JobStore.Caps` is
-- `cap_to_dict` and `cap_from_dict`.
--
-- EvalCap models engine/eval_cap.py. `EvalCap.Cap` is the class with its charges, checks and
-- messages and the note of the last trip; floats and their formats are a parameter, a clock reading
-- is an argument, and `call` and `run` are the calls that an evaluation makes in sequence. Not
-- modelled: `summary` and the parsing of cap strings.
--
-- Tier1Lock models engine/tier1_lock.py: the waiting loop of `acquire` on fuel, one attempt each,
-- and `release`, over the lock's descriptor and the descriptors that the process has open. What
-- `flock` and the clock answer at each attempt is the environment's; fuel past the first attempt
-- that finds the deadline passed is enough. Not modelled: the path of the lock file.
--
-- EvidenceBounds models engine/evidence_bounds.py: `EvidenceBounds.Lines` is `str.splitlines` and
-- the two functions that fit whole lines to a budget, `EvidenceBounds.Marker` the omission marker
-- with its hoisted lines, and `EvidenceBounds.Bound` is `_bound_step_evidence`, which
-- `bound_evidence` names too. A trim round takes a code point at least, so fuel for what is over is
-- enough; the twelve rounds are the source's. White space is a parameter.
--
-- Resolution models engine/resolution.py from the assembled bundle on, and the packing of blocks.
-- `Resolution.Value` is a JSON value over a type of floats, `Resolution.Answers` is `parse_answers`
-- and `rubric_position`, `Resolution.Bands` the bands, `Resolution.Call` is `call_jev` over what
-- the poster answers for each credential, `Resolution.Pack` is `pack_blocks`, which clips with
-- EvidenceBounds, `Resolution.Verdict` the verdict and `_abstain`, `Resolution.Clip` the clip at
-- the wall with `reconcile_manifest`, and `Resolution.Resolve` is `resolve`. Not modelled: whole
-- numbers that no float can hold, on which `float` raises; how
-- `assemble_bundle` gathers its blocks, through `hilo` and files, which is an argument of
-- `resolve`; the regular expressions, which are parameters; the discovery of keys; the serialisers.
--
-- Worktree models `reconcile`, `merge` and `clean` of engine/worktree_manager.py. A host is what
-- the method works with: git as a process, the files, the verdict store, the guard and the judge,
-- over a world that anyone may change between two commands. `Worktree.State` has the records and
-- the monad of commands that answer or refuse, `Worktree.Checkout` the questions put to git and
-- `_is_clean`, `Worktree.Verdict` the finding and the acceptance of a verdict, by the functions of
-- Gate, `Worktree.Reconcile` the states of the records, `Worktree.Ready` the checks at the start,
-- `Worktree.Merge` the gates and the fast-forward, and `Worktree.Clean` is `clean`, whose report is
-- read off the fates of the tasks. `Worktree.Merge.Quiet` says which commands leave a branch alone.
-- The messages of the refusals are left out. `Worktree.Marks` is `heartbeat`, `mark_phase` and
-- `mark_lane` over a loaded registry. Not modelled: `create`; `git worktree list`, the registry
-- file and the board are operations of the host.
--
-- DataProtection models engine/data_protection.py. `DataProtection.Luhn` is the checksum of payment
-- cards, `DataProtection.Iban` the check of an account number, `DataProtection.Policy` the rules and
-- what a policy selects, `DataProtection.Validate` its `validate`, `DataProtection.Findings` a
-- finding and `_apply_redactions`, and `DataProtection.Scan` is `scan` with `_resolve` and
-- `redact_text`. The iterators over the regular expressions, `fnmatch`, `int(ch, 36)` and
-- `ipaddress` are parameters; a confidence is counted in thousandths. Not modelled: the reading of
-- the configuration, the rendering of findings.
--
-- Pipeline models engine/pipeline.py. `Pipeline.Result` has the results of steps and stages,
-- `Pipeline.Skips` the marks of gates that did not run, `Pipeline.Condition` is
-- `_check_condition`, `Pipeline.Script` grades the end of a command, as `_run_script_step` does,
-- `Pipeline.Steps` runs a step, over a world on which the steps act in order, and `Pipeline.Run` is
-- `run` with its stages. The stage results feed Worktree: `Pipeline.Refused` follows a gate that did
-- not run into the refusal of a merge. Not modelled: the summary of a stage; the evaluator, the
-- commit audit, the output step, the templates and the classification of pytest's output, which are
-- the environment's; the making of the tier 1 plan.
--
-- QaLedger models engine/qa_ledger.py: `QaLedger.Lines` the lines of a text, and `QaLedger.Store`
-- is `_prune`, `append_row` and `list_rows` over the bytes of the file; UTF-8 in text mode is a
-- parameter with the laws of its reading and writing, for text without returns and halves of
-- surrogate pairs, and JSON one with none. Not modelled: the
-- settings but for `max_entries`, the rows that reports are mapped to, the presentation.
pub mod Prelude
pub mod Gate
pub mod TaskManager
pub mod JobStore
pub mod EvalCap
pub mod Tier1Lock
pub mod EvidenceBounds
pub mod Resolution
pub mod Worktree
pub mod DataProtection
pub mod Pipeline
pub mod QaLedger
