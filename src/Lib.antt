-- ===== src/Lib.antt =====
-- Looptimum: the controller that hands out the trials of an optimization campaign and takes their
-- results back, as templates/bo_client/run_bo.py runs it on the modules of templates/_shared.
--
-- The program keeps a campaign in files: the state with the pending and the observed trials, a CSV
-- of the observations, a manifest for each trial, an event log and an acquisition log. Each command
-- takes an exclusive lock, loads the state, changes it, writes the files and releases the lock. The
-- model passes the files explicitly: a command is a function from the files to a result and the
-- files after, so what was written before an error stays written.
--
-- Files:
--   Prelude: lists, texts, integers, and the kinds of do blocks: Exec, Answer and Maybe.
--   Float: Python's float, as a parameter with its operations; the laws of its order are hypotheses.
--   Values: JSON scalars and their comparisons.
--   Runtime, Runtime/Version: templates/_shared/runtime.py, the age of a pending trial
--     (pending_age_seconds), the options read from bo_config (resolve_*), and schema versions
--     (_parse_semver, normalize_state_schema_version).
--   Objectives, Objectives/Order: templates/_shared/objectives.py, objective vectors, scalarization,
--     best_rank_key and build_best_record; Objectives/Optimal has the order of the keys.
--     Objectives/Pareto: pareto_front_records, with the proofs in Vectors, Dominance, Front, Sorted
--     and Exact.
--   Contract, Contract/Replay: templates/_shared/contract.py, normalize_ingest_payload, and the
--     comparison of a repeated ingest (build_observation_contract, diff_contract_records), with its
--     meaning in Contract/Repeated.
--   Space, Space/Order: templates/_shared/search_space.py, activity of conditional parameters,
--     _ordered_parameters and canonicalize_conditional_params. Space/Encoding: points as vectors of
--     numbers, normalize_numeric_point and denormalize_numeric_point; Encoding/Choices is about the
--     values that are no numbers.
--   Constraints: templates/_shared/constraints.py, evaluate_constraints and
--     sample_feasible_candidates; the sampler is a parameter, the candidate of each attempt.
--     Constraints/Feasible has what a feasible candidate is, Constraints/Sampled the sampling.
--   Trials: the state and the functions on it (_pending_index, _pop_pending, _retire_stale_pending,
--     update_best). Trials/World and Trials/Effects: the files, the clock and the helpers that read
--     and write them. Trials/Suggest, Ingest, Retire and Heartbeat: cmd_suggest, cmd_ingest,
--     cmd_retire and cmd_heartbeat. Trials/Cancel: cmd_cancel of
--     templates/_shared/controller_operations.py.
--   Trials/Checks: _validate_state_hard_checks of run_bo.py; Checks/Ids, Exact and Chosen are about it.
--   Trials/Hoare, Quiet, Total, Invariant, Lifecycle, Mirror, Best, Limits, Stale, Refused: the proofs
--     about the commands; Lifecycle has the abstract machine of a trial.
--   Service/Leases: service/coordination.py, the lease table (_try_acquire, _release) and
--     acquire_campaign_lease, as a function of what each round sees and as a step relation on the
--     table and the requests. Leases/Exclusive and Leases/Waiting are about the two.
--   Service/Registry: service/registry.py, the registered campaigns (register_campaign,
--     get_campaign); Registry/Names has the normalized ids, Registry/Table and Found the look-ups.
--   Service/Auth: service/auth.py, the users, claims and roles. Auth/Requests: the middleware
--     (ServiceAuthMiddleware.dispatch) and the role that a route requires (_require_role), enter_route
--     one after the other. Auth/Login, Roles, Known, Enter and Password are about them.
--   Tests: runs on a small campaign.
--
-- A command's function has the guards, the writes and the events of the source in their order, from
-- the lock on. Its arguments are what the source has computed before: the parsed command line and
-- the resolved configuration. The texts of messages are left out, an error is a value of
-- Trials.World.Error; in the modules without effects `none` stands for a raised exception.
--
-- Parameters: the clock, whether the lock is acquired and after what wait, which writings of a file
-- fail (atomic_write_text, append_jsonl), the policies that a governance snapshot finds violated or
-- that its configuration is refused (governance.py), the path of a payload copy, and the proposer of
-- suggest, which is any function from the trial's seed and the planning state; for the service the time that
-- each request reads before its transaction, which transactions fail, the tokens of the leases
-- (uuid4), str.lower, pydantic's trimming of texts, and the base64, UTF-8 and JSON decoders.
--
-- Simplified: a row of observations.csv is without the columns of contract version 2 and
-- source_trial_id; an append to a log that fails leaves no part of a line.
--
-- Bounds and fuel: Python's integers have no bound, and the model uses numbers without one. Loops are
-- structural recursion. Only the visit of Space/Order takes fuel, one more than there are parameters;
-- that it is enough is stated below. A look-up by name takes the first parameter of the name, where
-- the source's dictionary has the last: normalized parameters have different names.
--
-- Not modelled: the Ax backend and measured outcomes (contract version 2), the proposers,
-- the validation of configuration files, reports, archives, health and metrics, import and export, the
-- lock file itself, of the service the HTTP routes, the worker process and the JSON of its files, and
-- the client harness. bo_client_full and bo_client_demo hold near copies of the controller.
pub mod Prelude
pub mod Float
pub mod Values
pub mod Runtime
pub mod Objectives
pub mod Contract
pub mod Space
pub mod Constraints
pub mod Trials
pub mod Service
pub mod Tests
