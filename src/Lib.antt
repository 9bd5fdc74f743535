-- ===== src/Lib.antt =====
-- agent-os-langgraph: a graph of agents (LangGraph) whose plans a human reviews and whose actions pass
-- a policy engine, with a ledger of runs and a scheduler. A library of models of its decisions, and of
-- theorems on them.
--
-- Parts of the program, and the files that model them:
--
-- * Graph (agent_os/graph.py, routing.py, state.py, nodes/): Routing.antt has `SimonState` with the
--   fields that routing reads, `route_from_state` and `supervisor_node`; HumanGate.antt has
--   `normalize_human_feedback` and `human_gate_node`; Graph.antt has what the other nodes write, and
--   the compiled graph as the step relation `Step`, with `Reach` for its paths. Graph/Approval and
--   Graph/Progress are about these paths. What a model, a tool or a human answers is an argument of a
--   step, and so any answer is allowed.
-- * Permission rules (agent_os/permission_store.py): Permissions.antt has `PermissionRule`, the format
--   of a key and the protocol as the record `RuleStore`, with the laws `IsRuleStore` that the policy
--   relies on. Permissions/InMemory and Permissions/Sqlite are its two implementations;
--   Permissions/Agreement and Permissions/SqliteLaws are about them.
-- * Policy (agent_os/policy.py): Policy.antt has `derive_tier`; Policy/Key `derive_permission_key`;
--   Policy/Local `LocalPolicy.evaluate`, over a state of session grants and of a rule store;
--   Policy/Composite `CompositePolicyEngine.evaluate`; Policy/Feedback `normalize_policy_feedback`;
--   Policy/Apply `apply_policy`, over any engine, any action and any rule store.
-- * Memory gate (agent_os/memory_gate.py): MemoryGate.antt has `gated_write`, which calls
--   `apply_policy` with the write to a connector as its action.
-- * Run ledger (agent_os/runs.py): Runs.antt has the three tables as lists of records in the record
--   `Ledger`, and one function for each function of the module. A function is one transaction.
--   Runs/Numbering, Runs/Creation, Runs/Transitions and Runs/Approvals are about them.
-- * Schedule recurrence (agent_os/schedule_recurrence.py): Recurrence.antt has `parse_interval`,
--   `next_run_at` and `coalesce_next_run`, on points in time counted in microseconds.
-- * Schedules (agent_os/schedules.py): Schedules.antt has the table as a list of records, and
--   `claim_due_schedules`; Schedules/Fields the validation of the fields, with urlsplit, croniter and
--   the zones as the record `Outside`; Schedules/Create `create_schedule`. Schedules/Table,
--   Schedules/Claims, Schedules/Success and Schedules/Callbacks are about them.
-- * Skills (agent_os/skills.py, default_registry.py): Skills.antt has `RegisteredSkill` with the checks
--   of its names, and the registry as the list of the dict's values, with `register`, `register_many`,
--   `get`, `deterministic_match` and `build_default_registry`. Skills/Names, Skills/Batch and
--   Skills/Native are about the words of a registry, a batch and the native skills.
-- * Dispatcher (agent_os/default_registry.py, nodes/smart_router.py, nodes/tool_dispatcher.py):
--   Dispatch.antt has `parse_tier1_request`, `classify_tool_request` and `dispatch`, from a task to a
--   command for the graph. Dispatch/Safety ties it to the registry and to the step relation of
--   Graph.antt; Dispatch/Commands is about the spelling of commands.
-- * Run executor (agent_os/server/run_executor.py): RunExecutor.antt has `execute_run` on the ledger and
--   the session grants: what happens during the stream, how the stream ends, and how the checkpointer
--   closes are arguments. RunExecutor/Writes has what it writes as a relation; RunExecutor/Status and
--   RunExecutor/Session are about the last status and the grants.
-- * Requests (agent_os/server/api.py): Server.antt has the requests that approve and cancel a run, with
--   the set of unfinished tasks; Server/Requests is about them.
-- * Principals (agent_os/principal.py): Principals.antt has the checks of a principal and
--   `LocalPrincipalResolver.resolve`; Principals/Resolved is about who is taken for a human.
-- * Scheduler (agent_os/scheduler.py): Scheduler.antt has `dispatch_schedule` for each kind of schedule,
--   over the table, the ledger and the grants; Scheduler/Service has `SchedulerService` as the step
--   relation `ServiceStep`, in which a call of `stop` is one step for each part between two awaits.
--   Scheduler/Results and Scheduler/Agreement are about one dispatch,
--   Scheduler/Service/Bounds and Scheduler/Service/Quiet about the service.
-- * Strategy assignments (agent_os/observations.py): Strategies.antt has the table of the strategies that
--   runs were given; Strategies/Balance is about the choice of an exploration.
-- * Webhooks (agent_os/webhooks.py): Webhooks.antt has the validation of a URL and of the resolved
--   addresses, and the attempts of one delivery with the connections that they make; Webhooks/Queue has
--   the sink with its queue and its workers as the step relation `SinkStep`, in which a close is one step
--   for each sentinel; Webhooks/Queue/Sizes is about it, Webhooks/Safety and Webhooks/Attempts about the
--   connections. How a name resolves may differ from one attempt to the
--   next.
-- * Validation (agent_os/validation.py): Validation.antt has the checkers, the semantic judge and
--   `run_validation`; Validation/Verdicts is about what passes.
-- * Output limits (agent_os/output_limits.py): OutputLimits.antt has `truncate_utf8`, over Text/Utf8 with
--   the encoding of characters and the decoding that ignores errors, and Text/Decimal with `str` of a
--   number. OutputLimits/Bytes is about the bytes of the result.
--
-- Shared: Prelude.antt has Boolean tests, lists over native numbers, and `Result` for what a function
-- that may raise returns; Text.antt has Python's texts as lists of code points; Schemas.antt has the
-- types of agent_os/schemas.py.
--
-- Outside the model, as arguments: `str.lower`, the digits of Unicode, croniter with its time zones,
-- `uuid4`, the clock, the value with which `interrupt` returns, a policy plugin, a memory connector,
-- `shlex.split`, the structured model of the router, the comparison of confidences, `json.dumps` and
-- `json.loads`, urlparse, ipaddress, name resolution, `re.search`, `repr`, `getpass.getuser` and
-- `os.getenv`, SHA-256, an HTTP response, and how a stream of graph events goes on and ends.
-- All recursion is on the structure of a list, except the digits of a number `n`, which have the fuel
-- `n + 1`; Text/Decimal shows that more fuel gives the same digits.
--
-- Not modelled: what the composition of a workspace may raise, the order in which threads interleave inside one transaction or one evaluation, what
-- SQLite itself may raise, the greatest `datetime`, the limit on the digits that `int` reads, and the
-- JSON of payloads. A path is any sequence of whole nodes; a node that an interrupt suspends is one
-- step with the answer that it resumes with. An execution of a run has other requests only where its
-- stream can be interrupted by a cancellation. Left out are the listings of runs and approvals,
-- the other handlers of the server, the lifecycle events, the other tables of
-- the observations, the command line, the
-- vaults, the language models and the configuration.
pub mod Prelude
pub mod Text
pub mod Permissions
pub mod Schemas
pub mod Policy
pub mod MemoryGate
pub mod Routing
pub mod HumanGate
pub mod Graph
pub mod Runs
pub mod Skills
pub mod Dispatch
pub mod RunExecutor
pub mod Server
pub mod Scheduler
pub mod Webhooks
pub mod Validation
pub mod OutputLimits
pub mod Principals
pub mod Strategies
pub mod Recurrence
pub mod Schedules
