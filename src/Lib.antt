-- ===== src/Lib.antt =====
-- DCOps: agents that watch data centres and act on them.
--
-- The program is a set of Python services that talk over a Redis bus (apps/). This library models
-- its decision and action path, and the services around it that keep telemetry and audit events.
--
-- Base     shared names, Boolean tests, lists, texts, integers, and the result of code that raises.
-- Value    the dynamic values of YAML and JSON, with Python's bool, int, list and set on them.
-- Events   the events of apps/agents/shared/events.py.
-- Policy   apps/control_plane/policy_engine.py: `_eval_*` (Rules), `from_yaml` and `evaluate`
--          (Engine). The match of the custom rule's pattern and Python's `eval` are the record
--          RuleLanguage, an argument of the definitions.
-- Executor apps/agents/executor/main.py and actions.py, with the loop of apps/agents/shared/base.py.
--          State is the history of effects (HTTP posts, bus messages, Redis commands, queries), and
--          the record Env says how the surroundings answer, with any dependence on the history.
--          Exceptions are values, and what was done before one stays done.
--
-- Correlator apps/control_plane/cross_site_correlator.py: `CrossSiteCorrelator` (Hits) and
--          `run_correlator` (Publisher). The clock's readings come with the predictions.
--
-- Rollback apps/agents/rollback/main.py: the check of one action (Verify), over the executor's
--          effects, and the agent (Monitor). The sleep before a check is not measured: checks end in
--          any order, between any receptions. Float arithmetic is the record Floats.
--
-- Ingestion the telemetry writer of apps/ingestion/main.py with `insert_telemetry` of
--          apps/agents/shared/ts_client.py (Writer). A move is what one of the two coroutines does between
--          two waits, so that every list of moves is an interleaving; Service adds what ends them, an
--          exception or a cancellation, and the flush at shutdown. The proofs are in Batch, Rows, Loss,
--          Left, Stop and Over.
--
-- Normalizers the pollers of apps/ingestion: `TelemetryEvent` of schema.py with the effects of a poll
--          and `base_url`, `get_json` and `get_text` of normalizers/_http.py (Telemetry), `_hall_rack`
--          (Places), redfish.py, ipmi.py, snmp.py, env.py (Facility) and dcgm.py (Prometheus, Dcgm) of
--          normalizers/, and `run_source` of main.py (Sources). A poll is an action on the history of
--          what was read and published, since its events are published one by one as it yields them.
--          The endpoints, the bus, Pydantic's reading of a text field and floats are the record Net.
--          The proofs are in Ensures, Catalogue, WellFormed, Sends and Rounds (what is published), Placed
--          (names), and Exposition, Samples, Published and Xid (a line of the exporter, up to Sentinel).
--
-- Audit   apps/audit/sink.py: the consumer of the audit stream (Sink). Each read of the consumer
--          group is the list of entries that it returned, or an exception.
--
-- Sentinel apps/agents/sentinel: the windows of window.py (Window, Store, Eviction), the rules of
--          rules.py (Values, Rules), and of main.py the decision (Decision, Strongest) and the
--          inference cycle (Cycle, Repeats). The parsing of a time, floats, the model's probability
--          and the validation of a prediction are arguments.
--
-- Llm      apps/agents/shared/llm_router.py: tiers, models, prices and records (Router), and
--          `LLMRouter.call` for calls that overlap (Calls). Money is counted in millionths of a
--          dollar, exactly; environment variables are an argument.
--
-- Optimizer  apps/agents/optimizer: `solve` over a CP-SAT solver that is an argument (Solver, Limits,
--          Placement), the names of racks (Names, Naming), the context and the agent (Context,
--          Agent, Offline), and what the executor makes of its recommendations (Handover).
--
-- Physics  apps/physics: a hall and its devices (Entities, Hall, Places), failure_injector.py (Injector,
--          Handling, Outcome) and power.py (Power, PowerLoss).
--
-- Quality  apps/agents/shared/quality/verifier.py: the loop of generator and critic (Words, Verifier,
--          Calls), over a router that is an argument; the vote of self_consistency.py (Vote, Majority); structured.py
--          (Extract, Object, Structured, Retries); and kg_grounding.py (Grounding).
--
-- Store    the TimescaleDB client apps/agents/shared/ts_client.py: the test on a query (Guard), compared
--          with that of apps/agents/shared/quality/schemas.py (Validator), and the methods with the
--          statements they send (Timescale, Safety), over a pool of connections that is an argument.
-- Operator apps/agents/operator/main.py: the answer's schema (Answer), runbooks (Runbooks), charts
--          (Charts, Series), and a request from the bus to the published result (Agent, Sound,
--          Published).
--
-- Agent    `BaseAgent` of apps/agents/shared/base.py: the serve loop, the signals and the heartbeat task as
--          interleaved steps, over a `handle` that is an argument (Life); the proofs are in Stopping,
--          Feeding (the executor in this loop) and Seen (its heartbeats in the fleet view).
--
-- Fleet    apps/control_plane/fleet_view.py: the reading of the heartbeats (Heartbeats), the snapshot
--          and `run_fleet_view` (View); the proofs are in Missing, Sorting, Sites and Counts. The scan of Redis,
--          `json.loads`, `str`, `float` and the clock are the record Surroundings.
--
-- Texts that only people read (log lines, reasons) are data that holds what they are built from, or
-- come from a function of the surroundings. No model needs fuel: every loop runs over
-- a list or a count.
--
-- Not modelled: the language models and their prompts, the stores behind the clients, the thermal
-- model, the simulator and the forecaster, the HTTP API, the dashboard, and the tooling; the
-- connections that a service opens and closes; and the expiry of keys in Redis.
pub mod Base
pub mod Value
pub mod Events
pub mod Policy
pub mod Rollback
pub mod Ingestion
pub mod Normalizers
pub mod Audit
pub mod Sentinel
pub mod Store
pub mod Llm
pub mod Optimizer
pub mod Physics
pub mod Quality
pub mod Operator
pub mod Agent
pub mod Executor
pub mod Fleet
pub mod Correlator
