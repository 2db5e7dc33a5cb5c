-- ===== src/Lib.antt =====
-- Angelus is a host for agent swarms: Sessions own a console state (the agents' topology and
-- task plans), a set of tools that a policy grants, and an executor that runs one attempt at a
-- time and journals it; a run graph is reduced from that journal; a hub holds external Agents;
-- plugins, settings and notes are stored and decoded beside them.
-- This library models the logic of these parts, from the Python sources under angelus/modules,
-- and states what makes them correct.
--
-- The parts and their files:
--   Prelude: tests on numbers and texts, lists measured by native numbers, Python's dict and
--     set, results of code that may raise. Shared by all parts.
--   Console: angelus/modules/console_module/console_state.py. Types holds the dataclasses,
--     Topology the operations on workers, connections, mappers and routers, Plans and Bindings
--     those on task plans. Reach and Acyclic treat the search for cycles, Integrity, Connections
--     and Sessions the invariant of the topology, Leaves, Updates and Accepts the plans.
--   Tools: angelus/modules/tool_module (tool_models.py, tool_policy.py, tool_registry.py in
--     Types, Policy, Registry) and angelus/modules/context_module/registry.py (Contexts).
--     Lifecycle, Materialize and Grants treat the registry and the policy.
--   Execution: angelus/modules/execution_module and
--     angelus/modules/swarm_module/session_executor.py. Trace is trace_buffer.py, with its
--     invariant in Durability and Retention. Types and Attempt are state.py and
--     execution_attempt.py, with what checkpoint_store.py leaves in the manifest; Steps gives
--     the steps of an attempt as a relation, and Lifecycle, Outcomes, Final, Moves and Stopping
--     treat it. Executor is session_executor.py, Hosts and Serial a Session's attempts among all
--     their steps. Shutdown is sigint_supervisor.py and `live_attempts` of
--     angelus/modules/session_module/session_handler.py, Reconcile is reconcile.py, and Settled
--     and Restart treat them.
--   RunGraph: angelus/modules/run_graph_module. Types is models.py, Reducer and Snapshots
--     reducer.py; Replay, Attempts and Events are from projection.py, the replay of an attempt and
--     its pages of events. Keyed treats the nodes, Resume the replay from a checkpoint and Feed the
--     pages.
--   Hub: angelus/modules/external_agent_hub_module. Types is models.py, Store store.py, Adapters
--     adapter.py, Service service.py, Codec context_codec.py; Finite and Requests treat the store,
--     Packages and Documents the codec.
--   Journal: angelus/modules/execution_module/journal_tail.py, which pages through a journal from
--     its end. Lines, Tail and Records read a file forwards, and Seams, Pages and Paging compare
--     the pages with that.
--   Settings: angelus/modules/settings_module. Json is json_store.py's checks and the JSON values,
--     Schema and Decode are json_schema.py. Encoding, Fits, Parts and RoundTrip treat a document
--     that is written and read again, Typing and Decoding what a document may decode to.
--   Plugins: angelus/modules/plugin_module. Types is models.py; Patterns, Values, Fields, Forms
--     and Manifest are manifest.py, and Discovery is its `load_manifest` and `rescan` of
--     manager.py. Guards, Sound, Accepted and Decoding treat manifests, Rescans the scan.
--   Notes: angelus/modules/note_module/store.py. Texts holds its checks, Store its operations on
--     the tables; Rows, Updates and Listing treat them.
--
-- How they interact: the executor makes attempts and passes stop requests on, the supervisor
-- asks the live attempts of all Sessions to stop, an attempt owns a trace buffer, the next host
-- reconciles the manifests that attempts left, and the run graph replays their journals. The
-- context registry asks the tool policy for its gates. The hub's service validates definitions,
-- keeps them in its store and passes calls to the adapter of their kind. The codecs of the hub and
-- of plugin manifests read the JSON values of Settings.
--
-- How code becomes a definition: a method that changes an object is a function from the object
-- to the object, and one that may raise returns a result with the check that raised. What runs
-- under a lock is one step; threads are the order of the steps. Sets of texts are lists in the
-- order of insertion. Times are natural numbers. Files are values: `saved` is the console
-- document last written, and the file of a trace buffer is the list of its lines and of the
-- pieces that failed writes left. Code that is not in this repository is a parameter:
-- llmfetcher's ExecutionController is the record Controller, whose one law is that a stop
-- request makes it say that the work should stop; tool providers and context factories are
-- arguments of `materialize`, and a protocol adapter is a record of functions that may raise. So
-- are Python's conversions and comparisons of floats, its `casefold` and digits, what
-- `json.loads` makes of the bytes of a journal's line, and the order of SQLite's rows. Where a
-- document is JSON, the model starts from the parsed value.
--
-- Fuel: the search for a cycle takes two rounds more than there are connections, since each
-- connection leads to one push at most. The reader of a journal takes more rounds than the offset
-- that it starts from, since a block has at least one byte. All other loops recur on their lists
-- and trees; the annotations of a dataclass are a finite tree, so one that names itself is
-- unrolled.
--
-- Not modelled: the JSON codec of the console state, `set_plan`, errors of writing the console
-- document and manifests, errors of the trace buffer other than `OSError` within the attempt's
-- own methods, integers that are too large for a float, journal identities and free event data,
-- the writer of the journal, the payload files of checkpoints, signal handlers, the seed of a
-- run graph from a live view, atomic writes and the wording of error messages, the loading,
-- panels and store of plugins, the note tools, and the other modules, which are stores,
-- adapters, routes and user interfaces.
pub mod Prelude
pub mod Console
pub mod Tools
pub mod Execution
pub mod RunGraph
pub mod Hub
pub mod Journal
pub mod Settings
pub mod Plugins
pub mod Notes
