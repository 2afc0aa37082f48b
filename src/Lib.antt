-- ===== src/Lib.antt =====
-- orbit-control, the control service of an agent platform: the parts of it that keep state and decide,
-- as executable definitions with the theorems that make them correct.
--
-- The program's parts and where they are modelled:
--   Ledger       internal/task/command_ledger.go: memoryLedger. ClaimCommand, CompleteCommand and
--                ReleaseCommand are claim_command, complete_command and release_command. Ledger.Spec is
--                the state machine of one command; Ledger.Interface is CommandLedger with the laws that
--                a client relies on, and the ledger in memory as an instance of it.
--   Service      internal/task/types.go and service.go: Service and its data. Every method is a function
--                from the service to the next service and its answer.
--     Append, Log  internal/task/events.go: appendEventRaw is append_event_raw, in the three regions
--                that hold the mutex; projection_apply.go: what an event does to the task's row.
--     Replay     EventsAfter, withLiveEvents (events.go) and Subscribe (subscribers.go), which is subscribe:
--                the read of the task, the listing and the registration, with what other calls do in
--                between as an argument.
--     Manifests  ArtifactManifest and LiftOmitted (types.go).
--     Tasks      internal/task/tasks.go: Create, Get, List and Delete, with the workflow's input and id
--                of internal/orch/client.go.
--     Commands   internal/task/commands.go: UpdateChecked is update_checked, over any command ledger; what
--                an update does to the local task is that of projection_apply.go.
--     Profiles, Mentions, Reconcile, Artifacts, Subscribers
--                the files of internal/task of these names: one function for each method; Service.Plan has the
--                other two functions of reconcile.go.
--     Settings   the calls for user settings, tenant policies and procedures (permissions.go, policy.go,
--                sop.go).
--     Configs    internal/task/config.go: TaskConfig, runConfigUpdate and applyLocalConfig. ConfigUpdates is
--                UpdateTaskConfig, over Commands.
--   Projector    internal/task/projector.go: project, one pass over a batch of outbox rows.
--   Value        JSON values; Value.Same is jsonEqual of projection_apply.go.
--   App          internal/app: Experts, Teams and Connectors (experts.go, teams.go, catalog.go), Permissions
--                (permissions.go), TaskConfig and Skills (task_config.go), Library (the personas and
--                connectors of catalog.go): what a request is checked for and
--                what is made of it. Refs has the checks that these share.
--   Policy, Permissions, Config
--                internal/task/policy.go, permissions.go and config.go: the limits, rules and settings
--                of a task and their form in the workflow's payload.
--   Sop          internal/task/sop.go: procedures, their defaults, validation and the cycle check.
--   Ring         internal/task/routing.go: the consistent-hash ring, with CRC-32 written out.
--   Catalog      internal/store/memstore and the query rules of internal/store/repository.go: personas,
--                connectors, skills, agents, the MCP market and icons.
--   Witnesses    each theorem below at a concrete input.
-- Tasks.Create uses Policy and Config for its checks and Service.Log for the event of a failed start;
-- Service.Log uses Service.Manifests; Replay reads what Service.Log wrote. Service.Commands uses the
-- interface of the ledger, and Service.Log and Service.Configs for what an update does here; the projector
-- appends with Service.Log; App.TaskConfig uses App.Teams, App.Connectors, App.Skills and App.Refs, and what it
-- answers with is the input of Config.
--
-- What stands for what: a Go map is an association list, whose order is the order of a loop over it; a
-- pointer or a nil-able list is an option where nil and empty differ; a time is a number of nanoseconds,
-- 0 the zero time; a uint64 wraps by `% 2 ^ 64`; texts are valid UTF-8; numbers in JSON payloads are
-- integers, and a payload is the object that it decodes to. sort.Slice is a stable sort. Each region
-- under a mutex is one step. UpdateChecked holds no mutex from its claim to the end of the command;
-- update_checked is one step all the same, and where that matters a theorem has any calls of the ledger by
-- other requests between its steps.
--
-- Code outside the repository is a parameter: golang-lru is the record Lru, with its documented laws and
-- an instance that keeps the newest keys (Lru.newest_first); the projection store, the orchestrator, the
-- clock, the hash of a request, the text of a JSON value and its decoding, the decoding of times, the
-- signing of links, the check of an MCP address, the lookups of the repository and strings.ToLower are
-- arguments of the functions that call them.
--
-- Fuel: the printing of n has n + 1 rounds and each divides by ten; the cycle check of n steps has 2n + 1
-- rounds, which Sop.Cycle shows to be enough for any steps.
--
-- Not modelled: the HTTP API, the SQL stores, the Temporal and ModelScope clients, generated contracts; of
-- internal/app the bundles, the files of experts and skills, their import and the check of MCP addresses;
-- of internal/task SameSOP, and the goroutines, timers and leadership around the projector: what they
-- start is modelled as steps.
pub mod Prelude
pub mod Outcome
pub mod Text
pub mod Value
pub mod Lru
pub mod Ledger
pub mod Policy
pub mod Ring
pub mod Sop
pub mod Permissions
pub mod Config
pub mod Service
pub mod Catalog
pub mod Projector
pub mod App
pub mod Witnesses
