-- ===== src/Lib.antt =====
-- codefolio, a coding agent for the terminal: its permission broker, tool executor, session
-- ledger and context manager, as functions with theorems about them.
--
-- A turn of the agent sends the bounded view of the session to the provider, submits the tool
-- calls of the answer to the executor, and stores their results in the session. The executor asks
-- the broker before every tool; the broker asks the user through the controller. The session
-- appends each message to a log, from which a later start loads it again.
--
-- The files:
-- - Common (and Common/): bytes, lists, Boolean tests and the lemmas that the parts share.
-- - Domain (and Domain/): internal/domain, the values that the parts exchange. A string type with
--   named constants is a data type whose constructor `other` stands for every other string.
-- - Filepath (and Filepath/): what the code uses of the package path/filepath on Unix, on cleaned
--   path elements.
-- - Regex: the part of the package regexp that the patterns of the broker use, as a matcher on
--   ends.
-- - Approval (and Approval/): internal/infra/approval/approval.go. Commands and Paths are the
--   checks of an invocation, Broker is `Authorize` with `requestApproval`, Workspace says what
--   the containment test decides, Safety what the broker guarantees.
-- - Asking (and Asking/): internal/infra/tools/askuser and cmd/cli/controller/ask.go. Tool is
--   `Execute`, Dialog the dialog, Answered what it gives back, Lost a request over which another
--   one is shown.
-- - Executor (and Executor/): internal/infra/executor.go. Run is `execute`, Collect is `Submit`
--   with `CollectResults` as a sequence of submissions and ends of goroutines, Slots and Order
--   what its results are, Gate says when a tool runs and when it does not.
-- - Registry (and Registry/): internal/infra/tools/registry.go and
--   internal/infra/tools/toolsearch/toolsearch.go. Store is the registry, Search the tool that
--   searches it, Visible what the provider sees, Found what is found.
-- - Session (and Session/): internal/infra/session/session.go. Ids are the identifiers, Ledger
--   the methods, Load is `Load`, Replay its specification, Turns the sequences of calls that the
--   agent makes and what a reload gives back, with Coded for what the encoding of the log does to
--   texts.
-- - Store (and Store/): internal/infra/session/store.go. Table is the listing with `Load` and
--   `Latest`, Match which item an ID picks, Loads what is opened.
-- - Context (and Context/): internal/svc/context.go. Tokens are the estimates, Preview is
--   `previewToolOutputs`, Turns is `splitContextTurns`, Manager is `Prepare`, `Compact` and
--   `summary`, Limits what they guarantee.
-- - Controller (and Controller/): cmd/cli/controller. View are the messages that are shown, State
--   the controller, Approvals approval.go, Queue, Answers and Decisions what its queue
--   guarantees, History the input history, Runs the life of a run, Events the visitor of
--   agent.go, Visits, Life, Cancel, Kept and Reached what the events, a cancellation and the rest
--   of the interface do.
-- - Agent (and Agent/): internal/svc/agent.go. Collector is `agentCollector`, Loop is `Run`,
--   Closed and Stream follow the session through a round, Log and Ends say what a run leaves and
--   how it tells that it ends.
-- - Commands (and Commands/): internal/domain/command.go and internal/svc/command.go. Parse is
--   `ParseCommand`, Table the registry with `ReplaceDynamic` and `Find`, Laws what a lookup
--   finds.
-- - Markdown (and Markdown/): internal/infra/command/loader.go. Text are the header, the
--   description and the rendered prompt, Load is `Load` with `LoadDir` and `parse`; Merge says
--   which command a name has, Read what becomes of the files, Header and Rendered what is cut out
--   and filled in.
-- - Editing (and Editing/): internal/infra/tools/file. Disk is what the tools use of the package
--   os, Cache statecache.go, Tools `Execute` of edit.go and write.go, Reader that of read.go,
--   Edits and Lines what they do, Fresh, Kept, Seen and Runs what the cache guarantees over runs
--   beside other programs.
-- - Config (and Config/): internal/conf/conf.go. Servers is `validateMCPServers`, Load is `Load`,
--   Checked what they accept.
-- - Mcp (and Mcp/): internal/infra/mcp. Tool is tool.go, Manager manager.go, Discovery and Totals
--   what `Discover` finds and what `Summary` says of it.
-- - Memory (and Memory/): internal/svc/memory.go. Text and Files are the names, headers and
--   files, Agents the search for the root and for AGENTS.md, Recall `Context` and
--   `selectRelevant`, Extract `Extract`; Slugs, Header, Walk, Selected and Queue what they
--   guarantee.
--
-- Conventions. A Go string is the list of its bytes; case mapping and white space are those of
-- ASCII. A Go `int` is a natural number where the code never makes it negative; where a bound
-- matters, in `strconv.Atoi`, the counters of the controller and the lines that are read, it is
-- written out. A mutex is left out: a method is one step. `Authorize` waits for the user, so it
-- is two steps, the request and the answer to it, and other calls may come between them. Tool
-- calls run at the same time: submissions and ends are events in any order. The clock, the file
-- system (but for the file tools, which have a disk), JSON, SHA-256, the provider and the servers
-- of tools are arguments of the functions that use them. Of JSON the theorems assume what the
-- package encoding/json documents: it replaces what is not UTF-8 in a text, and a record comes
-- back with its texts so replaced.
--
-- Fuel. `itoa` recurses on the number of digits and has the number and one as fuel; its theorem
-- shows that this is enough. The matcher of Regex has the length of the text as fuel for a
-- repetition, and every round of it takes a byte. The loop of the agent recurses on the rounds
-- that are left, which the code bounds itself. The two loops over directories in Memory have
-- fuel, since one of them may not end; its theorem says how much is enough. No other function has
-- fuel.
--
-- Not modelled: the terminal's rendering and its components, the provider's drivers and their
-- wire formats, the client of the Model Context Protocol, prompts, and the tools that start
-- processes or search files.
pub mod Common
pub mod Domain
pub mod Filepath
pub mod Regex
pub mod Approval
pub mod Executor
pub mod Registry
pub mod Session
pub mod Context
pub mod Controller
pub mod Commands
pub mod Markdown
pub mod Config
pub mod Mcp
pub mod Editing
pub mod Memory
pub mod Store
pub mod Asking
pub mod Agent
