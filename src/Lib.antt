-- ===== src/Lib.antt =====
-- policy-server: an aggregated API server that stores policy reports.
--
-- The program serves two resources, namespaced policy reports and cluster policy reports. Each has a
-- store of handlers (List, Get, Create, Update, Delete, DeleteCollection, Watch) that keeps JSON bytes
-- in a storage under a key made of the API version, the namespace and the name, and tells watchers of
-- every change through a broadcaster. The storage is an in-memory map or a client of kine; both
-- resources stand in one storage.
--
-- Parts, and the code they model (paths from the repository's root):
--   Prelude, Result, Strconv: shared names, byte texts, Go's errors, panics and actions on a state, and
--     strconv.ParseInt and fmt.Sprint at int64.
--   Storage: pkg/storage/store.go, the interface. Storage.InMemory: pkg/storage/inmemory/client.go.
--     Storage.Contract is the finite-map contract by which the handlers use a storage; the in-memory
--     database meets it (Storage.InMemory.Laws). Storage.Kine: pkg/storage/kine/client.go and NewStorage.
--   Report, Handler: the objects, the state of a report store, and the steps that all handlers share.
--   Polr: pkg/api/polr.go. Cpolr: pkg/api/cpolr.go. Each takes a platform and a storage as parameters;
--     the child modules Resource have what a store says of its resource.
--   Polr.Service: what a client of pkg/api/polr.go is promised, as a map from namespaces and names to
--     reports, with the handlers' answers beside it.
--   Polr.Threads: Create, Update and Delete of pkg/api/polr.go as threads over one store. A thread is what
--     a handler has yet to do, and a step runs it up to and with its next call of the storage or of the
--     broadcaster, each of which is made under a mutex; a schedule is any sequence of steps.
--   Install: pkg/api/install.go, and install.go of the version packages.
--   V1alpha1, V1alpha2, V1beta1: pkg/api/v1alpha1, pkg/api/v1alpha2, pkg/api/v1beta1 (polr.go,
--     cpolr.go, table.go and install.go), the same text at other Go types but for Delete, which
--     Versions is about.
--   Table: pkg/api/table.go and ConvertToTable. DryRuns: dry runs of both kinds of reports.
--   Utils: pkg/utils (monitoring.go, utils.go, consts.go).
--   Server: cmd/app/policyserver.go, cmd/app/opts/options.go, pkg/server, pkg/storage/monitoring.go and
--     Install of pkg/api/install.go: the order of the start.
--   Tests: a concrete platform, and the theorems at concrete inputs.
--
-- State and operations. A handler is a function from a state (the storage, the calls made to the
-- broadcaster, the outside world) to a result and a state; a failed handler still gives the state that
-- it leaves. A result is a value, an error or a panic. Where a Go function returns an empty object or
-- nil beside an error, the error stands alone. The mutable report behind a pointer is passed on as a new
-- record: the handlers return and broadcast the object that they have stored. The second result of
-- Delete is true exactly where it returns no error; that of Update is true exactly where it returns no
-- error and is dropped.
--
-- Parameters. Report.Platform stands for what is not in the repository: the JSON codec of the report
-- types, whose decoder fills a variable with maps that it may share, label selectors, UUIDs, the clock,
-- the broadcaster's subscription and the texts of errors. Its hypotheses are stated where they are used,
-- as that an encoded report decodes, or that names and versions survive the codec (Polr.Serve.KeepsNames
-- and KeepsReports, Polr.Service.Handlers.Settles), or that a map in the decoder's variable is added to
-- (Polr.Listing.Shared.ReusesMaps).
-- Storage.Contract.Contract is a hypothesis on the storage that the in-memory database fulfils.
-- Server.Host gives the answers of the libraries' calls.
--
-- Bounds. A resource version is an int64: the next one wraps at 2 ^ 63. Twenty digits of fuel print any
-- int64, which has at most nineteen. All other recursion is on the structure of its input.
-- Utils.Float64 has the finite float64 values as multiples of 2 ^ -1074 and rounds each result to the
-- nearest one, ties to even; 1100 halvings bring any quotient that occurs to 53 bits. No bucket overflows.
--
-- Threads carry no fuel: a thread has at most four steps, and Polr.Threads.Ends counts them.
--
-- Not modelled: the generated OpenAPI data, logging, the flags and the help of the command line, the
-- HTTP handlers of the libraries, and the registration of schemes. DeleteCollection and the handlers of
-- cluster reports run as a whole, as between two requests, and have no threads. A panic ends its thread;
-- the process goes on, as the library recovers it.
pub mod Prelude
pub mod Result
pub mod Strconv
pub mod Storage
pub mod Report
pub mod Utils
pub mod Table
pub mod Server
pub mod Handler
pub mod Polr
pub mod Cpolr
pub mod Install
pub mod V1alpha1
pub mod V1alpha2
pub mod V1beta1
pub mod Versions
pub mod DryRuns
mod Tests
