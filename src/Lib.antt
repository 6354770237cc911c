-- ===== src/Lib.antt =====
-- Cogment: the services of the command line program, in Go under packages/cli.
--
-- The program's parts. Cogment runs trials, in which actors, environments and hooks exchange
-- observations, actions and rewards. The orchestrator (C++) runs the trials. The other services
-- are in Go: the directory, in which services register and where they are looked up; the trial
-- datastore, which keeps the samples of trials; the model registry; and the web proxy, through
-- which actors in a browser take part in trials. The services call each other by gRPC; each keeps
-- its own state, which the requests change under a mutex.
--
-- What is modelled, by file:
-- - Prelude (Tests, Lists, Dict): Boolean tests on native numbers, lists, and Go maps as
--   association lists. The order of an association list is the order in which `range` visits the
--   map, which Go leaves open: it is an argument of what is proved.
-- - Utils/Filters: the id filter and the properties filter of packages/cli/utils (idFilter.go,
--   propertiesFilter.go).
-- - Proxy/Trial: the status machine of one trial of an actor, packages/cli/services/proxy/actor/
--   trial.go with events.go and errors.go; a definition for each method. Graph has the graph of
--   its transitions, Ticks the tick ids.
-- - Proxy/Manager: the manager of these trials, actor.go of the same directory. The pointers to
--   trials stand on an explicit heap, the slice of the manager is a list of addresses. Requests
--   has the gRPC-side and HTTP-side requests: each is its atomic part before the wait, the wait
--   (waitForTrial) over the list of the managers that later notifications show, and the part after
--   it. The list is finite: where it ends, the request's context is done. Slice, Unique, Lookup,
--   Steps, Waits, Rounds, Meeting and Closing have the proofs.
-- - Directory/Db: the database of the directory, packages/cli/services/directory/grpcservers/
--   db.go. getNewServiceID draws until a number is free; the draws are a list, and the model says
--   when the list ended first. Laws, Select and Restart have the proofs.
-- - Directory/Health: the health checks of healthCheck.go. The network is an argument, with the
--   outcome of each round. Counters and times are uint64 and wrap around.
-- - Directory/Server: Register and Deregister of directoryServer.go, with dbUpdate, dbRegister and
--   dbDeregister. Renewal, Update, Registration and Admission have the proofs.
-- - Directory/Inquire: Inquire of directoryServer.go, with dbInquire, the wait of the registration
--   lag (at most as many attempts as the parameter says), the sorting and the load balancing.
--   Order, Balance, Low, Matches and Sent have the proofs.
-- - Directory/Steps: the server as a relation between its states, over all requests and scans.
-- - Datastore/Observable: packages/cli/services/datastore/utils/observableList.go. An observer is
--   the sequence of the lists that it reads, with the number of items that are sent before its
--   context is done; where the lists end, it is done too. Reads has the proofs.
-- - Datastore/Memory: packages/cli/services/datastore/backend/memory/memory.go, with the types of
--   backend.go. Sizes are uint32 and wrap around. A pointer to a trial's data is its entry of the
--   map; the pointer to its parameters may be nil. Steps is the backend as a relation between its states. Sizes, Accounting, Eviction,
--   Listing and Steps/Reached have the proofs. Memory/Retrieval is RetrieveTrials, with Pages and
--   Known.
-- - Datastore/SampleFilter: packages/cli/services/datastore/backend/trialSampleFilter.go. An index
--   out of range stops the process; the filter of the fields has an entry for each field of the
--   API. Selection, Payloads and Filtered have the proofs.
-- - Datastore/Datalog: packages/cli/services/datastore/grpcservers/datalogServer.go, the conversion of
--   the samples of the data log. The arithmetic of float32 is an argument. Drafts has
--   the data and the sample under construction; Sound, Converted, Rewarded and Indices have the steps
--   of the proofs, Stored has the sample that is stored.
-- - Datastore/Batcher: packages/cli/services/datastore/utils/sampleBatcher.go, over any backend, and
--   its steps. The channel of the errors has no buffer: a send waits, with the mutex, until it is
--   received, which may be never, and a send on the closed channel stops the process. Delivered has
--   the proofs over any backend, Ended those over one that does not fail.
-- - Datastore/Server: packages/cli/services/datastore/grpcservers/trialDatastoreServer.go, the calls
--   that change the memory backend. Chunks has the proofs.
-- - Registry/Types: packages/cli/services/registry/backend/types.go, with the interface of the
--   backends as a record of operations over a state.
-- - Registry/MemoryCache: packages/cli/services/registry/backend/memorycache/memoryCacheBackend.go.
--   The archive behind the cache is any backend, and the cache of versions any implementation of
--   the operations of hashicorp/golang-lru that the code uses. MemoryCache has the latest version
--   numbers and their resolution, Operations what creates and deletes, Versions what reads, deletes
--   and lists versions. Lru states what is relied on in the library, for a bounded list too; Parts,
--   Numbers, RoundTrip, Forgetting and Transparency have the proofs. `uint` has 64 bits.
-- - Registry/Server: packages/cli/services/registry/grpcservers/modelRegistryServer.go, its handlers
--   over any backend, and the promise of the backend. Stream has CreateVersion and
--   RetrieveVersionData over streams of chunks, Watch has VersionUpdate as a run of its turns, of
--   changes of the store and of broadcasts. The hash of the data is an argument. A
--   slice of a request has what lies beyond its length, up to its capacity, as an argument. Transfer,
--   RoundTrip (over the memory cache), Paging and Watched have the proofs.
-- - Utils/Decimal: what the handles and the endpoints use of strconv.
-- - Utils/Endpoint: packages/cli/utils/endpoint/endpoint.go and the service types of grpcStr.go, over
--   URLs as net/url gives them: an endpoint is parsed from a parsed URL, and prints one. Printed,
--   Parsed and Resolved have the proofs.
-- - Proxy/Examples, Directory/Examples, Datastore/Examples,
--   Datastore/ServerExamples, Registry/Examples,
--   Registry/ServerExamples, Utils/Examples: the theorems at concrete inputs.
--
-- Bounds. Each loop is a recursion on a list, on the number of rounds, on the eviction list, which
-- each round shortens, or on the registration lag. The sending of chunks has a round for each byte,
-- which is proved enough, as are the rounds of the decimal digits, one more than the number. The random numbers, the
-- clock and the network are arguments. `sort.Sort` is a sort by insertion: Go leaves open the order
-- of equal elements, and what is proved does not rest on it.
--
-- What is not modelled. Logging and the text of error messages; gRPC, JSON, protocol buffers and
-- the network, which are libraries or I/O. Goroutines that run at once are run one after another,
-- but the batches and VersionUpdate are runs of steps in any order: the checks of a scan and of an
-- inquiry each concern another record. Of the memory backend, the parameters' retrieval and the
-- observations of trials and samples; the loop of RunTrialDatalog and the retrievals of the
-- datastore's servers; the bolt backend of the datastore, the file system backend of the model
-- registry, the orchestrator, the HTTP server of the proxy, the clients, the launcher and the
-- command line are not modelled.
mod Prelude
pub mod Utils
pub mod Proxy
pub mod Directory
pub mod Datastore
pub mod Registry
