-- ===== src/Lib.antt =====
-- A model of the RIoT preprocessors, three Go programs that turn public data on traffic into
-- instances and states of the RIoT platform, with proofs about what they register and publish.
--
-- The program. Each preprocessor registers its type when it starts, keeps the set of instances that
-- the platform knows (replaced whenever the platform sends the set), processes one input after the
-- other, and publishes registrations and states through RabbitMQ.
--   MHD (backend/mhd-preprocessor/src) matches live positions of vehicles to trips of a timetable.
--   NDIC (backend/ndic-preprocessor/src) processes publications on road segments.
--   Waze (backend/wazejam-preprocessor/src) gathers the jams of a feed by segment.
--   commons (backend/commons/src) has the set, the messages and the publishing in batches.
--
-- The model.
--   Base: shared helpers. Base/Maps has Go's maps, Base/Time times and durations with jitterTime,
--     Base/Text and Base/Strconv the parts of strings and strconv, Base/Environment variables and
--     addresses, Base/Sorting sort.SliceStable, Base/Float an interface for float64.
--   Commons/Sets: sharedUtils/set.go. Commons/Messages: sharedModel/iscMessages.go.
--     Commons/Rabbitmq: rabbitmq/client.go, with Batches for PublishJSONBatches, Client for the
--     connection, the channel and publishing, and Consumption for the functions that consume messages.
--     Commons/Json: decoded JSON. Commons/Kpi: sharedModel/kpiDefinitionModel.go, with the JSON of
--     sharedModel/json.go in Commons/Kpi/Json. Commons/Declared compares the parameters of a message
--     with a registered type. Commons/Utils: the other files of sharedUtils, with Values (optional.go,
--     result.go, pair.go, json.go, environment.go), Slices (fpHelpers.go), Counters
--     (concurrentCounter.go, generators.go), ApiKeys (apiKey.go) and Services (dsReadiness.go,
--     strings.go).
--   Mhd: Model (model.go, config.go), Segment (segment.go), Matching (matching.go), Store
--     (gtfs_store.go), Calendar (helpers.go, gtfs_store.go), Feed (the CSV of gtfs_store.go), Timetable
--     (buildDefinitions and refresh of gtfs_store.go), Week (main.go), Publish (publish.go), Runtime
--     (runtime.go), Attributes (the extraction in helpers.go), Live (ws_source.go, with the loops in
--     Live/Stream), Config (config.go), SdType (sdtype.go).
--   Ndic: Model (model.go), Xml (what the parser uses of encoding/xml), Elaborated and
--     Parser (parser.go), Labels (helpers.go, tmc.go), Tmc (tmc.go), Publish (publish.go), Runtime
--     (runtime.go), Fetch (fetch.go, main.go, config.go), SdType (sdtype.go).
--   Waze: Model (main.go), Parsing (parsing.go), Aggregation (aggregation.go), Publish (publish.go),
--     Lifecycle (lifecycle.go), SdType (registerSDType of lifecycle.go).
-- A function has the name of the Go function in snake case. The package's variables are a record
-- Runtime, which a function takes and gives back beside the messages that it hands to the publishing
-- functions, in their order. A loop over a map is a recursion on an association list, whose order
-- stands for the order that Go leaves open. Where sort.Slice leaves the order of equal items open, the
-- model has the order of a stable sort.
--
-- Bounds. The loop of PublishJSONBatches runs on fuel, one more than the length of the tuple: each
-- round goes on by at least one item. The loop of activeServiceDates has eight rounds for the seven
-- days of a week. The loop of ensureChannel goes on as long as the broker is away, so its fuel is an
-- argument; one more than the number of attempts that fail is enough. The loops that consume messages
-- run over a list of events, those of the WebSocket over the messages of each connection. The parser's
-- loops have one round more of fuel than the document has tokens: each round takes a token at least,
-- and the loop over a payload runs on what is left of it. Every other loop is a structural recursion. A time is a whole number of
-- nanoseconds without a bound; a difference of two times stops at the bounds of 64 bits as
-- in Go, and negation and subtraction of durations wrap around. Counts of jams are not bounded.
--
-- Outside the model: the network, files, environment and logging (but for the lines of
-- logUnmatchedRecord and logSampleLivePayload, of which the key or the number and payload are kept); the decoding of JSON, XML, CSV and
-- ZIP; clock and random numbers, which are arguments; float64 arithmetic, and the
-- conversions of fmt, strconv and hash/fnv, which are parameters. An update of the known instances
-- falls between two inputs, not into the processing of one. Sending fails without an effect on the
-- state, since the programs only log it. The AMQP library is a record of operations, and time zones
-- are one with the calendar of a location. An XML document is given by its tokens, a JSON text by its
-- tree, and a WebSocket by the messages that it brings. The watch over a quiet stream is modelled by
-- itself, and the pings that keep a stream alive are not. Not modelled are parseAPIMap, the contracts
-- of sharedModel that no preprocessor uses, and the utilities that only wrap a library.
pub mod Base
pub mod Commons
pub mod Mhd
pub mod Ndic
pub mod Waze
