-- ===== src/Lib.antt =====
-- The analytics service of a food delivery platform. It listens to events about orders and
-- payments, keeps counters per day for restaurants, branches, products and the platform in
-- MongoDB, and answers queries about them over HTTP.
--
-- How an event travels. The broker hands a delivery to the loop of pkg/messaging/amqp.go
-- (`Consume`), modelled in Messaging. lib/coreevents/consumer.go reads its envelope, marks its id
-- as seen and finds the handler of its routing key: CoreEvents/Consumer, with the envelope in
-- CoreEvents/Codec. app/analytics/eventhandlers/handlers.go decodes the payload: EventHandlers.
-- Then app/analytics/service/analytics_service.go finds the day and writes the counters:
-- Service/Events, over app/analytics/repository: Repository and its children, one for each Go
-- file. The other way, a request is parsed by app/analytics/dto (Dto/Requests), answered by the
-- queries of the service (Service/Queries) through
-- app/analytics/controller/analytics_controller.go (Controller), and sent by lib/http/response.go
-- and lib/errors/handler.go (Http). On its way it passes lib/middleware (Middleware), lib/auth,
-- which reads the claims of its token (Auth), and lib/rbac, which looks for the permissions of its
-- role (Rbac) in a cache over lib/coreclient (CoreClient) and pkg/httpclient (HttpClient);
-- Controller/Routes composes these as app/analytics/controller/routes.go does. lib/boot/boot.go
-- (Boot) starts all of it, with the configuration of lib/config (Config), the connection of
-- pkg/mongo (Mongo/Connection), the indexes of app/analytics/repository/indexes.go
-- (Repository/Indexes) and two brokers (Messaging/Broker); its second consumer drops cached
-- permissions (Boot/CoreConsumer). lib/appcontext is AppContext. Names are those of the Go code in
-- snake_case; HandleOrderPlaced is handle_order_placed. Analytics holds the types, entities,
-- errors and constants.
--
-- State and effects. An operation is a function from an abstract outside world to a result and the
-- next world (Effect); a Go error is a value, and what was written before it stays written. The
-- driver of MongoDB is not part of the repository: it is a parameter, the record Driver of
-- Mongo/Driver, with the laws of its documentation as records that theorems take as hypotheses:
-- WriteLaws for UpdateOne and the clock, ReadLaws for Find and decoding, UniqueIndex for
-- InsertOne. The operators of filters and updates are in Mongo/Document. Mongo/Memory is a
-- database in memory that meets all the laws; Tests runs the service on it. Also parameters are
-- Go's package time (Service/Calendar), json.Unmarshal (CoreEvents/Codec), strconv.Atoi, the
-- broker's channel, whose Ack and Nack are assumed to touch no collection, the AMQP library
-- (Messaging/Broker), net/http as a client (HttpClient), the JWT library with the law that a
-- parsed token was signed (Auth/Token), and the environment and the signals of the process
-- (Config, Boot). A panic is a value where the code can panic (Auth/Token).
--
-- The abstract view. Repository/Book sums the counters of all documents of a key, and
-- Service/Ledger says what each event does to it. Service/Refinement, Service/Handlers and
-- EventHandlers/Dispatch, Pipeline, Once and Delivery relate the code to it; the modules named
-- Progress are about what returns on a database that is up (Mongo/Up), and EventHandlers/Settled
-- about how deliveries are settled, over what leaves the broker's record alone (the modules named
-- Untouched). Service/Reports and its users are about the queries.
--
-- Bounds. Go's int and int64 are integers without a bound: the code compares them and divides by a
-- positive count, and the additions happen in the database. A claim that is a float64 loses its
-- fraction on the way to an int (Auth/Token); what does not fit in 64 bits becomes what the
-- platform makes of it, a parameter. All loops run over lists, but for the three attempts of an
-- HTTP call, which are counted down from 3, so no other fuel is needed. Each document is read and
-- written by one call at a time; the deliveries are handled one after another, as in the loop. A
-- theorem about a call that succeeds says nothing of one that fails, unless it says so.
--
-- Not modelled: the text of logs, but for the line of a request; the encoding of JSON; the expiry
-- of event ids; timeouts and cancellation; how chi matches a pattern; the HTTP server; calls that
-- run at the same time.
pub mod Prelude
pub mod Effect
pub mod Mongo
pub mod Analytics
pub mod Repository
pub mod Service
pub mod CoreEvents
pub mod EventHandlers
pub mod Messaging
pub mod Middleware
pub mod Http
pub mod Dto
pub mod Controller
pub mod HttpClient
pub mod CoreClient
pub mod Rbac
pub mod AppContext
pub mod Auth
pub mod Boot
pub mod Config
pub mod Tests
