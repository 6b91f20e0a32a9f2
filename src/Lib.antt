-- ===== src/Lib.antt =====
-- architecture_course: a collection of small servers that keep their data in memory. Paths are from
-- the repository's root.
--
-- `Prelude` has what the components share: tests on the native numbers and strings, lists, results
-- with the source's error messages, maps as association lists with the laws of their operations,
-- signed integers, decimal numerals, JSON values, the routes of the HTTP servers (`Http`), and `Double`, the operations on doubles as a parameter with
-- the laws of IEEE 754 that are used. The order of an association list stands for the order in
-- which an unordered map is iterated, which the sources leave open.
--
-- `Auction` is src/websocket_auction_server. `Auction.Types` is the state of auction_manager.h,
-- `Auction.Manager` the public operations of `AuctionManager` (auction_manager.cpp) and
-- `Auction.AutoBid` its private loop, `ApplyAutoBids`; each operation runs under the manager's
-- mutex and is one function from the manager to a result and a manager. `Auction.Session` is the
-- dispatch of requests in session.cpp (`HandleRequest`, `HandleAction`), which calls the manager
-- and broadcasts events; what it reads of a JSON request is a parameter, the record `Requests`, and
-- `Auction.Session.Encoding` has the JSON values that it sends. The writes of a session
-- (`QueueWrite`, `DoWrite`, `OnWrite`) are in `Auction.Session.WriteQueue`: its strand runs them
-- one at a time, and a relation says which states they lead to. `Auction.Server` is server.cpp with
-- the callbacks of the sessions that reach it: the set of sessions, `Broadcast`, and each session's
-- writes; `Auction.Server.Runs` has its runs, in which clients join, leave, send requests and fail.
-- A request is read up to the end of its call of the manager in one step (`get_state` reads users and
-- items by two calls, which the model makes one); the snapshot of each of its broadcasts, each delivery
-- and its answer are steps of their own, and those of other sessions may come between any two.
-- `Auction.Server.Hearing` is what a log of the steps says of a session.
--
-- `Shop` is src/grpc_server. `Shop.Types` and `Shop.Storage` are `InMemoryStorage`, `Shop.Service`
-- the twelve handlers of `EcommerceServiceImpl`, which call the storage and turn its answers into
-- statuses. `Shop.Calls` lists the calls that change the storage.
--
-- `Rest` is src/rest_server/main.cpp: `Rest.Database` is its class `Database`, `Rest.Handlers` the
-- handlers of books and authors over it, with what they read of a JSON body as a parameter, and
-- `Rest.Query` the text of a query. `Rest.Documents` is the JSON of the responses and `Rest.Server`
-- the table of routes, by which requests reach the handlers.
--
-- `Chat` is src/long_polling_chat_server: `Chat.Manager` the class `ChatManager` (chat_manager.h,
-- chat_manager.cpp), `Chat.Handlers` the handlers of main.cpp, which authenticate the caller and
-- turn the manager's results into statuses, `Chat.Query` the numbers in a query, and `Chat.Keys`
-- the keys. A poll is two steps of the manager, before and after its wait. `Chat.Server` is the table
-- of routes with the JSON of the responses, and its `serve_calls` serves requests one after the other.
-- A poll that waits is left with its room and bounds (`Waiting`), and `wake` answers it in the chat as it
-- is when the wait ends, whenever that is. The pool of threads is the HTTP library's.
--
-- `Soap` is src/soap_server: `Soap.Task` task.h and task.cpp, `Soap.Manager` the class
-- `TaskManager` (task_manager.h, task_manager.cpp), `Soap.File` the bytes of its data file,
-- `Soap.Server` the dispatch of a message and the four operations of soap_server.cpp, over an XML
-- library as a parameter, and `Soap.Connection` its connections and the texts of the responses.
-- `Soap.Interleaved` has the calls of two clients.
--
-- `Rpc` is src/json_rpc_server. `Rpc.Secrets` is the class `SecretDataManager`
-- (secret_data_manager.h, secret_data_manager.cpp) and `Rpc.Methods` what it registers, with
-- the schemas of `Rpc.Schemas`; `Rpc.Results` is the JSON that the methods return;
-- `Rpc.Registry` is `MethodRegistry` (method_registry.h, method_registry.cpp), and `Rpc.Session`
-- the answers of session.cpp to requests, batches and other texts, over JSON values as a parameter.
-- `Rpc.Server` has the callbacks of server.cpp and of the sessions, which run in any order and end in
-- any way; `Rpc.Server.run` is a run of them.
--
-- `Webhook` is src/webhook_example_server/main.cpp: `Webhook.Store` is `EventStore`,
-- `Webhook.Server` `HandleRequest`, `DoSession` and the loop of `main`. `Sse` is
-- src/sse_example_server/main.cpp: `Sse.Stream` has the writes of a connection, each of which may
-- fail.
--
-- `Logger` is src/logger: `Logger.Factory` is `LoggerFactory` (logger.h, logger.cpp), over quill as
-- a parameter.
--
-- `Startup` is `main` of grpc_server, websocket_auction_server, json_rpc_server, soap_server,
-- rest_server and long_polling_chat_server (main.cpp of each): what it makes of cfg.toml, with
-- `Logger.Factory`, up to the server that listens or the status with which it exits.
--
-- Bounds. The loop of `ApplyAutoBids` runs on fuel; `Auction.Termination` says how much is enough,
-- and `Auction.Divergence` when no amount is. Ids count up from 1 and are not run past 2^63 - 1; an
-- `int64_t` id from a request stands for its bit pattern. Amounts are doubles, NaN included: a
-- `double` is a value of any type with the operations of `Double`, and a theorem that needs a law
-- of doubles says so by the hypothesis `IsIeee`, which whole cents meet. The offset of a page of
-- books is an `int`, with its overflow written out; the id of a webhook event is a `uint64_t`, with
-- its wrap-around. The numbers of the data file have eight and four bytes.
--
-- Not modelled: the sockets, threads, signals and log lines of each server;
-- JSON, XML, HTTP and protocol buffers, beyond what the handlers read of them and the texts of the
-- event stream and of SOAP. A schema of a registered method is a value that the program keeps and never
-- reads; `Rpc.Conforming` says what it asks.
pub mod Prelude
pub mod Auction
pub mod Shop
pub mod Rest
pub mod Chat
pub mod Soap
pub mod Rpc
pub mod Webhook
pub mod Sse
pub mod Logger
pub mod Startup
