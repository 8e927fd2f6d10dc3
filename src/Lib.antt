-- ===== src/Lib.antt =====
-- Gradido Blockchain Connector: the core of the server between the Apollo server, the Gradido Node
-- and iota, as functions and step relations, with what makes them correct.
--
-- A client logs in (src/SessionManager.cpp, src/model/Session.cpp), which derives a key from the
-- password, at most one per user at a time (src/PasswordEncryptionRateLimiter.cpp), looks the user
-- up in the tables (src/model/table) and gives a token. With the token it asks for a transaction
-- (src/JSONInterface/JsonCreationTransaction.cpp, JsonTransferTransaction.cpp and
-- JsonRegisterAddressTransaction.cpp, over JsonTransaction.cpp); the handler checks it with the
-- Gradido Node (src/GradidoNodeRPC.cpp), signs it with the key of the session, hands it to iota or to
-- the node, and keeps it in the list of pending transactions (src/model/PendingTransactions.cpp),
-- whose entries the node later confirms or rejects.
--
-- The files:
--   Base, Json, Exec    what all parts share: Booleans, lists, JSON values, and calls that change a
--                       state and return, answer early, throw or abort.
--   Platform, Access    the libraries (gradido_blockchain, Poco, MPFR, libsodium) and the services
--                       outside the process (clock, node, iota, database, cache) as parameters
--                       `Library` and `Outside`; reading JSON with rapidjson.
--   Exceptions          the exception classes and getFullString.
--   Pending             PendingTransactions: the list, oldest entry first; `none` is a read behind
--                       the end of a string in memcmp.
--   RateLimiter         PasswordEncryptionRateLimiter: each stretch under the lock is one step of a
--                       thread; the waiting loop runs on fuel, and 501 rounds are enough, since each
--                       sleeps 200 ms and the loop gives up after 100 s.
--   NodeRpc             the functions of the namespace gradidoNodeRPC.
--   ServerConfig        the global settings: initServerCrypto and unload.
--   ConnectionManager   the connection to the configured database; Poco's pools are a parameter.
--   Tables              load and save of Group, User and UserBackup, getLastInsertId.
--   Session             model::Session: loginOrCreate, getGroupId, createNewUser, verifyPassword,
--                       signTransaction.
--   SessionManager      login and both forms of getSession.
--   Transaction         JsonTransaction: readSharedParameter, signAndSendTransaction,
--                       validateApolloDecay and the handling of exceptions.
--   Creation, RegisterAddress, Transfer
--                       `handle` of the three handlers, each split into its stretches.
--   Listener            the handler of /notify: JsonTransactionListener.
--   Migrations          VersionsManager::migrate over the tables and migration rows of a database, whose
--                       connections and statements may throw.
--   Pack                JsonPackTransaction: the transactions that are built and not sent.
--   SendTransaction     JsonSendTransactionIota: a signed transaction is put together and checked.
--   Login, OpenConnection
--                       the two handlers that give tokens; `none` is an empty document.
--   ListTransactions    JsonListTransactions: the list of the node with names and clear memos.
--   Routing             JsonRequestHandlerFactory::createRequestHandler, from the first part of the path.
--   Server              the handler of a request is chosen and called, for one request after the other;
--                       JsonGetPendingTransactions and JsonUnknown.
--   Process             GradidoBlockchainConnector::main: settings, connection, migration, requests
--                       and the end.
--   Demo                a concrete server for tests.
--
-- A method of a C++ class is a function in snake_case; its object is an argument and, where it is
-- changed, part of the result. The members of a handler are the record `JsonTransaction`, the whole
-- state of the process is `Platform.State`. An `int` group id is kept as its 32 bits. Memory that is
-- released, log messages and printf are left out. A null pointer that is read is `aborted`, as is a
-- rapidjson access to a value of another type.
--
-- Not modelled: threads that answer requests at the same time (the list and the cache take a lock for
-- each call), the logging of requests, the certificates for SSL, loggers, options and sockets, which
-- are calls of Poco. JsonRequestHandler, which reads the parameters of a request and writes the answer,
-- is part of gradido_blockchain.
pub mod Base
pub mod Json
pub mod Exec
pub mod Pending
pub mod Platform
pub mod Access
pub mod Exceptions
pub mod NodeRpc
pub mod ServerConfig
pub mod Tables
pub mod Session
pub mod SessionManager
pub mod Transaction
pub mod Creation
pub mod RegisterAddress
pub mod Transfer
pub mod Pack
pub mod Login
pub mod Server
pub mod ConnectionManager
pub mod Process
pub mod ListTransactions
pub mod OpenConnection
pub mod SendTransaction
pub mod Listener
pub mod Migrations
pub mod Routing
pub mod RateLimiter
pub mod Demo
