-- ===== src/Routing.antt =====
-- src/JSONInterface/JsonRequestHandlerFactory.cpp: which handler answers a request. The first part of
-- the path is what a regular expression of Poco extracts from the URI.
pub mod Paths
mod Tests
use gradido_blockchain_conne.Base.{String, str_eq, if◌then◌else◌, Bool, true, false}

-- The classes of the handlers.
pub data Handler : Type 0 where
  pack_transaction send_transaction_iota creation transfer register_address : Handler
  login open_connection transaction_listener list_transactions : Handler
  get_pending_transactions unknown : Handler

-- createRequestHandler, from `url_first_part`
unfoldable pub create_request_handler : String → Handler
create_request_handler url_first_part =
    if str_eq url_first_part "/packTransaction"
    then pack_transaction
    else if str_eq url_first_part "/sendTransactionIota"
    then send_transaction_iota
    else if str_eq url_first_part "/creation"
    then creation
    else if str_eq url_first_part "/transfer"
    then transfer
    else if str_eq url_first_part "/registerAddress"
    then register_address
    else if str_eq url_first_part "/login"
    then login
    else if str_eq url_first_part "/openCommunication"
    then open_connection
    else if str_eq url_first_part "/notify"
    then transaction_listener
    else if str_eq url_first_part "/listTransactions"
    then list_transactions
    else if str_eq url_first_part "/listPending"
    then get_pending_transactions
    else unknown
