-- ===== src/NodeRpc.antt =====
-- src/GradidoNodeRPC.cpp: the requests to the Gradido Node.
pub mod Failures
pub mod Answers
use gradido_blockchain_conne.Base.{ℕ, String, List, [], ◌∷◌, Option, none, some}
use gradido_blockchain_conne.Json.{Json, num, str, arr, obj, Fields, end, field, find_field, items}
use gradido_blockchain_conne.Exec.{
  Base, gradido, poco, runtime, standard, foreign, LibraryClass, rapidjson_missing_member,
  request_response_error, Exception, library, other, node_rpc_exception, what, Exec, ok, pure,
  throw, abort, thrown, resume, handle_thrown, ◌>>=◌, ◌>>◌, try_catch,
}
use gradido_blockchain_conne.Platform.{Library, Outside, call}
use gradido_blockchain_conne.Access.{member, string_of, array_of, uint64_all, required}
use gradido_blockchain_conne.Exceptions.{base_of, full_string}

module _ (L : Library) (O : Outside L) where
  -- The catch clauses of handleGradidoNodeRpcException in their order, by the base of the exception.
  normalised : Base → Exception → Exception
  normalised gradido e = node_rpc_exception "gradido blockchain exception" (full_string L e)
  normalised poco e = node_rpc_exception "Poco exception" (full_string L e)
  normalised runtime e = node_rpc_exception "std exception" (what e)
  normalised standard e = node_rpc_exception "std exception" (what e)
  normalised foreign e = e

  pub handle_gradido_node_rpc_exception : {A : Type 0} → Exception → Exec O.W A
  unfolding normalised base_of full_string what
  handle_gradido_node_rpc_exception (library request_response_error w) =
      throw (library request_response_error w)
  handle_gradido_node_rpc_exception e = throw (normalised (base_of L e) e)

  -- request, `result`, and the member that is asked for
  unfoldable pub request_member : String → Fields → String → String → String → Exec O.W Json
  request_member method params no_result name no_member = do
    result ← call (O.node_request method params)
    found ← member "result" result
    value ← required found no_result
    inner ← member name value
    required inner no_member

  unfoldable pub get_address_balance : String → String → String → String → Exec O.W String
  unfolding request_member
  get_address_balance pubkey_hex date_string group_alias coin_group_id =
      try_catch
        (request_member "getaddressbalance"
            (field "coinGroupId" (str coin_group_id) (
              field "date" (str date_string)
                (field "pubkey" (str pubkey_hex) (field "groupAlias" (str group_alias) end))))
            "missing result from getaddressbalance" "balance"
            "missing in result from getaddressbalance"
          >>= string_of)
        handle_gradido_node_rpc_exception

  unfoldable pub get_address_type : String → String → Exec O.W String
  unfolding request_member
  get_address_type pubkey_hex group_alias =
      try_catch
        (request_member "getaddresstype"
            (field "pubkey" (str pubkey_hex) (field "groupAlias" (str group_alias) end))
            "missing result from getaddresstype" "addressType"
            "missing in result from getaddressbalance"
          >>= string_of)
        handle_gradido_node_rpc_exception

  pub get_address_txids : String → String → Exec O.W (List ℕ)
  unfolding request_member
  get_address_txids pubkey_hex group_alias =
      try_catch
        (do
          numbers ←
              request_member "getaddresstxids"
                (field "pubkey" (str pubkey_hex) (field "groupAlias" (str group_alias) end))
                "missing result from getaddresstxids" "transactionNrs"
                "missing in result from getaddresstxids"
          values ← array_of numbers
          uint64_all values)
        handle_gradido_node_rpc_exception

  unfoldable pub get_creation_sum_for_month : String → ℕ → ℕ → String → String → Exec O.W String
  unfolding request_member
  get_creation_sum_for_month pubkey_hex month year start_date_string group_alias =
      try_catch
        (request_member "getcreationsumformonth"
            (field "pubkey" (str pubkey_hex) (
              field "month" (num month) (
                field "year" (num year) (
                  field "startSearchDate" (str start_date_string)
                    (field "groupAlias" (str group_alias) end)))))
            "missing result from getcreationsumformonth" "sum"
            "missing in result from getcreationsumformonth"
          >>= string_of)
        handle_gradido_node_rpc_exception

  pub put_transaction : String → ℕ → String → Exec O.W (Unit {0})
  put_transaction base64_transaction transaction_nr group_alias =
      try_catch
        (do
          result ← call (
              O.node_request "puttransaction" (
                field "transaction" (str base64_transaction) (
                  field "transactionNr" (num transaction_nr)
                    (field "groupAlias" (str group_alias) end))))
          found ← member "result" result
          _ ← required found "missing result from puttransaction"
          pure tt)
        handle_gradido_node_rpc_exception
