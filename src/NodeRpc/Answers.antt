-- ===== src/NodeRpc/Answers.antt =====
-- What a successful answer of the Gradido Node is turned into.
use gradido_blockchain_conne.Base.{ℕ, String, ◌≡◌, ◌≢◌, ◌↔◌, Option, none, some, arith}
use gradido_blockchain_conne.Json.{Json, str, obj, end, field, num, find_field}
use gradido_blockchain_conne.Exec.{
  Exception, library, Exec, Result, ok, returned, thrown, aborted, handle_thrown, ◌>>=◌, resume,
}
use gradido_blockchain_conne.Platform.{Library, Outside, Reply, answer, fails, call}
use gradido_blockchain_conne.Access.{member, required, string_of}
use gradido_blockchain_conne.NodeRpc.{
  handle_gradido_node_rpc_exception, request_member, get_address_balance, get_address_type,
  get_creation_sum_for_month,
}

-- The text under `name` in the object under `result`.
text_of : Option Json → Option String
text_of (some (str t)) = some t
text_of _ = none

inner : String → Option Json → Option String
inner name (some (obj fields)) = text_of (find_field name fields)
inner name _ = none

pub text_at : String → Json → Option String
unfolding inner text_of
text_at name (obj fields) = inner name (find_field "result" fields)
text_at name _ = none

module _ (L : Library) (O : Outside L) where
  -- The accesses that follow a request.
  body : String → String → String → Json → Exec O.W Json
  body no_result name no_member result = do
    found ← member "result" result
    value ← required found no_result
    inner ← member name value
    required inner no_member

  -- A request for a text, with the reply of the node in place of the request.
  after : String → String → String → Reply Json × O.W → Result String × O.W
  unfolding body
  after no_result name no_member r =
      handle_thrown
        (resume (resume (call (λ (w : O.W). r) r.1) (body no_result name no_member)) string_of)
        (handle_gradido_node_rpc_exception L O)

  module _ (no_result name no_member : String) (j : Json) (w w' : O.W) (t : String) where
    body-text_at :
        (body no_result name no_member j >>= string_of) w ≡ (ok t, w')
        → (text_at name j ≡ some t) × (w ≡ w')
    unfolding body text_at
    body-text_at h = ground arith

    text_at-body :
        text_at name j ≡ some t → (body no_result name no_member j >>= string_of) w ≡ (ok t, w)
    unfolding body text_at
    text_at-body h = ground arith

  handle-ne-ok :
      (e : Exception) (w w' : O.W) (t : String)
      → handle_gradido_node_rpc_exception L O e w ≢ (ok t, w')
  unfolding handle_gradido_node_rpc_exception
  handle-ne-ok (library c text) w w' t h = ground arith
  handle-ne-ok e w w' t h = ground arith

  handled-ok :
      (r : Result String × O.W) (w' : O.W) (t : String)
      → handle_thrown r (handle_gradido_node_rpc_exception L O) ≡ (ok t, w')
      → r ≡ (ok t, w')
  handled-ok (ok a, w) w' t h = h
  handled-ok (returned d, w) w' t h = cc
  handled-ok (thrown e, w) w' t h = absurd (handle-ne-ok e w w' t h)
  handled-ok (aborted, w) w' t h = cc

  abbrev pub Reads : String → Result String × O.W → Reply Json × O.W → Type 0
  Reads name outcome r =
      (t : String) (w' : O.W)
      → (outcome ≡ (ok t, w')) ↔ ((j : Json) × (r ≡ (answer j, w')) × (text_at name j ≡ some t))

  after-Reads :
      (no_result name no_member : String) (r : Reply Json × O.W)
      → Reads name (after no_result name no_member r) r
  unfolding after
  after-Reads a name b (answer j, w) t w' = (
    λ h. (let (e, same) = body-text_at a name b j w w' t (handled-ok _ w' t h) in (j, rw same, e)),
    λ (k, e, h).
        (let held : text_at name j ≡ some t = cc h in
          rw (text_at-body a name b j w w' t held) (cc e)),
  )
  after-Reads a name b (fails x, w) t w' = (λ h. absurd (handle-ne-ok x w w' t h), λ (j, e, h). cc)

  -- Each of the three requests for a text ends well exactly if the node answers with an object whose
  -- `result` has that text under the member that is asked for, and then it returns that text.
  pub texts_read :
      (pubkey_hex date_string group_alias coin_group_id : String) (month year : ℕ) (w : O.W)
      → Reads "balance"
          (get_address_balance L O pubkey_hex date_string group_alias coin_group_id w)
          (O.node_request "getaddressbalance"
            (field "coinGroupId" (str coin_group_id) (
              field "date"
                (str date_string)
                (field "pubkey" (str pubkey_hex) (field "groupAlias" (str group_alias) end))))
            w)
        × Reads "addressType" (get_address_type L O pubkey_hex group_alias w) (
            O.node_request "getaddresstype"
              (field "pubkey" (str pubkey_hex) (field "groupAlias" (str group_alias) end))
              w)
        × Reads "sum"
            (get_creation_sum_for_month L O pubkey_hex month year date_string group_alias w)
            (O.node_request "getcreationsumformonth"
              (field "pubkey" (str pubkey_hex) (
                field "month" (num month) (
                  field "year" (num year) (
                    field "startSearchDate"
                      (str date_string)
                      (field "groupAlias" (str group_alias) end)))))
              w)
  unfolding get_address_balance get_address_type get_creation_sum_for_month request_member after
      body
  texts_read pubkey_hex date_string group_alias coin_group_id month year w = (
    after-Reads "missing result from getaddressbalance" "balance"
        "missing in result from getaddressbalance" (O.node_request _ _ w),
    after-Reads "missing result from getaddresstype" "addressType"
        "missing in result from getaddressbalance" (O.node_request _ _ w),
    after-Reads "missing result from getcreationsumformonth" "sum"
        "missing in result from getcreationsumformonth" (O.node_request _ _ w),
  )
