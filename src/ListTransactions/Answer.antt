-- ===== src/ListTransactions/Answer.antt =====
-- src/JSONInterface/JsonListTransactions.cpp: what a successful answer of /listTransactions holds.
use gradido_blockchain_conne.Base.{
  String, some, List, [], ◌∷◌, ◌≡◌, refl, sym, ap, ◌∙◌, subst, Pointwise,
}
use gradido_blockchain_conne.Json.{
  Json, Items, Fields, str, arr, obj, find_member, find_field, add_member, set_member, array, items,
}
use gradido_blockchain_conne.Exec.{
  Base, gradido, poco, runtime, standard, foreign, state_error, Exception, ok, ◌>>=◌, state_success,
  Document, try_catch, handle_thrown,
}
use gradido_blockchain_conne.Exec.Rules.{bind-ok-elim}
use gradido_blockchain_conne.Exec.Succeeds.{OnSuccess, Succeeds-Quiet, Succeeds-respond}
use gradido_blockchain_conne.Exceptions.{base_of}
use gradido_blockchain_conne.Access.{fields_of, array_of}
use gradido_blockchain_conne.Access.Rules.{fields_of-ok, deref-ok}
use gradido_blockchain_conne.Platform.{
  Library, Outside, Session, deref, call, answer, fails, Reply, of_reply,
}
use gradido_blockchain_conne.ServerConfig.{ServerConfig}
use gradido_blockchain_conne.SessionManager.{get_session}
use gradido_blockchain_conne.Tables.{load_user_names_for_pubkeys}
use gradido_blockchain_conne.ListTransactions.{
  member_of, with_names, show_list, collect_pubkeys, list_transactions, handle, node_failed,
}
use gradido_blockchain_conne.ListTransactions.Keys.{member_of-ok}
use gradido_blockchain_conne.ListTransactions.Quiet.{list_transactions-Quiet}
use gradido_blockchain_conne.ListTransactions.Shown.{
  RemovesOnly, Shown, pure-ok, array_of-ok, show_transactions-Shown,
}

OnSuccess-map :
    {P Q : List (String × Json) → Type 0} (d : Document)
    → OnSuccess P d
    → ((members : List (String × Json)) → P members → Q members)
    → OnSuccess Q d
OnSuccess-map (state_success members) p f = f members p
OnSuccess-map (state_error message extra) p f = tt

same_items : (ts : List Json) → Pointwise Shown ts ts
same_items [] = tt
same_items (t ∷ ts) = (λ unique n user memo. refl, same_items ts)

-- The list of the answer of the node, with its transactions as they are shown.
pub record IsListing (answered : Json) (members : List (String × Json)) : Type 0 where
  pub result : Json
  pub listed : Fields
  pub values : Items
  pub shown : List Json
  pub in_answer : find_member "result" answered ≡ some result
  pub in_result : find_member "transactionList" result ≡ some (obj listed)
  pub in_list : find_field "transactions" listed ≡ some (arr values)
  pub each : Pointwise Shown (items values) shown
  pub members_are :
      members ≡ ("transactionList", obj (set_member "transactions" (array shown) listed)) ∷ []

module _ (L : Library) (O : Outside L) (C : ServerConfig) (removes : RemovesOnly L) where
  with_names-Shown :
      (pubkeys : List String) (key : L.Key) (ts shown : List Json) (w w' : O.W)
      → with_names L O C pubkeys key ts w ≡ (ok shown, w')
      → Pointwise Shown ts shown
  unfolding with_names
  with_names-Shown [] key ts shown w w' h =
      subst (Pointwise Shown ts) (pure-ok ts shown w w' h) (same_items ts)
  with_names-Shown (pubkey ∷ pubkeys) key ts shown w w' h =
      bind-ok-elim (load_user_names_for_pubkeys L O (pubkey ∷ pubkeys)) _ w h
        (λ names w₁ e₁ h₁. show_transactions-Shown L removes names key ts shown w₁ w' h₁)

  show_list-IsListing :
      (key : L.Key) (answered : Json) (d : Document) (w w' : O.W)
      → show_list L O C key answered w ≡ (ok d, w')
      → OnSuccess (IsListing answered) d
  unfolding show_list
  show_list-IsListing key answered d w w' h =
      bind-ok-elim (member_of "result" answered >>= member_of "transactionList") _ w h
        (λ list w₁ e₁ h₁.
          bind-ok-elim (member_of "transactions" list >>= array_of) _ w₁ h₁ (λ ts w₂ e₂ h₂.
            bind-ok-elim (collect_pubkeys [] ts) _ w₂ h₂ (λ pubkeys w₃ e₃ h₃.
              bind-ok-elim (with_names L O C pubkeys key ts) _ w₃ h₃ (λ shown w₄ e₄ h₄.
                bind-ok-elim (fields_of list) _ w₄ h₄ (λ fields w₅ e₅ h₅.
                  bind-ok-elim (member_of "result" answered) (member_of "transactionList") w e₁
                    (λ result v₁ f₁ g₁.
                      bind-ok-elim (member_of "transactions" list) array_of w₁ e₂
                        (λ array_value v₂ f₂ g₂.
                          let (values, is_array, are) = array_of-ok array_value v₂ w₂ ts g₂ in
                          let is_object = (fields_of-ok list w₄ w₅ fields e₅).0 in
                          subst (OnSuccess (IsListing answered)) (pure-ok _ d w₅ w' h₅) (record {
                            result = result;
                            listed = fields;
                            values = values;
                            shown = shown;
                            in_answer = member_of-ok "result" answered w v₁ result f₁;
                            in_result =
                                member_of-ok "transactionList" result v₁ w₁ list g₁
                                ∙ ap some is_object;
                            in_list =
                                ap (find_member "transactions") (sym is_object)
                                ∙ member_of-ok "transactions" list w₁ v₂ array_value f₂
                                ∙ ap some is_array;
                            each =
                                subst (λ xs. Pointwise Shown xs shown) (sym are)
                                  (with_names-Shown pubkeys key ts shown w₃ w₄ e₄);
                            members_are = refl;
                          }))))))))

  -- The session of the token, the request to the node for its user, and what was made of the answer.
  pub record Answered (jwt client_ip : String) (params : Json) (members : List (String × Json))
      (w : O.W) : Type 0 where
    pub session : Session L
    pub key : L.Key
    pub fields : Fields
    pub answered : Json
    pub w₁ : O.W
    pub w₂ : O.W
    pub logged_in : get_session L O C jwt client_ip w ≡ (ok session, w₁)
    pub has_key : session.key_pair ≡ some key
    pub given : params ≡ obj fields
    pub asked :
        O.node_request "listtransactions"
          (add_member "groupAlias"
            (str session.group_alias)
            (add_member "pubkey" (str (L.bin_to_hex (L.public_key key))) fields))
          w₁
        ≡ (answer answered, w₂)
    pub listing : IsListing answered members

  failed-ne-ok :
      (b : Base) (e : Exception) (w w' : O.W) (a : Json) → node_failed L O C b e w ≡ (ok a, w') → ⊥
  failed-ne-ok gradido e w w' a h = cc
  failed-ne-ok poco e w w' a h = cc
  failed-ne-ok runtime e w w' a h = cc
  failed-ne-ok standard e w w' a h = cc
  failed-ne-ok foreign e w w' a h = cc

  caught-ok :
      (r : Reply Json × O.W) (a : Json) (w' : O.W)
      → handle_thrown (of_reply r) (λ e. node_failed L O C (base_of L e) e) ≡ (ok a, w')
      → r ≡ (answer a, w')
  caught-ok (answer b, w) a w' h = cc
  caught-ok (fails e, w) a w' h = absurd (failed-ne-ok (base_of L e) e w w' a h)

  list-Answered :
      (jwt client_ip : String) (params : Json) (d : Document) (w w' : O.W)
      → list_transactions L O C jwt client_ip params w ≡ (ok d, w')
      → OnSuccess (λ members. Answered jwt client_ip params members w) d
  unfolding list_transactions
  list-Answered jwt client_ip params d w w' h =
      bind-ok-elim (get_session L O C jwt client_ip) _ w h (λ session w₁ e₁ h₁.
        bind-ok-elim (fields_of params) _ w₁ h₁ (λ fields w₂ e₂ h₂.
          bind-ok-elim (deref session.key_pair) _ w₂ h₂ (λ key w₃ e₃ h₃.
            bind-ok-elim (try_catch (call (O.node_request "listtransactions" _)) _) _ w₃ h₃
              (λ answered w₄ e₄ h₄.
                let (given, same) = fields_of-ok params w₁ w₂ fields e₂ in
                let (has_key, same') = deref-ok session.key_pair w₂ w₃ key e₃ in
                let asked = caught-ok _ answered w₄ e₄ in
                OnSuccess-map d (show_list-IsListing key answered d w₄ w' h₄) (λ members listing.
                  record {
                    session = session;
                    key = key;
                    fields = fields;
                    answered = answered;
                    w₁ = w₁;
                    w₂ = w₄;
                    logged_in = e₁;
                    has_key = has_key;
                    given = given;
                    asked = ap (O.node_request "listtransactions" _) (same ∙ same') ∙ asked;
                    listing = listing;
                  })))))

  -- If RemoveMember keeps the members of other names where no name stands twice, then a request to
  -- /listTransactions that is answered with success had a token that getSession takes, and a key:
  -- the node was asked with the members of the request, behind which this key and the group of the
  -- session were added, and the answer is the list of the node with its transactions in their order.
  -- Each in which no name stands twice has the same members but for the user and the memo.
  pub handle-Answered :
      (jwt client_ip : String) (params : Json) (members : List (String × Json)) (w w' : O.W)
      → handle L O C jwt client_ip params w ≡ (ok (state_success members), w')
      → Answered jwt client_ip params members w
  unfolding handle
  handle-Answered jwt client_ip params members w w' h =
      Succeeds-respond (λ ms. Answered jwt client_ip params ms w)
        (list_transactions L O C jwt client_ip params) w w' (state_success members)
        (Succeeds-Quiet _ (list_transactions L O C jwt client_ip params) w
          (list_transactions-Quiet L O C jwt client_ip params)
          (λ d w₁ e. list-Answered jwt client_ip params d w w₁ e))
        h
