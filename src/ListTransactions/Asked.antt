-- ===== src/ListTransactions/Asked.antt =====
-- src/JSONInterface/JsonListTransactions.cpp: the one call of the database for the names.
use gradido_blockchain_conne.Base.{String, ◌&&◌, some, List, [], ◌∷◌, ◌≡◌, nonempty}
use gradido_blockchain_conne.Json.{Json, Items, arr, find_member, items}
use gradido_blockchain_conne.Exec.{ok}
use gradido_blockchain_conne.Platform.{Library, Outside, answer}
use gradido_blockchain_conne.ServerConfig.{ServerConfig}
use gradido_blockchain_conne.Tables.{insert_names}
use gradido_blockchain_conne.ListTransactions.{contains, show_transactions}
use gradido_blockchain_conne.ListTransactions.Keys.{Distinct, has_pubkey}

module _ (L : Library) (O : Outside L) (C : ServerConfig) where
  -- With no key nothing is asked and nothing changed; else one call asks for these keys, and the
  -- transactions are shown with the names that it gives.
  abbrev pub Asked : List String → L.Key → List Json → List Json → O.W → O.W → Type 0
  Asked [] key ts shown w w' = (shown ≡ ts) × (w' ≡ w)
  Asked (pubkey ∷ pubkeys) key ts shown w w' =
      (rows : List (String × String)) × (w₁ : O.W) × (O.select_names (pubkey ∷ pubkeys) w
        ≡ (answer rows, w₁))
      × (show_transactions L (insert_names rows []) key ts w₁ ≡ (ok shown, w'))

  -- The transactions that the answer of the node lists, and how their names were asked for.
  pub record NamesAsked (key : L.Key) (answered : Json) (w w' : O.W) : Type 0 where
    pub result : Json
    pub list : Json
    pub values : Items
    pub in_answer : find_member "result" answered ≡ some result
    pub in_result : find_member "transactionList" result ≡ some list
    pub in_list : find_member "transactions" list ≡ some (arr values)
    pub found : List String
    pub shown : List Json
    pub distinct : Distinct found
    pub exactly :
        (name : String) → contains name found ≡ (has_pubkey name (items values) && nonempty name)
    pub asked : Asked found key (items values) shown w w'
