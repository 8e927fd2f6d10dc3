-- ===== src/ListTransactions.antt =====
-- src/JSONInterface/JsonListTransactions.cpp: the handler of /listTransactions, which shows what the
-- Gradido Node lists, with names for public keys and clear memos.
pub mod Quiet
pub mod Keys
pub mod Asked
pub mod Shown
pub mod Answer
use gradido_blockchain_conne.Base.{
  ℕ, String, Bool, true, false, ◌||◌, Option, none, some, List, [], ◌∷◌, ◌++◌, nonempty, str_eq,
  if◌then◌else◌,
}
use gradido_blockchain_conne.Json.{
  Json, Fields, str, obj, array, find_field, add_member, set_member,
}
use gradido_blockchain_conne.Exec.{
  Base, gradido, Exception, Document, state_success, Exec, ok, pure, throw, return_error, try_catch,
  handle_thrown, resume, ◌>>=◌, ◌>>◌, respond,
}
use gradido_blockchain_conne.Exceptions.{base_of}
use gradido_blockchain_conne.Platform.{Library, Outside, Session, call, deref}
use gradido_blockchain_conne.ServerConfig.{ServerConfig}
use gradido_blockchain_conne.Access.{member, fields_of, string_of, array_of}
use gradido_blockchain_conne.Session.{get_public_key}
use gradido_blockchain_conne.SessionManager.{get_session}
use gradido_blockchain_conne.Tables.{load_user_names_for_pubkeys, find_name}
use gradido_blockchain_conne.Transaction.{decrypt_memo}

-- std::find over the keys
abbrev pub contains : String → List String → Bool
contains key [] = false
contains key (other ∷ rest) = let later = contains key rest in str_eq other key || later

-- The two tests before push_back.
abbrev pub add_pubkey : String → List String → List String
add_pubkey key pubkeys =
    if nonempty key
    then (if contains key pubkeys then pubkeys else pubkeys ++ key ∷ [])
    else pubkeys

module _ {S : Type 0} where
  -- An iterator that FindMember gives is read without a test.
  abbrev pub member_of : String → Json → Exec S Json
  member_of name j = member name j >>= deref

  unfoldable pub linked_pubkey : Json → Exec S String
  linked_pubkey transaction =
      member_of "linkedUser" transaction >>= member_of "pubkey" >>= string_of

  -- The first loop.
  unfoldable pub collect_pubkeys : List String → List Json → Exec S (List String)
  unfolding linked_pubkey
  collect_pubkeys pubkeys [] = pure pubkeys
  collect_pubkeys pubkeys (transaction ∷ rest) = do
    key ← linked_pubkey transaction
    collect_pubkeys (add_pubkey key pubkeys) rest

module _ (L : Library) {S : Type 0} where
  -- The name takes the place of `firstName`, unless the type is CREATE.
  abbrev swap_first_name : Option Json → String → Fields → Exec S Fields
  swap_first_name none name linked =
      pure (add_member "firstName" (str name) (L.remove_member "firstName" linked))
  swap_first_name (some j) name linked = do
    type_id ← string_of j
    pure (
        if str_eq type_id "CREATE"
        then linked
        else add_member "firstName" (str name) (L.remove_member "firstName" linked))

  abbrev replace_user : Option String → Option Json → Fields → Exec S Fields
  replace_user none type_id linked = pure linked
  replace_user (some name) type_id linked = swap_first_name type_id name linked

  abbrev clear_memo : Option (List ℕ) → String → L.Key → Fields → Exec S Fields
  clear_memo none memo key fields = pure fields
  clear_memo (some pubkey) memo key fields = do
    clear ← decrypt_memo L memo pubkey key
    pure (
        if nonempty clear
        then add_member "memo" (str clear) (L.remove_member "memo" fields)
        else fields)

  -- The check of the memo for encryption.
  unfoldable pub show_memo : Option Json → Option Json → String → L.Key → Fields → Exec S Fields
  unfolding decrypt_memo
  show_memo none type_id pubkey key fields = pure fields
  show_memo (some m) none pubkey key fields = pure fields
  show_memo (some m) (some t) pubkey key fields = do
    memo ← string_of m
    _ ← string_of t
    (if L.is_base64 memo then clear_memo (L.hex_to_bin pubkey) memo key fields else pure fields)

  -- The body of the second loop.
  unfoldable pub show_transaction : List (String × String) → L.Key → Json → Exec S Json
  unfolding linked_pubkey show_memo
  show_transaction names key transaction = do
    pubkey ← linked_pubkey transaction
    linked ← member_of "linkedUser" transaction >>= fields_of
    type_id ← member "typeId" transaction
    replaced ← replace_user (find_name pubkey names) type_id (L.remove_member "pubkey" linked)
    fields ← fields_of transaction
    shown ←
        show_memo (find_field "memo" fields) type_id pubkey key
          (set_member "linkedUser" (obj replaced) fields)
    pure (obj shown)

  unfoldable pub show_transactions : List (String × String) → L.Key → List Json → Exec S (List Json)
  unfolding show_transaction
  show_transactions names key [] = pure []
  show_transactions names key (transaction ∷ rest) = do
    shown ← show_transaction names key transaction
    others ← show_transactions names key rest
    pure (shown ∷ others)

module _ (L : Library) (O : Outside L) (C : ServerConfig) where
  abbrev node_failed : {A : Type 0} → Base → Exception → Exec O.W A
  node_failed gradido e = return_error "error by requesting Gradido Node"
  node_failed b e = throw e

  -- if (pubkeys.size()), with one call of the database for all names
  unfoldable pub with_names : List String → L.Key → List Json → Exec O.W (List Json)
  unfolding show_transactions
  with_names [] key transactions = pure transactions
  with_names (pubkey ∷ pubkeys) key transactions = do
    names ← load_user_names_for_pubkeys L O (pubkey ∷ pubkeys)
    show_transactions L names key transactions

  -- What is made of the answer of the node.
  unfoldable pub show_list : L.Key → Json → Exec O.W Document
  unfolding collect_pubkeys with_names set_member
  show_list key answered = do
    listed ← member_of "result" answered >>= member_of "transactionList"
    transactions ← member_of "transactions" listed >>= array_of
    pubkeys ← collect_pubkeys [] transactions
    shown ← with_names pubkeys key transactions
    fields ← fields_of listed
    pure (
        state_success
          (("transactionList", obj (set_member "transactions" (array shown) fields)) ∷ []))

  unfoldable pub list_transactions : String → String → Json → Exec O.W Document
  unfolding show_list add_member
  list_transactions jwt client_ip params = do
    session ← get_session L O C jwt client_ip
    fields ← fields_of params
    key ← deref session.key_pair
    answered ←
        try_catch
          (call (
            O.node_request "listtransactions" (
              add_member "groupAlias" (str session.group_alias)
                (add_member "pubkey" (str (L.bin_to_hex (L.public_key key))) fields))))
          (λ e. node_failed (base_of L e) e)
    show_list key answered

  unfoldable pub handle : String → String → Json → Exec O.W Document
  unfolding list_transactions
  handle jwt client_ip params = respond (list_transactions jwt client_ip params)
