-- ===== src/Routing/Paths.antt =====
-- The paths of the interface, as API.md lists them, and the handlers behind them.
use gradido_blockchain_conne.Base.{
  String, str_eq, eq_iff, if◌then◌else◌, Bool, true, false, ◌≡◌, refl, ◌⊎◌, inl, inr, subst, sym,
  ◌∙◌,
}
use gradido_blockchain_conne.Routing.{
  Handler, pack_transaction, send_transaction_iota, creation, transfer, register_address, login,
  open_connection, transaction_listener, list_transactions, get_pending_transactions, unknown,
  create_request_handler,
}

-- The path of a handler that has one.
pub data PathOf : Handler → String → Type 0 where
  packing : PathOf pack_transaction "/packTransaction"
  sending : PathOf send_transaction_iota "/sendTransactionIota"
  creating : PathOf creation "/creation"
  transferring : PathOf transfer "/transfer"
  registering : PathOf register_address "/registerAddress"
  logging_in : PathOf login "/login"
  opening : PathOf open_connection "/openCommunication"
  notifying : PathOf transaction_listener "/notify"
  listing : PathOf list_transactions "/listTransactions"
  listing_pending : PathOf get_pending_transactions "/listPending"

path-handler : (h : Handler) (p : String) → PathOf h p → create_request_handler p ≡ h
unfolding create_request_handler
path-handler h p packing = refl
path-handler h p sending = refl
path-handler h p creating = refl
path-handler h p transferring = refl
path-handler h p registering = refl
path-handler h p logging_in = refl
path-handler h p opening = refl
path-handler h p notifying = refl
path-handler h p listing = refl
path-handler h p listing_pending = refl

unknown-ne : (h : Handler) (p : String) → PathOf h p → h ≡ unknown → ⊥
unknown-ne h p packing e = cc
unknown-ne h p sending e = cc
unknown-ne h p creating e = cc
unknown-ne h p transferring e = cc
unknown-ne h p registering e = cc
unknown-ne h p logging_in e = cc
unknown-ne h p opening e = cc
unknown-ne h p notifying e = cc
unknown-ne h p listing e = cc
unknown-ne h p listing_pending e = cc

abbrev Routed : String → Handler → Type 0
Routed p h = PathOf h p ⊎ (h ≡ unknown)

test-Routed :
    (p q : String) (h other : Handler)
    → PathOf h q
    → Routed p other
    → Routed p (if str_eq p q then h else other)
test-Routed p q h other path rest = go (str_eq p q) refl
  where
    go : (b : Bool) → str_eq p q ≡ b → Routed p (if b then h else other)
    go true e = inl (subst (PathOf h) (sym ((eq_iff p q).0 e)) path)
    go false e = rest

all-Routed : (p : String) → Routed p (create_request_handler p)
unfolding create_request_handler
all-Routed p = test-Routed p _ _ _ packing (
    test-Routed p _ _ _ sending (
      test-Routed p _ _ _ creating (
        test-Routed p _ _ _ transferring (
          test-Routed p _ _ _ registering (
            test-Routed p _ _ _ logging_in (
              test-Routed p _ _ _ opening (
                test-Routed p _ _ _ notifying (
                  test-Routed p _ _ _ listing
                    (test-Routed p _ _ _ listing_pending (inr refl))))))))))

-- A request whose path is one of the interface is answered by the handler of that path, and by no
-- other; any other request is answered by the handler for unknown calls.
pub create_request_handler_iff :
    (p : String) (h : Handler)
    → (PathOf h p → create_request_handler p ≡ h)
      × (create_request_handler p ≡ h
          → (PathOf h p) ⊎ ((h ≡ unknown) × ((other : Handler) → PathOf other p → ⊥)))
create_request_handler_iff p h = (
  path-handler h p,
  λ e. elim (all-Routed p) [
    | inl path ↦ inl (subst (λ k. PathOf k p) e path)
    | inr none ↦ inr (
      sym e ∙ none,
      λ other path. unknown-ne other p path (sym (path-handler other p path) ∙ none),
    )
  ],
)
