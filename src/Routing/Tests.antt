-- ===== src/Routing/Tests.antt =====
-- A path of the interface and one that is none.
use gradido_blockchain_conne.Base.{◌≡◌, ◌⊎◌, refl}
use gradido_blockchain_conne.Routing.{Handler, creation, unknown, create_request_handler}
use gradido_blockchain_conne.Routing.Paths.{PathOf, create_request_handler_iff}

create_request_handler_iff_example :
    (PathOf creation "/creation" → create_request_handler "/creation" ≡ creation)
    × (create_request_handler "/creation" ≡ creation
        → (PathOf creation "/creation")
          ⊎ ((creation ≡ unknown) × ((other : Handler) → PathOf other "/creation" → ⊥)))
create_request_handler_iff_example = create_request_handler_iff "/creation" creation

unknown_path : create_request_handler "/creations" ≡ unknown
unfolding create_request_handler
unknown_path = refl
