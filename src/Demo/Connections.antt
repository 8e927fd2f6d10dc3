-- ===== src/Demo/Connections.antt =====
-- Requests to /login and /openCommunication of the concrete server.
use gradido_blockchain_conne.Base.{String, List, [], ◌∷◌, ◌≡◌, refl, some, none, true, subst}
use gradido_blockchain_conne.Json.{Json, find_field, str}
use gradido_blockchain_conne.Exec.{ok, state_success}
use gradido_blockchain_conne.Platform.{Session}
use gradido_blockchain_conne.ServerConfig.{ServerConfig}
use gradido_blockchain_conne.Tables.{load_group}
use gradido_blockchain_conne.Session.{get_group_id, check_user, new_session, login_or_create}
use gradido_blockchain_conne.SessionManager.{
  cached_or_new, issue, login, get_session, get_session_of,
}
use gradido_blockchain_conne.SessionManager.Granted.{TokenVerifies}
use gradido_blockchain_conne.Login.{handle_request_login, log_in}
use gradido_blockchain_conne.Login.Granted.{
  LoggedIn, handle_login-LoggedIn, handle_login-get_session,
}
use gradido_blockchain_conne.OpenConnection.{handle_request_open, open_connection}
use gradido_blockchain_conne.OpenConnection.Granted.{
  Opened, handle_open-Opened, handle_open-get_session_of,
}
use gradido_blockchain_conne.Demo.{
  World, demo_library, demo_outside, demo_config, alice_session, empty_world, alice_world,
}
use gradido_blockchain_conne.Demo.Logins.{alice_verifies, open_verifies, cache_keeps}

abbrev shown : List (String × Json)
shown = ("token", str "token of alice") ∷ []

abbrev open_shown : List (String × Json)
open_shown = ("token", str "open token") ∷ []

-- The settings with a key of the server.
abbrev key_config : ServerConfig
key_config = record demo_config { jwt_private_key = some (7 ∷ []) }

logged_in :
    handle_request_login demo_library demo_outside demo_config "POST" "{}" "10.0.0.1" empty_world
    ≡ (ok (some (state_success shown)), alice_world)
unfolding handle_request_login log_in login cached_or_new issue login_or_create get_group_id
    check_user new_session load_group find_field
logged_in = refl

-- Any other method is answered with an empty document.
not_posted :
    handle_request_login demo_library demo_outside demo_config "GET" "{}" "10.0.0.1" empty_world
    ≡ (ok none, empty_world)
unfolding handle_request_login
not_posted = refl

handle_login-LoggedIn_example :
    (true ≡ true)
    × LoggedIn demo_library demo_outside demo_config "{}" "10.0.0.1" shown empty_world alice_world
handle_login-LoggedIn_example =
    handle_login-LoggedIn demo_library demo_outside demo_config "POST" "{}" "10.0.0.1" shown
      empty_world alice_world logged_in

shown_token :
    (token : String) → shown ≡ ("token", str token) ∷ [] → TokenVerifies demo_library "secret" token
shown_token token h =
    let e : "token of alice" ≡ token = cc in
    subst (TokenVerifies demo_library "secret") e alice_verifies

handle_login-get_session_example :
    (token : String) × (s : Session demo_library) × (w₁ : World) × (shown
      ≡ ("token", str token) ∷ [])
    × (get_session demo_library demo_outside demo_config token "10.0.0.1" alice_world ≡ (ok s, w₁))
    × (s.client_ip ≡ "10.0.0.1")
handle_login-get_session_example =
    handle_login-get_session demo_library demo_outside demo_config "POST" "{}" "10.0.0.1" shown
      empty_world alice_world shown_token cache_keeps logged_in

opened :
    handle_request_open demo_library demo_outside key_config "POST" "{}" alice_world
    ≡ (ok (some (state_success open_shown)), alice_world)
unfolding handle_request_open open_connection find_field
opened = refl

handle_open-Opened_example :
    (true ≡ true)
    × Opened demo_library demo_outside key_config "{}" open_shown alice_world alice_world
handle_open-Opened_example =
    handle_open-Opened demo_library demo_outside key_config "POST" "{}" open_shown alice_world
      alice_world opened

shown_open :
    (token : String)
    → open_shown ≡ ("token", str token) ∷ []
    → TokenVerifies demo_library "secret" token
shown_open token h =
    let e : "open token" ≡ token = cc in subst (TokenVerifies demo_library "secret") e open_verifies

handle_open-get_session_of_example :
    (token : String) × (open_shown ≡ ("token", str token) ∷ [])
    × (get_session_of demo_library demo_outside key_config token "alice" "10.0.0.1" alice_world
        ≡ (ok alice_session, alice_world))
handle_open-get_session_of_example =
    handle_open-get_session_of demo_library demo_outside key_config "POST" "{}" open_shown
      alice_world alice_world "alice" "10.0.0.1" alice_world alice_session shown_open opened refl
      refl
