-- ===== src/Demo/Users.antt =====
-- A new user of the concrete server.
use gradido_blockchain_conne.Base.{ℕ, [], ◌∷◌, ◌≡◌, ◌≤◌, ◌<◌, ◌↔◌, ◌⊎◌, refl, arith}
use gradido_blockchain_conne.Exec.{ok}
use gradido_blockchain_conne.Tables.{
  to_uint64, load_group, save_user, save_user_backup, get_last_insert_id,
}
use gradido_blockchain_conne.Session.{create_new_user, get_group_id, new_session}
use gradido_blockchain_conne.Session.GroupId.{get_group_id_bounds}
use gradido_blockchain_conne.Platform.{Session}
use gradido_blockchain_conne.Session.Created.{KeysReadBack, Stored, create_new_user-Stored}
use gradido_blockchain_conne.Demo.{group_row, demo_library, demo_outside, empty_world}

abbrev blank : Session demo_library
blank = new_session demo_library demo_outside "one" "10.0.0.1"

group_loaded : load_group demo_library demo_outside "one" empty_world ≡ (ok group_row, empty_world)
unfolding load_group
group_loaded = refl

-- The group "one" has the id 1.
get_group_id_bounds_example :
    (group_id : ℕ) × (get_group_id demo_library demo_outside blank empty_world
      ≡ (ok group_id, empty_world))
    × (group_id < 4294967296)
    × ((to_uint64 group_id ≡ 1) ↔ ((1 < 2147483648) ⊎ (18446744071562067968 ≤ 1)))
unfolding new_session
get_group_id_bounds_example =
    get_group_id_bounds demo_library demo_outside blank group_row empty_world empty_world refl
      (omega arith) group_loaded

keys_read_back : KeysReadBack demo_library
keys_read_back key secret crypted h = (crypted, refl, cc)

user_created :
    create_new_user demo_library demo_outside "bob" 1 42 empty_world ≡ (ok (8 ∷ []), empty_world)
unfolding create_new_user save_user save_user_backup get_last_insert_id
user_created = refl

create_new_user-Stored_example : Stored demo_library demo_outside "bob" 1 42 (8 ∷ [])
create_new_user-Stored_example =
    create_new_user-Stored demo_library demo_outside "bob" 1 42 (8 ∷ []) empty_world empty_world
      keys_read_back user_created
