-- ===== src/Redis/Tests.antt =====
-- A server with two users.
use gogame.Common.{◌≡◌, refl, true, false, [], ◌∷◌, some, arith}
use gogame.Text.{codes, print_decimal}
use gogame.Text.Keyed
use gogame.Redis.{
  Server, gen_key, key_type_user, key_token, user_loc, remove_user_loc, get_account_token,
  refresh_server_list,
}
use gogame.Redis.Keys.{remove_user_loc-others}

abbrev server : Server
server = record {
  texts =
      (codes "user:7:loc", codes "65540")
      ∷ (codes "user:8:loc", codes "3")
      ∷ (codes "user:7:token", codes "abc|1")
      ∷ [];
  hashes = (codes "serverlist:game", (codes "4", codes "open") ∷ []) ∷ [];
}

abbrev empty : Server
empty = record { texts = []; hashes = [] }

-- A location is cut to 16 bits.
location_of_7 : user_loc false 7 server ≡ (4, true)
unfolding user_loc print_decimal
location_of_7 = refl

removed_from_4 :
    (remove_user_loc false false 7 4 server).0.texts
    ≡ (codes "user:8:loc", codes "3") ∷ (codes "user:7:token", codes "abc|1") ∷ []
unfolding remove_user_loc print_decimal
removed_from_4 = refl

-- A read that fails gives 0, and the location is removed for the server with the id 0.
removed_unread :
    (remove_user_loc true false 7 0 server).0.texts
    ≡ (codes "user:8:loc", codes "3") ∷ (codes "user:7:token", codes "abc|1") ∷ []
unfolding remove_user_loc print_decimal
removed_unread = refl

token_of_7 :
    get_account_token false 7 (record { zone = server; cross = empty }) ≡ some (codes "abc|1")
unfolding get_account_token print_decimal
token_of_7 = refl

game_servers :
    refresh_server_list false 2 (codes "serverlist:game") (record { zone = empty; cross = server })
    ≡ (codes "4", codes "open") ∷ []
unfolding refresh_server_list
game_servers = refl

remove_user_loc-others_example :
    (user_loc false 8 (remove_user_loc false false 7 4 server).0 ≡ user_loc false 8 server)
    × (Keyed.lookup
          (gen_key key_type_user key_token 8)
          (remove_user_loc false false 7 4 server).0.texts
        ≡ Keyed.lookup (gen_key key_type_user key_token 8) server.texts)
remove_user_loc-others_example =
    remove_user_loc-others false false 7 8 4 server (omega arith) (omega arith) (omega arith)
