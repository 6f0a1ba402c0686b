-- ===== src/Gate/Login.antt =====
-- What the gate does with a client's message: `HookClientMessage`, `handlerLoginMsg` and `Receive`
-- of gamegate/client.go.
use gogame.Text.{split}
use gogame.Common.{
  ℕ, ◌^◌, Bool, true, false, List, [], ◌∷◌, Option, none, some, ◌==◌, leb, if◌then◌else◌,
}
use Prim.Native.Nat.{bit_and}
use gogame.Consts.EntityType
use gogame.ErrCode.{
  ErrCode, unmarshal_fail, parameter_invalid, token_invalid, server_busy, marshal_fail,
}
use gogame.ErrCode.{account_replaced, unknown_message}
use gogame.Processor.{Processor, is_protocol_exist}
use gogame.Gate.{Gate, Notices, set_task, get_by_id, add}
use gogame.Gate.{replaced, terminate_client, send_err_to_me, handle_ping}
use gogame.Gate.Routers.{game_svr_alive, dispatch_game_svr, same_addr}

pub record LoginReq : Type 0 where
  pub account_id : ℕ
  pub user_token : List ℕ

-- `redis.UserLoc`: the server, or no entry, or an error of Redis.
pub data UserLoc : Type 0 where
  located : ℕ → UserLoc
  nowhere redis_failed : UserLoc

-- What a message of a client needs from outside, at its time: `protocol.Marshal` of the gate's own
-- messages; protobuf on login requests (the client's IP goes into a new one); Redis; the random
-- number; and the remote address of a client.
pub record Env : Type 0 where
  pub notices : Notices
  pub unmarshal_login : List ℕ → Option LoginReq
  pub marshal_login : LoginReq → List ℕ → Option (List ℕ)
  pub account_token : ℕ → Option (List ℕ)
  pub user_loc : ℕ → UserLoc
  pub random : ℕ → ℕ
  pub remote_addr : ℕ → List ℕ
  pub processor : Processor

abbrev pub login_req_id : ℕ
login_req_id = 4099

abbrev pub ping_id : ℕ
ping_id = 4097

-- The token in Redis is followed by `|` and a time.
abbrev pub is_first_of_two : List ℕ → List (List ℕ) → Bool
is_first_of_two token (first ∷ second ∷ []) = same_addr first token
is_first_of_two token _ = false

unfoldable pub token_matches : List ℕ → List ℕ → Bool
unfolding split
token_matches stored token = is_first_of_two token (split 124 stored)

-- The part of an address before its first colon, where this is not empty.
unfoldable pub before_colon : List ℕ → Option (List ℕ)
before_colon [] = none
before_colon (b ∷ s) =
    let rest = before_colon s in
    if b == 58 then some [] else elim rest [ none ↦ none | some ip ↦ some (b ∷ ip) ]

-- `logReq.GetAccountID() <= 0`, of an int64.
abbrev pub is_not_positive : ℕ → Bool
is_not_positive account = if account == 0 then true else leb (2 ^ 63) account

-- The gate, the body for the server, and the error.
abbrev pub Login : Type 0
Login = Gate × List ℕ × Option ErrCode

abbrev pub marshalled : Option (List ℕ) → Gate → Login
marshalled none g = (g, [], some marshal_fail)
marshalled (some b) g = (g, b, none)

abbrev pub new_body : Env → ℕ → LoginReq → List ℕ → Option (List ℕ) → Gate → Login
new_body env r req b none g = (g, b, none)
new_body env r req b (some []) g = (g, b, none)
new_body env r req b (some ip) g = marshalled (env.marshal_login req ip) g

abbrev pub set_gs_id : ℕ → ℕ → Gate → Gate
set_gs_id r gs_id g = set_task r (record (g.tasks r) { gs_id = gs_id }) g

unfoldable pub login_to : Env → ℕ → LoginReq → List ℕ → ℕ → Gate → Login
unfolding add before_colon
login_to env r req b gs_id g =
    if gs_id == 0
    then (g, b, some server_busy)
    else new_body env r req b (before_colon (env.remote_addr r)) (add r (set_gs_id r gs_id g))

abbrev pub alive_or_dispatched : Env → ℕ → Gate → ℕ
alive_or_dispatched env loc g =
    if game_svr_alive loc g.routers then loc else dispatch_game_svr env.random g.routers

-- Where Redis has no server for the account, its id is 0.
abbrev pub login_at : Env → ℕ → LoginReq → List ℕ → UserLoc → Gate → Login
login_at env r req b redis_failed g = (g, b, some server_busy)
login_at env r req b nowhere g = login_to env r req b (alive_or_dispatched env 0 g) g
login_at env r req b (located loc) g = login_to env r req b (alive_or_dispatched env loc g) g

unfoldable pub login_new : Env → ℕ → LoginReq → List ℕ → Gate → Login
unfolding login_to game_svr_alive dispatch_game_svr
login_new env r req b g = login_at env r req b (env.user_loc req.account_id) g

unfoldable pub kick_old : Env → ℕ → Gate → Gate
unfolding send_err_to_me terminate_client
kick_old env old g =
    terminate_client replaced old (send_err_to_me env.notices account_replaced 0 old g)

abbrev pub login_over : Env → ℕ → LoginReq → List ℕ → Option ℕ → Gate → Login
login_over env r req b none g = login_new env r req b g
login_over env r req b (some old) g =
    if old == r then (g, b, none) else login_new env r req b (kick_old env old g)

abbrev pub login_with : Env → ℕ → LoginReq → List ℕ → Option (List ℕ) → Gate → Login
login_with env r req b none g = (g, b, some token_invalid)
login_with env r req b (some stored) g =
    if token_matches stored req.user_token
    then login_over env r req b (get_by_id req.account_id g) g
    else (g, b, some token_invalid)

unfoldable pub login_as : Env → ℕ → LoginReq → List ℕ → Gate → Login
unfolding token_matches get_by_id login_new kick_old
login_as env r req b g = login_with env r req b (env.account_token req.account_id) g

-- The client takes the account before its token is looked at.
abbrev pub set_account : ℕ → ℕ → Gate → Gate
set_account r account g = set_task r (record (g.tasks r) { account_id = account }) g

abbrev pub login_req : Env → ℕ → List ℕ → Option LoginReq → Gate → Login
login_req env r b none g = (g, b, some unmarshal_fail)
login_req env r b (some req) g =
    if is_not_positive req.account_id
    then (g, b, some parameter_invalid)
    else login_as env r req b (set_account r req.account_id g)

unfoldable pub handler_login_msg : Env → ℕ → List ℕ → Gate → Login
unfolding login_as
handler_login_msg env r b g = login_req env r b (env.unmarshal_login b) g

-- Whether to go on, the body and the error.
abbrev pub Hooked : Type 0
Hooked = Gate × Bool × List ℕ × Option ErrCode

abbrev pub known_only : Env → ℕ → List ℕ → Gate → Hooked
known_only env msg_id b g =
    if is_protocol_exist msg_id env.processor
    then (g, true, b, none)
    else (g, false, b, some unknown_message)

abbrev pub after_login : Env → ℕ → Login → Hooked
after_login env msg_id (g, b, none) = known_only env msg_id b g
after_login env msg_id (g, b, some e) = (g, false, b, some e)

unfoldable pub hook_client_message : Env → ℕ → ℕ → ℕ → List ℕ → Gate → Hooked
unfolding handler_login_msg handle_ping is_protocol_exist
hook_client_message env r msg_id packet_no b g =
    if msg_id == login_req_id
    then after_login env msg_id (handler_login_msg env r b g)
    else if msg_id == ping_id
    then ((handle_ping env.notices packet_no r g).0, false, b, none)
    else known_only env msg_id b g

-- `GetMessageDestByMsgID`
unfoldable pub message_dest : ℕ → ℕ
message_dest msg_id =
    let range = bit_and msg_id 65280 in
    if range == 16384
    then EntityType.im
    else if range == 20480
    then EntityType.team_svr
    else EntityType.game_svr
