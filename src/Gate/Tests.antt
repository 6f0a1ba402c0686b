-- ===== src/Gate/Tests.antt =====
-- A gate with one game server, on which client 5 has account 7.
use gogame.Common.{ℕ, ◌-◌, ◌≡◌, ◌⊎◌, refl, true, false, List, [], ◌∷◌, Option, none, some, arith}
use gogame.Common.Assoc
use gogame.Consts.ServerStatus
use gogame.Gate.{Gate, no_owner, get_by_id, new_task}
use gogame.Gate.Chosen.{IsReported, dispatched_alive}
use gogame.Gate.Forward.{receive}
use gogame.Gate.History.{connects, receives, ticks, run}
use gogame.Gate.Ims.{Site}
use gogame.Gate.ImServers.{panicked}
use gogame.Gate.LoggedIn.{IsLoggedIn, login_joins}
use gogame.Gate.Login.{Env, LoginReq, nowhere, handler_login_msg}
use gogame.Gate.RouterLink
use gogame.Gate.RouterLink.{refresh_game_svr_list}
use gogame.Gate.Routers.{new_router_mgr, dispatch_game_svr, is_in_slice}
use gogame.Common.{◌==◌, if◌then◌else◌}
use gogame.Consts.EntityType
use gogame.Consts.SsCmd
use gogame.Consts.TransType
use gogame.ErrCode.{ErrCode}
use gogame.Gate.Dispatch.{dispatch, empty_body}
use gogame.Gate.ImServers.{ran}
use gogame.Gate.Relayed.{messages_for, broadcast_relayed}
use gogame.Message.{SsMessageHead, body_marshal}
use gogame.Gate.Synced
use gogame.Gate.Synced.{owners_run, nothing, games, teams, loses, run-owners_run}
use gogame.Gate.Reported.{is_some}
use gogame.Gate.Unclaimed.{nobody_registered}

abbrev empty_gate : Gate
empty_gate = record {
  clients = [];
  tasks = λ r. new_task r 100;
  next_task = 6;
  owners = λ con. no_owner;
  conns = λ con. record { bufs = []; closed = false };
  routers = record {
    router_mgr = [];
    cross_router_mgr = [];
    router_map = [];
    svr_list = (3, ServerStatus.open_status) ∷ [];
    team_ids = [];
  };
  ims = record {
    ims = [];
    im_map = [];
    hash_ring = none;
    svrs = λ i. record { conn = none; addr = []; id = 0; status = 0 };
    next_svr = 0;
  };
}

abbrev gate : Gate
gate = record empty_gate { clients = (7, 5) ∷ [] }

-- A login is its account and its token, and `"T|1"` is stored for each account.
abbrev request : List ℕ → Option LoginReq
request [] = none
request (account ∷ token) = some (record { account_id = account; user_token = token })

abbrev env : Env
env = record {
  notices = record { marshal_error = λ code no_. some ([], 1); marshal_pong = λ no_. some ([], 2) };
  unmarshal_login = request;
  marshal_login = λ req ip. some ip;
  account_token = λ account. some (84 ∷ 124 ∷ 49 ∷ []);
  user_loc = λ account. nowhere;
  random = λ n. 0;
  remote_addr = λ r. 49 ∷ 58 ∷ 50 ∷ [];
  processor = record { msg_type = []; msg_id = [] };
}

abbrev site : Site
site = record {
  server_id = 1;
  hash = record { digest = λ s. s; decimal = λ n. n ∷ [] };
  itoa = λ n. n ∷ [];
  atoi = λ s. (3, true);
  unmarshal_group = λ b. none;
  unmarshal_sync = λ b. none;
}

nobody_registered_example :
    let g = run env site empty_gate (connects 100 9 ∷ receives 9 (1 ∷ []) ∷ ticks 500 ∷ []) in
    ((account : ℕ) → get_by_id account g ≡ none)
    × ((con : ℕ) (bytes : List ℕ) → receive env site con bytes g ≡ panicked g)
nobody_registered_example =
    nobody_registered env site empty_gate (connects 100 9 ∷ receives 9 (1 ∷ []) ∷ ticks 500 ∷ [])
      refl (λ con. refl)

logged_in : (handler_login_msg env 4 (7 ∷ 84 ∷ []) gate).2 ≡ none
unfolding handler_login_msg
logged_in = refl

login_joins_example :
    IsLoggedIn env 4 (7 ∷ 84 ∷ []) gate (handler_login_msg env 4 (7 ∷ 84 ∷ []) gate).0
login_joins_example = login_joins env 4 (7 ∷ 84 ∷ []) gate logged_in

abbrev events : List Synced.Event
events = games (1 ∷ 2 ∷ []) 0 ∷ games (65538 ∷ []) 1 ∷ teams (9 ∷ []) 1 ∷ games (4 ∷ []) 0 ∷ []

run-owners_run_example :
    let m = Synced.run new_router_mgr events in
    let o = owners_run (record { game = nothing; team = nothing }) events in
    (Assoc.lookup 2 m.router_mgr ≡ o.game 2)
    × (Assoc.lookup 2 m.cross_router_mgr ≡ o.team 2)
    × (is_in_slice m.team_ids 2 ≡ is_some (o.team 2))
run-owners_run_example = run-owners_run events 2

abbrev entries : List (List ℕ × Option RouterLink.SvrEntry)
entries = (51 ∷ [], some (record { zone_id = 1; timestamp = 90; status = 1 })) ∷ []

dispatched_alive_example :
    let id =
      dispatch_game_svr (λ n. n - 1) (refresh_game_svr_list site 1 100 entries new_router_mgr) in
    (id ≡ 0) ⊎ IsReported site 1 100 entries (id, ServerStatus.open_status)
dispatched_alive_example =
    dispatched_alive site 1 100 entries new_router_mgr (λ n. n - 1) (λ n h. omega arith)

-- Servers 0 and 1, of which the first is the source; both have connections.
abbrev im_gate : Gate
im_gate = record empty_gate {
  ims = record {
    ims = [];
    im_map = (10, 0) ∷ (11, 1) ∷ [];
    hash_ring = none;
    svrs = λ i.
        if i == 0
        then record { conn = some 20; addr = []; id = 10; status = 1 }
        else record { conn = some 21; addr = []; id = 11; status = 1 };
    next_svr = 2;
  };
}

abbrev broadcast_head : SsMessageHead
broadcast_head = record {
  ss_cmd = SsCmd.msg;
  trans_type = TransType.broadcast;
  src_type = EntityType.im;
  dst_type = EntityType.im;
  src_id = 10;
  dst_id = 0;
}

broadcast_relayed_example :
    (g' : Gate) × (e : Option ErrCode) × (dispatch site broadcast_head empty_body im_gate
      ≡ ran g' e)
    × ((g'.conns 21).bufs
        ≡ messages_for 21 broadcast_head (body_marshal empty_body) (0 ∷ 1 ∷ []) im_gate.ims.svrs)
broadcast_relayed_example =
    broadcast_relayed site broadcast_head empty_body im_gate 21 refl refl (refl, (refl, tt)) refl
