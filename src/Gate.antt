-- ===== src/Gate.antt =====
-- The gate's clients: `ClientMgr` and `ClientTask` of gamegate/client.go.
-- Pointers are references, numbers into the stores of clients (`tasks`) and of connections (`conns`).
-- The manager's methods run one at a time here; the code runs them on several goroutines, under the
-- manager's lock for each access to its map. A cipher's key stream is the bytes it still has to give.
-- (A missing cipher, on which the code would panic, is not told apart: no code turns on encryption.)
pub mod Routers
pub mod Ims
pub mod Login
pub mod ImServers
pub mod Dispatch
pub mod RouterLink
pub mod Forward
pub mod History
pub mod Unclaimed
pub mod Kept
pub mod Joined
pub mod LoggedIn
pub mod Stranded
pub mod Reported
pub mod Synced
pub mod Chosen
pub mod Relayed
pub mod ImLoop
mod Tests
use gogame.Common.{
  ℕ, suc, ◌+◌, Bool, true, false, not, List, [], ◌∷◌, Option, none, some, ◌==◌, ltb, if◌then◌else◌,
  bit_or,
}
use Prim.Native.Nat.{bit_and, bit_xor}
use gogame.Common.Assoc
use gogame.Consts.{tcp_ping_timeout, invalid_id}
use gogame.Message.{CsMessage, cs_marshal}
use gogame.Connection.{Conn, send, shutdown}
use gogame.ErrCode.{ErrCode, network_fail, marshal_fail, number}
use gogame.Gate.Routers.{RouterMgr}
use gogame.Gate.Ims.{ImMgr}

-- The marks of a session, the SESS constants.
abbrev pub encrypt : ℕ
encrypt = 2

abbrev pub kicked_out : ℕ
kicked_out = 4

abbrev pub replaced : ℕ
replaced = 16

abbrev pub game_svr_close : ℕ
game_svr_close = 32

abbrev pub Stream : Type 0
Stream = ℕ → ℕ

unfoldable pub xor_key_stream : Stream → List ℕ → Stream × List ℕ
xor_key_stream key [] = (key, [])
xor_key_stream key (b ∷ bs) =
    let (key', bs') = xor_key_stream (λ n. key (suc n)) bs in (key', bit_xor b (key 0) ∷ bs')

pub record ClientTask : Type 0 where
  pub conn : ℕ
  pub encoder : Stream
  pub decoder : Stream
  pub account_id : ℕ
  pub gs_id : ℕ
  pub ts_id : ℕ
  pub flag : ℕ
  pub last_packet_time : ℕ

-- What `con.Owner` holds: nothing, a pointer to a client, or a client.
pub data Owner : Type 0 where
  no_owner : Owner
  pointer : ℕ → Owner
  value : ClientTask → Owner

pub record Gate : Type 0 where
  pub clients : List (ℕ × ℕ)
  pub tasks : ℕ → ClientTask
  pub next_task : ℕ
  pub owners : ℕ → Owner
  pub conns : ℕ → Conn
  pub routers : RouterMgr
  pub ims : ImMgr

abbrev pub store {ℓ} : {A : Type ℓ} → ℕ → A → (ℕ → A) → ℕ → A
store r x f i = if r == i then x else f i

abbrev pub set_task : ℕ → ClientTask → Gate → Gate
set_task r t g = record g { tasks = store r t g.tasks }

abbrev pub set_conn : ℕ → Conn → Gate → Gate
set_conn c x g = record g { conns = store c x g.conns }

abbrev no_key : Stream
no_key n = 0

abbrev pub new_task : ℕ → ℕ → ClientTask
new_task con now = record {
  conn = con;
  encoder = no_key;
  decoder = no_key;
  account_id = 0;
  gs_id = 0;
  ts_id = 0;
  flag = 0;
  last_packet_time = now;
}

unfoldable pub connect : ℕ → ℕ → Gate → Gate
connect now con g = record g {
  tasks = store g.next_task (new_task con now) g.tasks;
  next_task = suc g.next_task;
  owners = store con (pointer g.next_task) g.owners;
}

unfoldable pub get_by_id : ℕ → Gate → Option ℕ
unfolding Assoc.lookup
get_by_id account g = Assoc.lookup account g.clients

unfoldable pub add : ℕ → Gate → Gate
unfolding Assoc.insert
add r g =
    let account = (g.tasks r).account_id in
    if account == invalid_id then g else record g { clients = Assoc.insert account r g.clients }

-- The entry goes only if it is this very client.
abbrev pub remove_same : ℕ → ℕ → Option ℕ → List (ℕ × ℕ) → List (ℕ × ℕ)
remove_same r account none m = m
remove_same r account (some t) m = if t == r then Assoc.remove account m else m

unfoldable pub remove : ℕ → Gate → Gate
unfolding Assoc.lookup Assoc.remove
remove r g =
    let account = (g.tasks r).account_id in
    record g { clients = remove_same r account (Assoc.lookup account g.clients) g.clients }

-- `SendCSMsg`. (The error of `Marshal` is not looked at.)
unfoldable pub send_cs_msg : CsMessage → ℕ → Gate → Gate × Option ErrCode
unfolding cs_marshal xor_key_stream send
send_cs_msg msg r g =
    let t = g.tasks r in
    let data_ = (cs_marshal msg).0 in
    let (key, hidden) = xor_key_stream t.encoder data_ in
    let encrypts = not (bit_and t.flag encrypt == 0) in
    let g' = if encrypts then set_task r (record t { encoder = key }) g else g in
    let (c, ok) = send ((if encrypts then hidden else data_) ∷ []) (g.conns t.conn) in
    (set_conn t.conn c g', if ok then none else some network_fail)

-- `TerminateClient`. (It waits before it closes the connection.)
unfoldable pub terminate_client : ℕ → ℕ → Gate → Gate
unfolding shutdown
terminate_client mark r g =
    let t = g.tasks r in
    let g' = set_task r (record t { flag = bit_or t.flag mark }) g in
    set_conn t.conn (shutdown (g.conns t.conn)) g'

-- `protocol.Marshal` of the messages that the gate makes itself, with the bytes and the message's id.
pub record Notices : Type 0 where
  pub marshal_error : ℕ → ℕ → Option (List ℕ × ℕ)
  pub marshal_pong : ℕ → Option (List ℕ × ℕ)

-- `SendMessageToMe`. (The head has no packet number.)
unfoldable pub send_message_to_me : Option (List ℕ × ℕ) → ℕ → Gate → Gate × Option ErrCode
unfolding send_cs_msg
send_message_to_me none r g = (g, some marshal_fail)
send_message_to_me (some (body, id)) r g =
    send_cs_msg
      (record { head = record { message_id = id; packet_no = 0; version = 0 }; body = body }) r g

unfoldable pub send_err_to_me : Notices → ErrCode → ℕ → ℕ → Gate → Gate
unfolding send_message_to_me number
send_err_to_me n code packet_no r g =
    (send_message_to_me (n.marshal_error (number code) packet_no) r g).0

unfoldable pub handle_ping : Notices → ℕ → ℕ → Gate → Gate × Option ErrCode
unfolding send_message_to_me
handle_ping n packet_no r g = send_message_to_me (n.marshal_pong packet_no) r g

-- The clients of the map that pass a test, in its order.
unfoldable pub which : (ClientTask → Bool) → List (ℕ × ℕ) → Gate → List ℕ
which test [] g = []
which test ((account, r) ∷ m) g =
    let rest = which test m g in if test (g.tasks r) then r ∷ rest else rest

abbrev pub each : (ℕ → Gate → Gate) → List ℕ → Gate → Gate
each act [] g = g
each act (r ∷ rs) g = each act rs (act r g)

-- `nowTime-t.LastPacketTime > TCP_PING_TIMEOUT`
abbrev pub is_late : ℕ → ClientTask → Bool
is_late now t = ltb (t.last_packet_time + tcp_ping_timeout) now

unfoldable pub time_action : ℕ → Gate → Gate
unfolding which terminate_client remove
time_action now g =
    each (λ r g. remove r (terminate_client kicked_out r g)) (which (is_late now) g.clients g) g

unfoldable pub server_close : ℕ → Gate → Gate
unfolding which terminate_client
server_close svr_id g =
    each (terminate_client game_svr_close) (which (λ t. t.gs_id == svr_id) g.clients g) g

-- `Close`, whose goroutines terminate the clients in any order.
unfoldable pub close : Gate → Gate
unfolding which terminate_client
close g =
    each (terminate_client (bit_or game_svr_close kicked_out)) (which (λ t. true) g.clients g) g

unfoldable pub broadcast_msg : CsMessage → Gate → Gate
unfolding which send_cs_msg
broadcast_msg msg g = each (λ r g. (send_cs_msg msg r g).0) (which (λ t. true) g.clients g) g
