-- ===== src/Gate/ImServers.antt =====
-- Sending to the instant-message servers: `GetIMByAccountID`, `GetIMByID`, `SendMsg`, `sendMsg`,
-- `register`, `close` and `refreshIMSvrList` of gamegate/imclient.go.
-- The goroutine of a server, which dials, is in `ImLoop`. Packing does not fail here, since no
-- message lacks its head.
use gogame.Common.{
  ℕ, suc, ◌+◌, ◌%◌, ◌^◌, List, [], ◌∷◌, Option, none, some, ◌==◌, ltb, if◌then◌else◌, map,
}
use gogame.Common.Assoc
use gogame.Connection.{send}
use gogame.Consts.EntityType
use gogame.Consts.SsCmd
use gogame.ErrCode.{ErrCode, im_svr_not_found, marshal_fail}
use gogame.HashRing.{HashRing, get_node, add_node}
use gogame.HashRing.Update.{new_hashring_with_weights}
use gogame.Gate.{Gate, set_conn, store}
use gogame.Gate.Ims.{ImSvr, ImMgr, Site}
use gogame.Message.{SsMessage, pack_ss_message}

-- The outcome of a call: the gate, and the error that it returns or a panic.
pub data Ran : Type 0 where
  ran : Gate → Option ErrCode → Ran
  panicked : Gate → Ran

abbrev pub set_svr : ℕ → ImSvr → Gate → Gate
set_svr i s g = record g { ims = record (g.ims) { svrs = store i s g.ims.svrs } }

-- `im.GetConnection().Send(data)`, which panics where there is no connection.
abbrev pub send_on : List ℕ → Option ℕ → Gate → Ran
send_on bytes none g = panicked g
send_on bytes (some c) g =
    let (c', ok) = send (bytes ∷ []) (g.conns c) in
    ran (set_conn c c' g) (if ok then none else some im_svr_not_found)

-- `sendMsg`
unfoldable pub send_any : SsMessage → ℕ → Gate → Ran
unfolding pack_ss_message send
send_any m i g = send_on (pack_ss_message m) (g.ims.svrs i).conn g

-- `SendMsg`
unfoldable pub send_msg : SsMessage → ℕ → Gate → Ran
unfolding send_any
send_msg m i g =
    if (g.ims.svrs i).status == 0 then ran g (some im_svr_not_found) else send_any m i g

abbrev pub svr_of : Site → ImMgr → Option (List ℕ) → Option ℕ
svr_of site m none = none
svr_of site m (some sid) = Assoc.lookup ((site.atoi sid).0 % 2 ^ 16) m.im_map

-- `GetIMByAccountID`
unfoldable pub get_im_by_account_id : Site → ℕ → Gate → Option ℕ
unfolding get_node Assoc.lookup
get_im_by_account_id site account g = elim g.ims.hash_ring [
  | none ↦ none
  | some h ↦ svr_of site g.ims (get_node site.hash h (site.itoa account))
]

unfoldable pub get_im_by_id : ℕ → Gate → Option ℕ
unfolding Assoc.lookup
get_im_by_id id g = Assoc.lookup id g.ims.im_map

abbrev pub notice : ℕ → Site → SsMessage
notice cmd site = record {
  head = record {
    ss_cmd = cmd;
    trans_type = 0;
    src_type = EntityType.portal;
    dst_type = 0;
    src_id = site.server_id;
    dst_id = 0;
  };
  body = [];
}

abbrev pub or_marshal_fail : Ran → Ran
or_marshal_fail (ran g none) = ran g none
or_marshal_fail (ran g (some e)) = ran g (some marshal_fail)
or_marshal_fail (panicked g) = panicked g

unfoldable pub register : Site → ℕ → Gate → Ran
unfolding send_any
register site i g = or_marshal_fail (send_any (notice SsCmd.ready site) i g)

abbrev pub ended : ℕ → Ran → Ran
ended i (ran g none) = ran (set_svr i (record (g.ims.svrs i) { status = 0 }) g) none
ended i (ran g (some e)) = ran g (some e)
ended i (panicked g) = panicked g

unfoldable pub close : Site → ℕ → Gate → Ran
unfolding send_any
close site i g = ended i (send_any (notice SsCmd.disconnect site) i g)

-- What `json.Unmarshal` makes of the entry of a server: the numbers and strings under `timestamp`
-- and `addr`, where they are there.
pub data Entry : Type 0 where
  not_json : Entry
  entry : Option ℕ → Option (List ℕ) → Entry

-- The servers that are alive, by number; `none` is a panic, of an assertion on a type.
abbrev pub with_addr : ℕ → Option (List ℕ) → List (ℕ × List ℕ) → Option (List (ℕ × List ℕ))
with_addr sid none m = none
with_addr sid (some addr) m = some (Assoc.insert sid addr m)

unfoldable pub alive_one :
    Site → ℕ → List ℕ → Entry → List (ℕ × List ℕ) → Option (List (ℕ × List ℕ))
unfolding Assoc.insert
alive_one site now id not_json m = some m
alive_one site now id (entry none addr) m = none
alive_one site now id (entry (some time) addr) m =
    let (sid, ok) = site.atoi id in
    if ltb (time + 15) now then some m else if ok then with_addr sid addr m else some m

unfoldable pub alive_svrs :
    Site → ℕ → List (List ℕ × Entry) → List (ℕ × List ℕ) → Option (List (ℕ × List ℕ))
unfolding alive_one
alive_svrs site now [] m = some m
alive_svrs site now ((id, e) ∷ es) m = elim (alive_one site now id e m) [
  | none ↦ none
  | some m' ↦ alive_svrs site now es m'
]

-- A new server is put into the map, and its goroutine started.
abbrev pub start_svr : ℕ → List ℕ → ImMgr → ImMgr
start_svr sid addr m = record m {
  im_map = Assoc.insert (sid % 2 ^ 16) m.next_svr m.im_map;
  svrs =
      store m.next_svr (record { conn = none; addr = addr; id = sid % 2 ^ 16; status = 0 }) m.svrs;
  next_svr = suc m.next_svr;
}

-- The manager, and the numbers of the servers that are not among `known`.
unfoldable pub start_new : List (ℕ × List ℕ) → List (ℕ × List ℕ) → ImMgr → ImMgr × List ℕ
unfolding Assoc.lookup Assoc.insert
start_new known [] m = (m, [])
start_new known ((sid, addr) ∷ svrs) m =
    let (m', started) = start_new known svrs (start_svr sid addr m) in
    let skipped = start_new known svrs m in
    elim (Assoc.lookup sid known) [ some a ↦ skipped | none ↦ (m', sid ∷ started) ]

unfoldable pub know_all : List ℕ → List (ℕ × List ℕ) → List (ℕ × List ℕ)
unfolding Assoc.insert
know_all [] m = m
know_all (sid ∷ sids) m = know_all sids (Assoc.insert sid [] m)

unfoldable pub add_all : Site → List ℕ → HashRing → HashRing
unfolding add_node
add_all site [] h = h
add_all site (sid ∷ sids) h = add_all site sids (add_node site.hash (site.itoa sid) h)

abbrev pub ring_with : Site → List ℕ → Option HashRing → HashRing
ring_with site sids none =
    new_hashring_with_weights site.hash (map (λ sid. (site.itoa sid, 1)) sids)
ring_with site sids (some h) = add_all site sids h

abbrev pub with_new : Site → ImMgr × List ℕ → ImMgr
with_new site (m, []) = m
with_new site (m, sid ∷ sids) = record m {
  hash_ring = some (ring_with site (sid ∷ sids) m.hash_ring);
  ims = know_all (sid ∷ sids) m.ims;
}

-- `refreshIMSvrList`, on the entries that Redis has; `none` is a panic.
unfoldable pub refresh_im_svr_list : Site → ℕ → List (List ℕ × Entry) → Gate → Option Gate
unfolding alive_svrs start_new know_all add_all new_hashring_with_weights
refresh_im_svr_list site now entries g = elim (alive_svrs site now entries []) [
  | none ↦ none
  | some svrs ↦ some (record g { ims = with_new site (start_new g.ims.ims svrs g.ims) })
]
