-- ===== src/Router/Replaced.antt =====
-- A READY message closes the client that it replaces (`AddGameClient` and its like in
-- router/server.go).
use gogame.Common.{ℕ, ◌≡◌, refl, arith, true, List}
use gogame.Common.{◌<◌, false, some, ◌==◌}
use gogame.Common.Assoc
use gogame.Consts.SsCmd
use gogame.Message.{SsMessage, unpack_ss_message}
use gogame.Session.{session_shutdown, verify}
use gogame.Connection.{shutdown, stop_background_write}
use gogame.Router.{
  close, Server, Registry, Kind, portals, games, teams, registry, get_client, type_of,
}
use gogame.Router.{update_session, set_registry, new_router_client, add_client}
use gogame.Router.Sync.{Env}
use gogame.Router.Internal.{set_userdata}
use gogame.Router.History.{Listener, listener_receive}
use gogame.Router.Same.{IsSame}
use gogame.Router.Ready.{origin, with_client, ==-refl, listener_ready-keeps}

-- A session that has been closed.
abbrev pub IsShut : ℕ → Server → Type 0
IsShut t sv = (sv.sessions t).conn.closed ≡ true

same-IsShut : (t : ℕ) (sv sv' : Server) → IsSame sv sv' → IsShut t sv → IsShut t sv'
same-IsShut t sv sv' same shut = (same.sessions t).stays_closed shut

close-IsShut : (r : ℕ) (sv : Server) → IsShut (sv.clients r).session (close r sv)
unfolding close session_shutdown shutdown stop_background_write
close-IsShut r sv = rw (==-refl (sv.clients r).session) (ground arith)

add_client-IsShut :
    (k : Kind) (r old : ℕ) (sv : Server)
    → Assoc.lookup (sv.clients r).id (registry k sv) ≡ some old
    → IsShut (sv.clients old).session (add_client k r sv)
unfolding add_client
add_client-IsShut k r old sv found =
    let t = (sv.clients old).session in
    let m = Assoc.insert (sv.clients r).id r (registry k sv) in
    rw (found, add_client) (set_registry-IsShut t k m (close old sv) (close-IsShut old sv))
  where
    set_registry-IsShut :
        (t : ℕ) (k : Kind) (m : Registry) (sv : Server)
        → IsShut t sv
        → IsShut t (set_registry k m sv)
    set_registry-IsShut t portals m sv shut = shut
    set_registry-IsShut t games m sv shut = shut
    set_registry-IsShut t teams m sv shut = shut

with_client-IsShut :
    (k : Kind) (s id old : ℕ) (sv : Server)
    → get_client k id sv ≡ some old
    → old < sv.next_client
    → IsShut (sv.clients old).session (with_client k s id sv)
unfolding new_router_client get_client
with_client-IsShut k s id old sv found made =
    let (sv', r) = new_router_client s id (type_of k) sv in
    let taken = update_session s (λ x. set_userdata (some r) (verify x)) sv' in
    let own : (taken.clients r).id ≡ id = ground arith in
    let other : (old == sv.next_client) ≡ false = ground arith in
    let same : (taken.clients old).session ≡ (sv.clients old).session = rw other refl in
    rw same at (add_client-IsShut k r old taken (rw own (entries k found)))
  where
    entries :
        (j : Kind)
        → Assoc.lookup id (registry j sv) ≡ some old
        → Assoc.lookup id (
            registry j (
              update_session s
                (λ x. set_userdata (some sv.next_client) (verify x))
                (new_router_client s id (type_of k) sv).0))
          ≡ some old
    entries portals e = e
    entries games e = e
    entries teams e = e

-- A READY message closes the session of the client that was registered under its id, even where
-- that is the session it came from.
pub replaced_is_shut :
    (env : Env) (l : Listener) (k : Kind) (s old : ℕ) (b : List ℕ) (msg : SsMessage) (sv : Server)
    → unpack_ss_message b ≡ some msg
    → msg.head.ss_cmd ≡ SsCmd.ready
    → origin l msg ≡ some k
    → get_client k msg.head.src_id sv ≡ some old
    → old < sv.next_client
    → ((listener_receive env l s b sv).sessions (sv.clients old).session).conn.closed ≡ true
replaced_is_shut env l k s old b msg sv unpacked ready from found made =
    let t = (sv.clients old).session in
    listener_ready-keeps (IsShut t) (λ a c. same-IsShut t a c) env s msg sv l k b unpacked ready
      from (with_client-IsShut k s msg.head.src_id old sv found made)
