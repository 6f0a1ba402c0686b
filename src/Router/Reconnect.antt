-- ===== src/Router/Reconnect.antt =====
-- Servers and portals that connect, disconnect and connect again (router/internal.go,
-- router/portal.go).
use gogame.Common.{ℕ, ◌+◌, ◌≡◌, refl, ap, ◌∙◌, arith, Bool, true, false, List}
use gogame.Common.{Option, none, some, ◌⊎◌, inl, inr, Option-cases, ne→==, ◌≢◌}
use gogame.Common.Assoc
use gogame.Consts.SsCmd
use gogame.Message.{SsMessage, unpack_ss_message}
use gogame.Session.{Session, pending, verify}
use gogame.Router.{Server, Kind, portals, games, teams, registry, get_client, type_of}
use gogame.Router.{update_session, remove_client}
use gogame.Router.Sync.{Env}
use gogame.Router.Internal
use gogame.Router.Internal.{set_userdata, from_client, ready_server, drop_server, close_client}
use gogame.Router.Portal
use gogame.Router.History.{Listener, internal, portal, listener_receive, listener_closed}
use gogame.Router.Received.{internal_received, portal_received, same-get_client}
use gogame.Router.Same.{broadcast_sync-IsSame}
use gogame.Router.Ready.{registry-set_registry, ==-refl, origin}
use gogame.Router.Joined.{listener_ready-IsJoined}

-- A READY message makes a client for its session and registers it under the id in the message's
-- head, whoever was registered there, and whether or not the session could still be verified.
pub ready_registered :
    (env : Env) (l : Listener) (k : Kind) (s : ℕ) (b : List ℕ) (msg : SsMessage) (sv : Server)
    → unpack_ss_message b ≡ some msg
    → msg.head.ss_cmd ≡ SsCmd.ready
    → origin l msg ≡ some k
    → let sv' = listener_receive env l s b sv in
      (get_client k msg.head.src_id sv' ≡ some sv.next_client)
      × ((sv'.clients sv.next_client).session ≡ s)
      × ((sv'.sessions s).userdata ≡ some sv.next_client)
ready_registered env l k s b msg sv unpacked ready from =
    let j = listener_ready-IsJoined env l k s b msg sv unpacked ready from in
    (j.registered, j.session, j.has_client)

from_client-strange :
    (handle : ℕ → Server → Server) (v : Bool) (r : Option ℕ) (sv : Server)
    → (v ≡ false) ⊎ (r ≡ none)
    → from_client handle v r sv ≡ sv
from_client-strange handle v none sv strange = refl
from_client-strange handle true (some r) sv strange =
    absurd (elim strange [ inl e ↦ cc | inr e ↦ cc ])
from_client-strange handle false (some r) sv strange = refl

message_counted : Server → Server
message_counted x = record x { msg_to_portal_cnt = x.msg_to_portal_cnt + 1 }

-- A message other than READY, from a session that is not verified or has no client, changes nothing
-- but the count of messages from portals.
pub unverified_ignored :
    (env : Env) (l : Listener) (s : ℕ) (b : List ℕ) (msg : SsMessage) (sv : Server)
    → unpack_ss_message b ≡ some msg
    → msg.head.ss_cmd ≢ SsCmd.ready
    → ((sv.sessions s).verified ≡ false) ⊎ ((sv.sessions s).userdata ≡ none)
    → listener_receive env l s b sv ≡ elim l [
      | internal ↦ sv
      | portal ↦ record sv { msg_to_portal_cnt = sv.msg_to_portal_cnt + 1 }
    ]
unfolding Internal.handle_message Portal.handle_message Portal.dispatch_message message_counted
unverified_ignored env internal s b msg sv unpacked other strange =
    internal_received env s b msg sv unpacked
    ∙ rw (ne→== msg.head.ss_cmd SsCmd.ready other)
        (from_client-strange _ (sv.sessions s).verified (sv.sessions s).userdata sv strange)
unverified_ignored env portal s b msg sv unpacked other strange =
    portal_received env s b msg sv unpacked
    ∙ rw (ne→== msg.head.ss_cmd SsCmd.ready other) (
        ap message_counted
          (from_client-strange _ (sv.sessions s).verified (sv.sessions s).userdata sv strange))

get_client-remove_client :
    (k : Kind) (r : ℕ) (sv : Server) → get_client k (sv.clients r).id (remove_client k r sv) ≡ none
unfolding get_client remove_client
get_client-remove_client k r sv =
    let id = (sv.clients r).id in
    let m = registry k sv in
    elim (Option-cases (Assoc.lookup id m)) [
      | inl missing ↦ rw (missing, remove_client) missing
      | inr (c, present) ↦
          rw
            (
              present,
              remove_client,
              registry-set_registry k (Assoc.remove id m) sv,
              Assoc.lookup-remove id id m,
              ==-refl id,
            )
            refl
    ]

drop_server-unregisters :
    (env : Env) (k : Kind) (r : ℕ) (sv : Server)
    → get_client k (sv.clients r).id (drop_server env k r sv) ≡ none
unfolding drop_server
drop_server-unregisters env k r sv =
    same-get_client k (sv.clients r).id (remove_client k r sv) (drop_server env k r sv)
      (broadcast_sync-IsSame env k (remove_client k r sv))
    ∙ get_client-remove_client k r sv

-- A verified server's session that is disconnected takes the registration of its client's id with
-- it, even where a newer client is registered under this id.
pub closed_unregisters :
    (env : Env) (k : Kind) (s r : ℕ) (sv : Server)
    → k ≢ portals
    → (sv.sessions s).verified ≡ true
    → (sv.sessions s).userdata ≡ some r
    → (sv.clients r).svr_type ≡ type_of k
    → get_client k (sv.clients r).id (listener_closed env internal s sv) ≡ none
unfolding listener_closed Internal.handle_closed close_client drop_server
closed_unregisters env portals s r sv server verified has kind = absurd (server refl)
closed_unregisters env games s r sv server verified has kind =
    rw (verified, has, kind)
      (drop_server-unregisters env games r (update_session s (set_userdata none) sv))
closed_unregisters env teams s r sv server verified has kind =
    rw (verified, has, kind)
      (drop_server-unregisters env teams r (update_session s (set_userdata none) sv))

verify_late :
    (x : Session) → x.verified ≡ false → x.verify_timer ≢ pending → (verify x).verified ≡ false
unfolding verify
verify_late x strange late = ground arith

closed_unverified :
    (env : Env) (l : Listener) (s : ℕ) (sv : Server)
    → (sv.sessions s).verified ≡ false
    → listener_closed env l s sv ≡ sv
unfolding listener_closed Internal.handle_closed Portal.handle_closed
closed_unverified env internal s sv strange =
    rw (strange, listener_closed, Internal.handle_closed) refl
closed_unverified env portal s sv strange = rw (strange, listener_closed, Portal.handle_closed) refl

-- A READY message that is handled after the session's verify timer ran out still registers a
-- client; the session stays unverified, so that disconnecting it leaves the client registered.
pub late_ready_stays :
    (env : Env) (l : Listener) (k : Kind) (s : ℕ) (b : List ℕ) (msg : SsMessage) (sv : Server)
    → unpack_ss_message b ≡ some msg
    → msg.head.ss_cmd ≡ SsCmd.ready
    → origin l msg ≡ some k
    → (sv.sessions s).verified ≡ false
    → (sv.sessions s).verify_timer ≢ pending
    → let sv' = listener_closed env l s (listener_receive env l s b sv) in
      (get_client k msg.head.src_id sv' ≡ some sv.next_client)
      × ((sv'.clients sv.next_client).session ≡ s)
      × ((sv'.sessions s).verified ≡ false)
late_ready_stays env l k s b msg sv unpacked ready from strange late =
    let j = listener_ready-IsJoined env l k s b msg sv unpacked ready from in
    let still = j.verified ∙ verify_late (sv.sessions s) strange late in
    rw (closed_unverified env l s (listener_receive env l s b sv) still)
      (j.registered, j.session, still)
