-- ===== src/Router/Ready.antt =====
-- A READY message, up to what follows it (`handleReady` of router/internal.go and router/portal.go).
use gogame.Common.{ℕ, ◌≡◌, refl, arith, true, List}
use gogame.Common.{Option, none, some, if◌then◌else◌, ◌==◌, inl, inr, Bool-cases}
use gogame.Consts.EntityType
use gogame.Consts.SsCmd
use gogame.Message.{SsMessage, unpack_ss_message}
use gogame.Session.{verify}
use gogame.Router.{Server, Registry, Kind, portals, games, teams, registry, type_of}
use gogame.Router.{update_session, set_registry, new_router_client, add_client}
use gogame.Router.Sync.{Env}
use gogame.Router.Internal
use gogame.Router.Internal.{set_userdata, from_client, ready_server, drop_server, close_client}
use gogame.Router.Portal
use gogame.Router.History.{Listener, internal, portal, listener_receive}
use gogame.Router.Received.{internal_received, portal_received}
use gogame.Router.Same.{IsSame, broadcast_sync-IsSame, send_sync-IsSame}
use gogame.Router.Same.{message_counted-IsSame}

-- The registry that a READY message is for.
unfoldable pub origin : Listener → SsMessage → Option Kind
origin portal msg = some portals
origin internal msg =
    if msg.head.src_type == EntityType.game_svr
    then some games
    else if msg.head.src_type == EntityType.team_svr
    then some teams
    else none

pub registry-set_registry :
    (k : Kind) (m : Registry) (sv : Server) → registry k (set_registry k m sv) ≡ m
registry-set_registry portals m sv = refl
registry-set_registry games m sv = refl
registry-set_registry teams m sv = refl

pub ==-refl : (a : ℕ) → (a == a) ≡ true
==-refl a = ground arith

-- The server with the session's new client, before the messages that follow.
abbrev pub with_client : Kind → ℕ → ℕ → Server → Server
with_client k s id sv =
    let (sv', r) = new_router_client s id (type_of k) sv in
    add_client k r (update_session s (λ x. set_userdata (some r) (verify x)) sv')

-- What holds of the joined server, and of whatever is the same, holds after the READY message.
module _ (Q : Server → Type 0) (keeps : (a c : Server) → IsSame a c → Q a → Q c) (env : Env) (s : ℕ)
    (msg : SsMessage) (sv : Server) where
  ready_server-keeps :
      (k : Kind)
      → Q (with_client k s msg.head.src_id sv)
      → Q (ready_server env k s msg.head.src_id sv)
  unfolding ready_server
  ready_server-keeps k q = keeps _ _ (broadcast_sync-IsSame env k _) q

  internal_ready-keeps :
      (k : Kind)
      → origin internal msg ≡ some k
      → Q (with_client k s msg.head.src_id sv)
      → Q (Internal.handle_ready env s msg sv)
  unfolding Internal.handle_ready origin
  internal_ready-keeps k from q = elim (Bool-cases (msg.head.src_type == EntityType.game_svr)) [
    | inl game ↦
        let e = rw game at from in
        let this : k ≡ games = cc in rw game (ready_server-keeps games (rw this at q))
    | inr other ↦ elim (Bool-cases (msg.head.src_type == EntityType.team_svr)) [
      | inl team ↦
          let e = rw (other, team) at from in
          let this : k ≡ teams = cc in rw (other, team) (ready_server-keeps teams (rw this at q))
      | inr neither ↦ absurd (let e = rw (other, neither) at from in cc)
    ]
  ]

  portal_ready-keeps :
      Q (with_client portals s msg.head.src_id sv) → Q (Portal.handle_ready env s msg sv)
  unfolding Portal.handle_ready
  portal_ready-keeps q =
      let r = sv.next_client in
      keeps _ _ (send_sync-IsSame env teams r _) (keeps _ _ (send_sync-IsSame env games r _) q)

  pub listener_ready-keeps :
      (l : Listener) (k : Kind) (b : List ℕ)
      → unpack_ss_message b ≡ some msg
      → msg.head.ss_cmd ≡ SsCmd.ready
      → origin l msg ≡ some k
      → Q (with_client k s msg.head.src_id sv)
      → Q (listener_receive env l s b sv)
  unfolding Internal.handle_message Portal.handle_message Portal.dispatch_message origin
  listener_ready-keeps internal k b unpacked ready from q =
      rw (internal_received env s b msg sv unpacked, Internal.handle_message, ready)
        (internal_ready-keeps k from q)
  listener_ready-keeps portal k b unpacked ready from q =
      let this : k ≡ portals = cc in
      rw
        (
          portal_received env s b msg sv unpacked,
          Portal.handle_message,
          Portal.dispatch_message,
          ready,
        )
        (keeps _ _ (message_counted-IsSame _ _ _) (portal_ready-keeps (rw this at q)))
