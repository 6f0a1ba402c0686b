-- ===== src/Router/Delivery.antt =====
-- Who receives a message that a portal or a server sends through the router (router/portal.go,
-- router/internal.go).
use gogame.Common.{ℕ, ◌<◌, ◌≡◌, refl, ap, sym, ◌∙◌, true, List}
use gogame.Common.{Option, none, some, if◌then◌else◌, ◌==◌, inl, inr, All, Bool-cases}
use gogame.Consts.EntityType
use gogame.Consts.SsCmd
use gogame.Consts.TransType
use gogame.Message.{SsMessage, pack_ss_message, unpack_ss_message}
use gogame.Message.Head.{pack-unpack}
use gogame.Router.{Server, Kind, portals, games, teams, registry, get_client}
use gogame.Router.{broadcast}
use gogame.Router.Sync.{Env}
use gogame.Router.Internal
use gogame.Router.Internal.{send_to}
use gogame.Router.Portal
use gogame.Router.Portal.{route}
use gogame.Router.History.{Listener, internal, portal, listener_receive}
use gogame.Router.Received.{internal_received, portal_received}
use gogame.Router.Copies.{sends, copies, reached, send_msg-reached, send_all-sends}

-- Whom a listener forwards a message to: what servers send goes to portals, and what portals send
-- goes to the kind of servers that the head names.
unfoldable pub destination : Listener → SsMessage → Option Kind
destination internal msg = some portals
destination portal msg =
    if msg.head.dst_type == EntityType.game_svr
    then some games
    else if msg.head.dst_type == EntityType.team_svr
    then some teams
    else none

-- A verified client's message goes where its head says.
module _ (env : Env) (s r : ℕ) (b : List ℕ) (msg : SsMessage) (sv : Server)
    (unpacked : unpack_ss_message b ≡ some msg) (is_msg : msg.head.ss_cmd ≡ SsCmd.msg)
    (verified : (sv.sessions s).verified ≡ true)
    (has_client : (sv.sessions s).userdata ≡ some r) where
  internal_dispatched : Internal.handle_message env s msg sv ≡ Internal.handle_msg msg sv
  unfolding Internal.handle_message Internal.handle_verify_msg
  internal_dispatched = rw (is_msg, verified, has_client) refl

  portal_dispatched : Portal.dispatch_message env s msg sv ≡ Portal.handle_msg msg sv
  unfolding Portal.dispatch_message Portal.handle_verify_msg
  portal_dispatched = rw (is_msg, verified, has_client) refl

  internal_routed : Internal.handle_msg msg sv ≡ route portals msg sv
  unfolding Internal.handle_msg route
  internal_routed = refl

  portal_routed :
      (k : Kind) → destination portal msg ≡ some k → Portal.handle_msg msg sv ≡ route k msg sv
  unfolding Portal.handle_msg destination
  portal_routed k goes = elim (Bool-cases (msg.head.dst_type == EntityType.game_svr)) [
    | inl game ↦ let e = rw game at goes in let this : games ≡ k = cc in rw (game, sym this) refl
    | inr other ↦ elim (Bool-cases (msg.head.dst_type == EntityType.team_svr)) [
      | inl team ↦
          let e = rw (other, team) at goes in
          let this : teams ≡ k = cc in rw (other, team, sym this) refl
      | inr neither ↦ absurd (let e = rw (other, neither) at goes in cc)
    ]
  ]

  receive-route :
      (l : Listener) (k : Kind) (t : ℕ)
      → destination l msg ≡ some k
      → (listener_receive env l s b sv).sessions t ≡ (route k msg sv).sessions t
  unfolding Portal.handle_message destination
  receive-route internal k t goes =
      let this : portals ≡ k = cc in
      ap (λ x. x.sessions t)
        (internal_received env s b msg sv unpacked ∙ internal_dispatched ∙ internal_routed)
      ∙ ap (λ j. (route j msg sv).sessions t) this
  receive-route portal k t goes =
      ap (λ x. x.sessions t) (portal_received env s b msg sv unpacked)
      ∙ ap (λ x. x.sessions t) (portal_dispatched ∙ portal_routed k goes)

  packed : All (λ x. x < 256) b → pack_ss_message msg ≡ b
  packed bytes = elim (pack-unpack b bytes) [
    | inl (short, failed) ↦ absurd cc
    | inr (long, m, e, back) ↦ let this : m ≡ msg = cc in ap pack_ss_message (sym this) ∙ back
  ]

  message_by_key :
      (k : Kind)
      → msg.head.trans_type ≡ TransType.by_key
      → route k msg sv ≡ send_to msg (get_client k msg.head.dst_id sv) sv
  unfolding route
  message_by_key k by_key =
      ap
        (λ x.
          if x == TransType.by_key
          then send_to msg (get_client k msg.head.dst_id sv) sv
          else if x == TransType.broadcast
          then broadcast k msg sv
          else sv)
        by_key

  message_broadcast :
      (k : Kind) → msg.head.trans_type ≡ TransType.broadcast → route k msg sv ≡ broadcast k msg sv
  unfolding route
  message_broadcast k all =
      ap
        (λ x.
          if x == TransType.by_key
          then send_to msg (get_client k msg.head.dst_id sv) sv
          else if x == TransType.broadcast
          then broadcast k msg sv
          else sv)
        all

  send_to-reached :
      (c : Option ℕ) (t : ℕ) → (send_to msg c sv).sessions t ≡ reached (pack_ss_message msg) c sv t
  unfolding send_to
  send_to-reached none t = refl
  send_to-reached (some c) t = send_msg-reached msg c sv t

  -- From a verified session, a message by key is sent, byte for byte, into the session of the
  -- client that is registered under the id in its head, among the portals or the kind of servers
  -- that it is for. No other session changes, and none at all where no client is registered.
  pub by_key_delivered :
      (l : Listener) (k : Kind) (t : ℕ)
      → All (λ x. x < 256) b
      → destination l msg ≡ some k
      → msg.head.trans_type ≡ TransType.by_key
      → (listener_receive env l s b sv).sessions t
        ≡ reached b (get_client k msg.head.dst_id sv) sv t
  by_key_delivered l k t bytes goes by_key =
      let target = get_client k msg.head.dst_id sv in
      receive-route l k t goes
      ∙ ap (λ x. x.sessions t) (message_by_key k by_key)
      ∙ send_to-reached target t
      ∙ ap (λ x. reached x target sv t) (packed bytes)

  -- From a verified session, a broadcast is sent, byte for byte, into every session as often as
  -- clients are registered, in the registry that it is for, that send into this session.
  pub broadcast_delivered :
      (l : Listener) (k : Kind) (t : ℕ)
      → All (λ x. x < 256) b
      → destination l msg ≡ some k
      → msg.head.trans_type ≡ TransType.broadcast
      → (listener_receive env l s b sv).sessions t
        ≡ sends (copies sv.clients (registry k sv) t) b (sv.sessions t)
  unfolding broadcast
  broadcast_delivered l k t bytes goes all =
      let n = copies sv.clients (registry k sv) t in
      receive-route l k t goes
      ∙ ap (λ x. x.sessions t) (message_broadcast k all)
      ∙ send_all-sends msg (registry k sv) sv t
      ∙ ap (λ x. sends n x (sv.sessions t)) (packed bytes)
