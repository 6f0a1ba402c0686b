-- ===== src/Router/Reachable.antt =====
-- The registries stay in order through every history of the listeners (router/internal.go,
-- router/portal.go).
use gogame.Common.{ℕ, ◌<◌, ◌≡◌, refl, sym, ◌∙◌, arith, Bool, true, false, List, [], ◌∷◌, inl, inr}
use gogame.Common.{none, some, if◌then◌else◌, Option-cases}
use gogame.Common.Assoc
use gogame.Message.{SsMessage, unpack_ss_message}
use gogame.Session.{Session, expire, proxy_receive, receive_limit, session_shutdown, new_session}
use gogame.Router.{
  Server, Kind, portals, games, teams, registry, type_of, update_session, get_client,
}
use gogame.Router.Sync.{Env}
use gogame.Router.Internal
use gogame.Router.Portal
use gogame.Router.Internal.{
  set_userdata, drop_server, close_client, ready_server, send_to, from_client,
}
use gogame.Router.Portal.{route}
use gogame.Router.Same.{message_counted-IsSame, statistics-IsSame}
use gogame.Router.Same.{broadcast_sync-IsSame, send_sync-IsSame}
use gogame.Router.Registered.{IsRegistered, same-IsRegistered, remove_client-IsRegistered}
use gogame.Router.Invariant.{joined-IsRegistered, update_session-IsRegistered}
use gogame.Router.History.{Event, Listener, internal, portal, arrives, closes, expires, counts}
use gogame.Router.History.{step, run, new_server, listener_receive, listener_closed, arrive}
use gogame.Router.Forward.{internal_verified-IsSame, portal_verified-IsSame, from_client-IsSame}

if-IsRegistered :
    (b : Bool) (a c : Server) → IsRegistered a → IsRegistered c → IsRegistered (if b then a else c)
if-IsRegistered true a c f g = f
if-IsRegistered false a c f g = g

ready_server-IsRegistered :
    (env : Env) (k : Kind) (s id : ℕ) (sv : Server)
    → IsRegistered sv
    → IsRegistered (ready_server env k s id sv)
unfolding ready_server
ready_server-IsRegistered env k s id sv h =
    same-IsRegistered _ _ (broadcast_sync-IsSame env k _) (joined-IsRegistered k s id sv h)

internal_message-IsRegistered :
    (env : Env) (s : ℕ) (msg : SsMessage) (sv : Server)
    → IsRegistered sv
    → IsRegistered (Internal.handle_message env s msg sv)
unfolding Internal.handle_message Internal.handle_ready
internal_message-IsRegistered env s msg sv h =
    if-IsRegistered _ _ _
      (if-IsRegistered _ _ _ (ready_server-IsRegistered env games s msg.head.src_id sv h)
        (if-IsRegistered _ _ _ (ready_server-IsRegistered env teams s msg.head.src_id sv h) h))
      (same-IsRegistered sv _
        (from_client-IsSame _ (sv.sessions s).verified (sv.sessions s).userdata sv
          (λ c. internal_verified-IsSame c msg sv))
        h)

portal_message-IsRegistered :
    (env : Env) (s : ℕ) (msg : SsMessage) (sv : Server)
    → IsRegistered sv
    → IsRegistered (Portal.handle_message env s msg sv)
unfolding Portal.handle_message Portal.dispatch_message Portal.handle_ready
portal_message-IsRegistered env s msg sv h =
    same-IsRegistered (Portal.dispatch_message env s msg sv) _ (message_counted-IsSame _ _ _) (
      if-IsRegistered _ _ _
        (same-IsRegistered _ _ (send_sync-IsSame env teams _ _) (
          same-IsRegistered _ _ (send_sync-IsSame env games _ _)
            (joined-IsRegistered portals s msg.head.src_id sv h)))
        (same-IsRegistered sv _
          (from_client-IsSame _ (sv.sessions s).verified (sv.sessions s).userdata sv
            (λ c. portal_verified-IsSame c msg sv))
          h))

-- The session's client is gone.
unref-IsRegistered :
    (s : ℕ) (sv : Server) → IsRegistered sv → IsRegistered (update_session s (set_userdata none) sv)
unref-IsRegistered s sv h =
    update_session-IsRegistered s (set_userdata none) sv (λ r own. absurd cc) h

drop_server-IsRegistered :
    (env : Env) (k : Kind) (r : ℕ) (sv : Server)
    → IsRegistered sv
    → IsRegistered (drop_server env k r sv)
unfolding drop_server
drop_server-IsRegistered env k r sv h =
    same-IsRegistered _ _ (broadcast_sync-IsSame env k _) (remove_client-IsRegistered k r sv h)

closed-IsRegistered :
    (env : Env) (l : Listener) (s : ℕ) (sv : Server)
    → IsRegistered sv
    → IsRegistered (listener_closed env l s sv)
unfolding listener_closed Internal.handle_closed Portal.handle_closed close_client
closed-IsRegistered env internal s sv h = elim (Option-cases (sv.sessions s).userdata) [
  | inl bare ↦ rw bare (if-IsRegistered _ _ _ h h)
  | inr (r, has) ↦
      let sv' = update_session s (set_userdata none) sv in
      let h' = unref-IsRegistered s sv h in
      rw has (
        if-IsRegistered _ _ _
          (if-IsRegistered _ _ _ (drop_server-IsRegistered env games r sv' h')
            (if-IsRegistered _ _ _ (drop_server-IsRegistered env teams r sv' h') h'))
          h)
]
closed-IsRegistered env portal s sv h = elim (Option-cases (sv.sessions s).userdata) [
  | inl bare ↦ rw bare (if-IsRegistered _ _ _ h h)
  | inr (r, has) ↦
      rw has (
        if-IsRegistered _ _ _ (remove_client-IsRegistered portals r _ (unref-IsRegistered s sv h))
          h)
]

receive-IsRegistered :
    (env : Env) (l : Listener) (s : ℕ) (b : List ℕ) (sv : Server)
    → IsRegistered sv
    → IsRegistered (listener_receive env l s b sv)
unfolding listener_receive Internal.receive Portal.receive
receive-IsRegistered env internal s b sv h = elim (Option-cases (unpack_ss_message b)) [
  | inl short ↦ rw (short, listener_receive, Internal.receive) h
  | inr (msg, whole) ↦
      rw (whole, listener_receive, Internal.receive) (internal_message-IsRegistered env s msg sv h)
]
receive-IsRegistered env portal s b sv h = elim (Option-cases (unpack_ss_message b)) [
  | inl short ↦ rw (short, listener_receive, Portal.receive) h
  | inr (msg, whole) ↦
      rw (whole, listener_receive, Portal.receive) (portal_message-IsRegistered env s msg sv h)
]

proxy_receive-userdata :
    (now : ℕ) (b : List ℕ) (s : Session) → (proxy_receive now b s).0.userdata ≡ s.userdata
unfolding proxy_receive receive_limit session_shutdown
proxy_receive-userdata now b s = ground arith

expire-userdata : (s : Session) → (expire s).userdata ≡ s.userdata
unfolding expire
expire-userdata s = ground arith

-- A session that keeps its client.
kept-IsRegistered :
    (s : ℕ) (f : Session → Session) (sv : Server)
    → (f (sv.sessions s)).userdata ≡ (sv.sessions s).userdata
    → IsRegistered sv
    → IsRegistered (update_session s f sv)
kept-IsRegistered s f sv same h =
    update_session-IsRegistered s f sv (λ r own. h.bound s r (sym same ∙ own)) h

arrive-IsRegistered :
    (env : Env) (l : Listener) (now s : ℕ) (b : List ℕ) (sv : Server)
    → IsRegistered sv
    → IsRegistered (arrive env l now s b sv)
unfolding arrive
arrive-IsRegistered env l now s b sv h =
    let (x, kept) = proxy_receive now b (sv.sessions s) in
    let h' = kept-IsRegistered s (λ y. x) sv (proxy_receive-userdata now b (sv.sessions s)) h in
    elim (Option-cases kept) [
      | inl limited ↦ rw limited h'
      | inr (b', whole) ↦ rw whole (receive-IsRegistered env l s b' _ h')
    ]

step-IsRegistered :
    (env : Env) (sv : Server) (e : Event) → IsRegistered sv → IsRegistered (step env sv e)
unfolding step
step-IsRegistered env sv (arrives l now s b) h = arrive-IsRegistered env l now s b sv h
step-IsRegistered env sv (closes l s) h = closed-IsRegistered env l s sv h
step-IsRegistered env sv (expires s) h =
    kept-IsRegistered s expire sv (expire-userdata (sv.sessions s)) h
step-IsRegistered env sv counts h = same-IsRegistered sv _ (statistics-IsSame sv) h

run-IsRegistered :
    (env : Env) (sv : Server) (es : List Event) → IsRegistered sv → IsRegistered (run env sv es)
unfolding run
run-IsRegistered env sv [] h = h
run-IsRegistered env sv (e ∷ es) h =
    run-IsRegistered env (step env sv e) es (step-IsRegistered env sv e h)

lookup-new_server : (k : Kind) (id : ℕ) → Assoc.lookup id (registry k new_server) ≡ none
unfolding Assoc.lookup new_server
lookup-new_server portals id = refl
lookup-new_server games id = refl
lookup-new_server teams id = refl

new_server-IsRegistered : IsRegistered new_server
unfolding new_server new_session
new_server-IsRegistered = record {
  registered = λ k id r found. absurd (let e = rw (lookup-new_server k id) at found in cc);
  bound = λ s r has. absurd cc;
}

-- After every history of the router, whatever arrives, a client that is registered under an id has
-- been made with that id, for the kind of servers of its registry.
pub registries_kept :
    (env : Env) (es : List Event) (k : Kind) (id r : ℕ)
    → get_client k id (run env new_server es) ≡ some r
    → let sv = run env new_server es in
      (r < sv.next_client) × ((sv.clients r).id ≡ id) × ((sv.clients r).svr_type ≡ type_of k)
unfolding get_client
registries_kept env es k id r found =
    let c = (run-IsRegistered env new_server es new_server-IsRegistered).registered k id r found in
    (c.made, c.id, c.svr_type)

-- After every history of the router, whatever arrives, the client that a session has sends into
-- that session.
pub clients_bound :
    (env : Env) (es : List Event) (s r : ℕ)
    → ((run env new_server es).sessions s).userdata ≡ some r
    → ((run env new_server es).clients r).session ≡ s
clients_bound env es s r has =
    ((run-IsRegistered env new_server es new_server-IsRegistered).bound s r has).session
