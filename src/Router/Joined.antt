-- ===== src/Router/Joined.antt =====
-- A READY message makes a client and registers it (`handleReady` of router/internal.go and
-- router/portal.go).
use gogame.Common.{ℕ, ◌≡◌, refl, ap, ◌∙◌, arith, Bool, List}
use gogame.Common.{some}
use gogame.Common.Assoc
use gogame.Consts.SsCmd
use gogame.Message.{SsMessage, unpack_ss_message}
use gogame.Session.{verify}
use gogame.Router.{Server, Kind, registry, get_client, type_of}
use gogame.Router.{update_session, new_router_client, add_client, close_old}
use gogame.Router.Sync.{Env}
use gogame.Router.Internal.{set_userdata}
use gogame.Router.History.{Listener, listener_receive}
use gogame.Router.Same.{IsSame, close_old-IsSame}
use gogame.Router.Registered.{set_registry-IsRest}
use gogame.Router.Ready.{origin, with_client, registry-set_registry, ==-refl, listener_ready-keeps}

-- The server, with a session's new client.
pub record IsJoined (k : Kind) (s key r : ℕ) (v : Bool) (sv : Server) : Type 0 where
  pub registered : get_client k key sv ≡ some r
  pub session : (sv.clients r).session ≡ s
  pub has_client : (sv.sessions s).userdata ≡ some r
  pub verified : (sv.sessions s).verified ≡ v

add_client-IsJoined :
    (k : Kind) (s r : ℕ) (sv : Server)
    → (sv.clients r).session ≡ s
    → (sv.sessions s).userdata ≡ some r
    → IsJoined k s (sv.clients r).id r (sv.sessions s).verified (add_client k r sv)
unfolding add_client get_client
add_client-IsJoined k s r sv session has =
    let id = (sv.clients r).id in
    let m = registry k sv in
    let old = close_old (Assoc.lookup id m) sv in
    let same = close_old-IsSame (Assoc.lookup id m) sv in
    let rest = set_registry-IsRest k (Assoc.insert id r m) old in
    record {
      registered =
          rw
            (
              registry-set_registry k (Assoc.insert id r m) old,
              Assoc.lookup-insert id id r m,
              ==-refl id,
            )
            refl;
      session = ap (λ c. (c r).session) rest.clients ∙ (same.clients r).session ∙ session;
      has_client = ap (λ x. (x s).userdata) rest.sessions ∙ (same.sessions s).userdata ∙ has;
      verified = ap (λ x. (x s).verified) rest.sessions ∙ (same.sessions s).verified;
    }

same-IsJoined :
    (k : Kind) (s key r : ℕ) (v : Bool) (sv sv' : Server)
    → IsSame sv sv'
    → IsJoined k s key r v sv
    → IsJoined k s key r v sv'
unfolding get_client
same-IsJoined k s key r v sv sv' same j = record {
  registered = rw (same.registries k) j.registered;
  session = (same.clients r).session ∙ j.session;
  has_client = (same.sessions s).userdata ∙ j.has_client;
  verified = (same.sessions s).verified ∙ j.verified;
}

with_client-IsJoined :
    (k : Kind) (s id : ℕ) (sv : Server)
    → IsJoined k s id sv.next_client (verify (sv.sessions s)).verified (with_client k s id sv)
unfolding new_router_client
with_client-IsJoined k s id sv =
    let (sv', r) = new_router_client s id (type_of k) sv in
    let taken = update_session s (λ x. set_userdata (some r) (verify x)) sv' in
    let own : (taken.clients r).id ≡ id = ground arith in
    let same : (taken.sessions s).verified ≡ (verify (sv.sessions s)).verified =
      rw (==-refl s) refl in
    rw (own, same) at (add_client-IsJoined k s r taken (ground arith) (ground arith))

pub listener_ready-IsJoined :
    (env : Env) (l : Listener) (k : Kind) (s : ℕ) (b : List ℕ) (msg : SsMessage) (sv : Server)
    → unpack_ss_message b ≡ some msg
    → msg.head.ss_cmd ≡ SsCmd.ready
    → origin l msg ≡ some k
    → IsJoined k s msg.head.src_id sv.next_client
        (verify (sv.sessions s)).verified
        (listener_receive env l s b sv)
listener_ready-IsJoined env l k s b msg sv unpacked ready from =
    let id = msg.head.src_id in
    let v = (verify (sv.sessions s)).verified in
    listener_ready-keeps (IsJoined k s id sv.next_client v)
      (λ a c. same-IsJoined k s id sv.next_client v a c) env s msg sv l k b unpacked ready from
      (with_client-IsJoined k s id sv)
