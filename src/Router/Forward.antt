-- ===== src/Router/Forward.antt =====
-- The messages of verified servers and portals leave the registries alone (`handleVerifyMsg` of
-- router/internal.go and router/portal.go).
use gogame.Common.{ℕ, Bool, true, false}
use gogame.Common.{Option, none, some, if◌then◌else◌}
use gogame.Message.{SsMessage}
use gogame.Router.{Server, Kind, portals, games, teams}
use gogame.Router.Internal
use gogame.Router.Portal
use gogame.Router.Internal.{
  set_userdata, drop_server, close_client, ready_server, send_to, from_client,
}
use gogame.Router.Portal.{route}
use gogame.Router.Same.{IsSame, IsSame-refl, send_msg-IsSame, close-IsSame, broadcast-IsSame}

-- What forwards messages leaves everything but the connections and the counters alone.
send_to-IsSame : (msg : SsMessage) (r : Option ℕ) (sv : Server) → IsSame sv (send_to msg r sv)
unfolding send_to
send_to-IsSame msg none sv = IsSame-refl sv
send_to-IsSame msg (some r) sv = send_msg-IsSame msg r sv

-- One of two, by a test.
if-IsSame :
    (b : Bool) (sv a c : Server) → IsSame sv a → IsSame sv c → IsSame sv (if b then a else c)
if-IsSame true sv a c f g = f
if-IsSame false sv a c f g = g

pub route-IsSame : (k : Kind) (msg : SsMessage) (sv : Server) → IsSame sv (route k msg sv)
unfolding route
route-IsSame k msg sv =
    if-IsSame _ sv _ _ (send_to-IsSame msg _ sv)
      (if-IsSame _ sv _ _ (broadcast-IsSame k msg sv) (IsSame-refl sv))

pub internal_msg-IsSame : (msg : SsMessage) (sv : Server) → IsSame sv (Internal.handle_msg msg sv)
unfolding Internal.handle_msg
internal_msg-IsSame msg sv =
    if-IsSame _ sv _ _ (send_to-IsSame msg _ sv)
      (if-IsSame _ sv _ _ (broadcast-IsSame portals msg sv) (IsSame-refl sv))

pub internal_verified-IsSame :
    (r : ℕ) (msg : SsMessage) (sv : Server) → IsSame sv (Internal.handle_verify_msg r msg sv)
unfolding Internal.handle_verify_msg
internal_verified-IsSame r msg sv = if-IsSame _ sv _ _ (send_msg-IsSame msg r sv) (
    if-IsSame _ sv _ _ (close-IsSame r sv)
      (if-IsSame _ sv _ _ (internal_msg-IsSame msg sv) (IsSame-refl sv)))

portal_msg-IsSame : (msg : SsMessage) (sv : Server) → IsSame sv (Portal.handle_msg msg sv)
unfolding Portal.handle_msg
portal_msg-IsSame msg sv =
    if-IsSame _ sv _ _ (route-IsSame games msg sv)
      (if-IsSame _ sv _ _ (route-IsSame teams msg sv) (IsSame-refl sv))

pub portal_verified-IsSame :
    (r : ℕ) (msg : SsMessage) (sv : Server) → IsSame sv (Portal.handle_verify_msg r msg sv)
unfolding Portal.handle_verify_msg
portal_verified-IsSame r msg sv = if-IsSame _ sv _ _ (send_msg-IsSame msg r sv) (
    if-IsSame _ sv _ _ (close-IsSame r sv)
      (if-IsSame _ sv _ _ (portal_msg-IsSame msg sv) (IsSame-refl sv)))

pub from_client-IsSame :
    (handle : ℕ → Server → Server) (v : Bool) (r : Option ℕ) (sv : Server)
    → ((c : ℕ) → IsSame sv (handle c sv))
    → IsSame sv (from_client handle v r sv)
from_client-IsSame handle v none sv h = IsSame-refl sv
from_client-IsSame handle v (some r) sv h = if-IsSame v sv _ _ (h r) (IsSame-refl sv)
