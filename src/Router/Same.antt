-- ===== src/Router/Same.antt =====
-- What sending, closing and counting leave alone in the server of router/server.go: the registries,
-- who the clients are, and which client a session has.
use gogame.Common.{true, ℕ, ◌≡◌, refl, ◌∙◌, arith, List, [], ◌∷◌}
use gogame.Common.{Option, none, some, ◌==◌, inl, inr, Bool-cases, Option-cases}
use gogame.Message.{SsMessage, pack_ss_message}
use gogame.Session.{Session, session_send, session_shutdown}
use gogame.Router.{Server, RouteClient, Registry, Kind, portals, games, teams, registry, update}
use gogame.Router.{update_session, send_msg, close, close_old, send_all, broadcast}
use gogame.Router.Sync.{
  Env, broadcast_sync, send_sync, pack_message, count_all, statistics, counted,
}

-- Two clients are the same but for the counters.
pub record IsSameClient (c d : RouteClient) : Type 0 where
  pub id : d.id ≡ c.id
  pub svr_type : d.svr_type ≡ c.svr_type
  pub session : d.session ≡ c.session

-- Two states of a session have the same client and are verified alike, and the second is closed if
-- the first is.
pub record IsSameSession (s t : Session) : Type 0 where
  pub userdata : t.userdata ≡ s.userdata
  pub verified : t.verified ≡ s.verified
  pub stays_closed : s.conn.closed ≡ true → t.conn.closed ≡ true

pub record IsSame (sv sv' : Server) : Type 0 where
  pub registries : (k : Kind) → registry k sv' ≡ registry k sv
  pub next : sv'.next_client ≡ sv.next_client
  pub clients : (r : ℕ) → IsSameClient (sv.clients r) (sv'.clients r)
  pub sessions : (s : ℕ) → IsSameSession (sv.sessions s) (sv'.sessions s)

IsSameClient-refl : (c : RouteClient) → IsSameClient c c
IsSameClient-refl c = record { id = refl; svr_type = refl; session = refl }

IsSameSession-refl : (s : Session) → IsSameSession s s
IsSameSession-refl s = record { userdata = refl; verified = refl; stays_closed = λ e. e }

pub IsSame-refl : (sv : Server) → IsSame sv sv
IsSame-refl sv = record {
  registries = λ k. refl;
  next = refl;
  clients = λ r. IsSameClient-refl (sv.clients r);
  sessions = λ s. IsSameSession-refl (sv.sessions s);
}

pub IsSame-trans : (a b c : Server) → IsSame a b → IsSame b c → IsSame a c
IsSame-trans a b c f g = record {
  registries = λ k. g.registries k ∙ f.registries k;
  next = g.next ∙ f.next;
  clients = λ r. record {
    id = (g.clients r).id ∙ (f.clients r).id;
    svr_type = (g.clients r).svr_type ∙ (f.clients r).svr_type;
    session = (g.clients r).session ∙ (f.clients r).session;
  };
  sessions = λ s. record {
    userdata = (g.sessions s).userdata ∙ (f.sessions s).userdata;
    verified = (g.sessions s).verified ∙ (f.sessions s).verified;
    stays_closed = λ e. (g.sessions s).stays_closed ((f.sessions s).stays_closed e);
  };
}

-- A write to a store keeps a relation that the written value is in.
update-keeps :
    {A : Type 0} (R : A → A → Type 0)
    → ((x : A) → R x x)
    → (store : ℕ → A) (at : ℕ) (value : A) → R (store at) value
    → (r : ℕ) → R (store r) (update store at value r)
update-keeps R same store at value h r = elim (Bool-cases (r == at)) [
  | inl here ↦ ground (arith, h)
  | inr other ↦ rw other (same (store r))
]

registries-same :
    (sv : Server) (f : ℕ → Session) (k : Kind)
    → registry k (record sv { sessions = f }) ≡ registry k sv
registries-same sv f portals = refl
registries-same sv f games = refl
registries-same sv f teams = refl

pub update_session-IsSame :
    (s : ℕ) (f : Session → Session) (sv : Server)
    → IsSameSession (sv.sessions s) (f (sv.sessions s))
    → IsSame sv (update_session s f sv)
update_session-IsSame s f sv h = record {
  registries = registries-same sv _;
  next = refl;
  clients = λ r. IsSameClient-refl (sv.clients r);
  sessions = update-keeps IsSameSession IsSameSession-refl sv.sessions s _ h;
}

-- A client whose counters change.
update_client-IsSame :
    (r : ℕ) (c : RouteClient) (sv : Server)
    → IsSameClient (sv.clients r) c
    → IsSame sv (record sv { clients = update sv.clients r c })
update_client-IsSame r c sv h = record {
  registries = λ k. registry-clients k;
  next = refl;
  clients = update-keeps IsSameClient IsSameClient-refl sv.clients r c h;
  sessions = λ s. IsSameSession-refl (sv.sessions s);
}
  where
    registry-clients :
        (k : Kind) → registry k (record sv { clients = update sv.clients r c }) ≡ registry k sv
    registry-clients portals = refl
    registry-clients games = refl
    registry-clients teams = refl

session_send-IsSameSession : (b : List ℕ) (s : Session) → IsSameSession s (session_send b s)
unfolding session_send
session_send-IsSameSession b s = record {
  userdata = refl;
  verified = refl;
  stays_closed = λ e. ground (arith, e);
}

session_shutdown-IsSameSession : (s : Session) → IsSameSession s (session_shutdown s)
unfolding session_shutdown
session_shutdown-IsSameSession s = record {
  userdata = refl;
  verified = refl;
  stays_closed = λ e. ground (arith, e);
}

pub send_msg-IsSame : (msg : SsMessage) (r : ℕ) (sv : Server) → IsSame sv (send_msg msg r sv)
unfolding send_msg
send_msg-IsSame msg r sv =
    let client = sv.clients r in
    let b = pack_ss_message msg in
    let sent = update_session client.session (session_send b) sv in
    IsSame-trans sv sent (send_msg msg r sv)
      (update_session-IsSame client.session (session_send b) sv
        (session_send-IsSameSession b (sv.sessions client.session)))
      (update_client-IsSame r _ sent (record { id = refl; svr_type = refl; session = refl }))

pub close-IsSame : (r : ℕ) (sv : Server) → IsSame sv (close r sv)
unfolding close
close-IsSame r sv =
    update_session-IsSame (sv.clients r).session session_shutdown sv
      (session_shutdown-IsSameSession (sv.sessions (sv.clients r).session))

pub close_old-IsSame : (old : Option ℕ) (sv : Server) → IsSame sv (close_old old sv)
close_old-IsSame none sv = IsSame-refl sv
close_old-IsSame (some r) sv = close-IsSame r sv

send_all-IsSame : (msg : SsMessage) (m : Registry) (sv : Server) → IsSame sv (send_all msg m sv)
unfolding send_all
send_all-IsSame msg [] sv = IsSame-refl sv
send_all-IsSame msg ((id, r) ∷ m) sv =
    IsSame-trans sv (send_msg msg r sv) (send_all msg m (send_msg msg r sv))
      (send_msg-IsSame msg r sv) (send_all-IsSame msg m (send_msg msg r sv))

pub broadcast-IsSame : (k : Kind) (msg : SsMessage) (sv : Server) → IsSame sv (broadcast k msg sv)
unfolding broadcast
broadcast-IsSame k msg sv = send_all-IsSame msg (registry k sv) sv

pub broadcast_sync-IsSame :
    (env : Env) (k : Kind) (sv : Server) → IsSame sv (broadcast_sync env k sv)
unfolding broadcast_sync
broadcast_sync-IsSame env k sv = elim (Option-cases (pack_message env k sv)) [
  | inl failed ↦ rw (failed, broadcast_sync) (IsSame-refl sv)
  | inr (msg, packed) ↦ rw (packed, broadcast_sync) (broadcast-IsSame portals msg sv)
]

pub send_sync-IsSame :
    (env : Env) (k : Kind) (r : ℕ) (sv : Server) → IsSame sv (send_sync env k r sv)
unfolding send_sync
send_sync-IsSame env k r sv = elim (Option-cases (pack_message env k sv)) [
  | inl failed ↦ rw (failed, send_sync) (IsSame-refl sv)
  | inr (msg, packed) ↦ rw (packed, send_sync) (send_msg-IsSame msg r sv)
]

count_all-IsSame : (m : Registry) (sv : Server) → IsSame sv (count_all m sv)
unfolding count_all
count_all-IsSame [] sv = IsSame-refl sv
count_all-IsSame ((id, r) ∷ m) sv =
    let sv' = record sv { clients = update sv.clients r (counted (sv.clients r)) } in
    IsSame-trans sv sv' (count_all m sv')
      (update_client-IsSame r _ sv (record { id = refl; svr_type = refl; session = refl }))
      (count_all-IsSame m sv')

-- The counter of messages to portals.
pub message_counted-IsSame :
    (sv : Server) (n last : ℕ)
    → IsSame sv (record sv { msg_to_portal_cnt = n; last_msg_to_portal_cnt = last })
message_counted-IsSame sv n last = record {
  registries = λ k. registry-counts k;
  next = refl;
  clients = λ r. IsSameClient-refl (sv.clients r);
  sessions = λ s. IsSameSession-refl (sv.sessions s);
}
  where
    registry-counts :
        (k : Kind)
        → registry k (record sv { msg_to_portal_cnt = n; last_msg_to_portal_cnt = last })
          ≡ registry k sv
    registry-counts portals = refl
    registry-counts games = refl
    registry-counts teams = refl

pub statistics-IsSame : (sv : Server) → IsSame sv (statistics sv)
unfolding statistics
statistics-IsSame sv =
    let sv' = record sv { last_msg_to_portal_cnt = sv.msg_to_portal_cnt } in
    IsSame-trans sv sv' (statistics sv) (message_counted-IsSame sv _ _)
      (count_all-IsSame sv.portal_clients sv')
