-- ===== src/Router/Copies.antt =====
-- Sending to one client and to every client of a registry (router/server.go, router/client.go).
use gogame.Common.{ℕ, zero, suc, ◌≡◌, refl, ap, sym, ◌∙◌, List, [], ◌∷◌}
use gogame.Common.{Option, none, some, if◌then◌else◌, ◌==◌, inl, inr, Bool-cases, ==→≡}
use gogame.Message.{SsMessage, pack_ss_message}
use gogame.Session.{Session, session_send}
use gogame.Router.{Server, RouteClient, Registry}
use gogame.Router.{send_msg, send_all, update}
use gogame.Router.Same.{IsSame, send_msg-IsSame}

-- A session into which the same bytes are sent `n` times.
pub sends : ℕ → List ℕ → Session → Session
sends zero b s = s
sends (suc n) b s = sends n b (session_send b s)

-- How many clients of a registry have the session `t`.
pub copies : (ℕ → RouteClient) → Registry → ℕ → ℕ
copies clients [] t = 0
copies clients ((id, r) ∷ m) t =
    let rest = copies clients m t in if t == (clients r).session then suc rest else rest

-- The session `t` after the bytes have been sent to one client, if there is one.
abbrev pub reached : List ℕ → Option ℕ → Server → ℕ → Session
reached b none sv t = sv.sessions t
reached b (some c) sv t =
    if t == (sv.clients c).session then session_send b (sv.sessions t) else sv.sessions t

update_there :
    {A : Type 0} (store : ℕ → A) (at t : ℕ) (f : A → A)
    → update store at (f (store at)) t ≡ (if t == at then f (store t) else store t)
update_there store at t f = elim (Bool-cases (t == at)) [
  | inl here ↦ rw here (ap (λ r. f (store r)) (sym (==→≡ t at here)))
  | inr other ↦ rw other refl
]

pub send_msg-reached :
    (msg : SsMessage) (c : ℕ) (sv : Server) (t : ℕ)
    → (send_msg msg c sv).sessions t ≡ reached (pack_ss_message msg) (some c) sv t
unfolding send_msg
send_msg-reached msg c sv t =
    update_there sv.sessions (sv.clients c).session t (session_send (pack_ss_message msg))

copies-same :
    (sv sv' : Server) (m : Registry) (t : ℕ)
    → IsSame sv sv'
    → copies sv'.clients m t ≡ copies sv.clients m t
unfolding copies
copies-same sv sv' [] t same = refl
copies-same sv sv' ((id, r) ∷ m) t same =
    rw ((same.clients r).session, copies-same sv sv' m t same) refl

sends_one :
    (b : List ℕ) (sv : Server) (c t n : ℕ)
    → sends n b (reached b (some c) sv t)
      ≡ sends (if t == (sv.clients c).session then suc n else n) b (sv.sessions t)
unfolding sends
sends_one b sv c t n = elim (Bool-cases (t == (sv.clients c).session)) [
  | inl here ↦ rw here refl
  | inr other ↦ rw other refl
]

pub send_all-sends :
    (msg : SsMessage) (m : Registry) (sv : Server) (t : ℕ)
    → (send_all msg m sv).sessions t
      ≡ sends (copies sv.clients m t) (pack_ss_message msg) (sv.sessions t)
unfolding send_all copies sends
send_all-sends msg [] sv t = refl
send_all-sends msg ((id, r) ∷ m) sv t =
    send_all-sends msg m (send_msg msg r sv) t
    ∙ rw
        (
          copies-same sv (send_msg msg r sv) m t (send_msg-IsSame msg r sv),
          send_msg-reached msg r sv t,
        )
        (sends_one (pack_ss_message msg) sv r t (copies sv.clients m t))
