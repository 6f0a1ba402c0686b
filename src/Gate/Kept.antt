-- ===== src/Gate/Kept.antt =====
-- What sending to a client and closing its connection leave as it is: `SendErrToMe` and
-- `TerminateClient` of gamegate/client.go.
use gogame.Common.{
  ℕ, ◌≡◌, refl, ap, ◌∙◌, inl, inr, Bool, true, false, List, Option, none, some, ◌==◌, if◌then◌else◌,
  Bool-cases, ==→≡, not, ==-refl,
}
use gogame.Connection.{Conn, shutdown, stop_background_write}
use mathlib.Core.Path.{subst}
use gogame.ErrCode.{ErrCode, number, account_replaced}
use gogame.Gate.{Gate, ClientTask, Notices, set_task, store, terminate_client, replaced}
use gogame.Message.{CsMessage}
use gogame.Gate.Dispatch.{cs_msg}
use gogame.Gate.{send_err_to_me, send_message_to_me, send_cs_msg, set_conn, encrypt}
use Prim.Native.Nat.{bit_and}
use gogame.Gate.Login.{Env, kick_old}

-- The map of clients stays, and each client keeps its account, connection and server.
pub record IsKept (g g' : Gate) : Type 0 where
  pub clients : g'.clients ≡ g.clients
  pub account : (i : ℕ) → (g'.tasks i).account_id ≡ (g.tasks i).account_id
  pub conn : (i : ℕ) → (g'.tasks i).conn ≡ (g.tasks i).conn
  pub gs_id : (i : ℕ) → (g'.tasks i).gs_id ≡ (g.tasks i).gs_id

pub store-field :
    {A B : Type 0} (f : A → B) (s : ℕ) (x : A) (h : ℕ → A)
    → f x ≡ f (h s)
    → (i : ℕ) → f (store s x h i) ≡ f (h i)
store-field f s x h e i = elim (Bool-cases (s == i)) [
  | inl same ↦ rw same (e ∙ ap (λ j. f (h j)) (==→≡ s i same))
  | inr differs ↦ rw differs
]

pub IsKept-trans : {g h k : Gate} → IsKept g h → IsKept h k → IsKept g k
IsKept-trans p q = record {
  clients = q.clients ∙ p.clients;
  account = λ i. q.account i ∙ p.account i;
  conn = λ i. q.conn i ∙ p.conn i;
  gs_id = λ i. q.gs_id i ∙ p.gs_id i;
}

set-IsKept :
    (b : Bool) (s c : ℕ) (t : ClientTask) (x : Conn) (g : Gate)
    → t.account_id ≡ (g.tasks s).account_id
    → t.conn ≡ (g.tasks s).conn
    → t.gs_id ≡ (g.tasks s).gs_id
    → IsKept g (set_conn c x (if b then set_task s t g else g))
set-IsKept true s c t x g account conn gs_id = record {
  clients = refl;
  account = store-field (λ t. t.account_id) s t g.tasks account;
  conn = store-field (λ t. t.conn) s t g.tasks conn;
  gs_id = store-field (λ t. t.gs_id) s t g.tasks gs_id;
}
set-IsKept false s c t x g account conn gs_id = record {
  clients = refl;
  account = λ i. refl;
  conn = λ i. refl;
  gs_id = λ i. refl;
}

pub send_cs_msg-IsKept : (m : CsMessage) (s : ℕ) (g : Gate) → IsKept g (send_cs_msg m s g).0
unfolding send_cs_msg
send_cs_msg-IsKept m s g =
    let t = g.tasks s in
    set-IsKept (not (bit_and t.flag encrypt == 0)) s t.conn _ _ g refl refl refl

pub terminate_client-IsKept : (mark s : ℕ) (g : Gate) → IsKept g (terminate_client mark s g)
unfolding terminate_client
terminate_client-IsKept mark s g = set-IsKept true s _ _ _ g refl refl refl

pub send_message_to_me-IsKept :
    (m : Option (List ℕ × ℕ)) (s : ℕ) (g : Gate) → IsKept g (send_message_to_me m s g).0
unfolding send_message_to_me
send_message_to_me-IsKept none s g = record {
  clients = refl;
  account = λ i. refl;
  conn = λ i. refl;
  gs_id = λ i. refl;
}
send_message_to_me-IsKept (some (b, id)) s g = send_cs_msg-IsKept (cs_msg id 0 b) s g

pub send_err_to_me-IsKept :
    (n : Notices) (e : ErrCode) (packet_no s : ℕ) (g : Gate)
    → IsKept g (send_err_to_me n e packet_no s g)
unfolding send_err_to_me
send_err_to_me-IsKept n e packet_no s g =
    send_message_to_me-IsKept (n.marshal_error (number e) packet_no) s g

-- The goodbye to a client that is replaced.
pub kick_old-IsKept : (env : Env) (old : ℕ) (g : Gate) → IsKept g (kick_old env old g)
unfolding kick_old
kick_old-IsKept env old g =
    IsKept-trans (send_err_to_me-IsKept env.notices account_replaced 0 old g)
      (terminate_client-IsKept replaced old (send_err_to_me env.notices account_replaced 0 old g))

pub shutdown-closed : (c : Conn) → (shutdown c).closed ≡ true
unfolding shutdown stop_background_write
shutdown-closed c = elim (Bool-cases c.closed) [ inl e ↦ rw e refl | inr e ↦ rw e refl ]

pub terminated-closed :
    (mark r : ℕ) (g : Gate) → ((terminate_client mark r g).conns (g.tasks r).conn).closed ≡ true
unfolding terminate_client
terminated-closed mark r g =
    rw (==-refl (g.tasks r).conn) (shutdown-closed (g.conns (g.tasks r).conn))

pub kick_old-closed :
    (env : Env) (old : ℕ) (g : Gate) → ((kick_old env old g).conns (g.tasks old).conn).closed ≡ true
unfolding kick_old
kick_old-closed env old g =
    let told = send_err_to_me env.notices account_replaced 0 old g in
    subst (λ c. ((terminate_client replaced old told).conns c).closed ≡ true)
      ((send_err_to_me-IsKept env.notices account_replaced 0 old g).conn old)
      (terminated-closed replaced old told)
