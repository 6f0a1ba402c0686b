-- ===== src/Gate/Relayed.antt =====
-- A broadcast of an instant-message server to the others: `dispatch` of gamegate/imclient.go.
use gogame.Common.{
  ℕ, ◌≡◌, refl, sym, ap, ◌∙◌, inl, inr, Bool, true, false, List, [], ◌∷◌, ◌++◌, Option, none, some,
  ◌==◌, if◌then◌else◌, ◌&&◌, Bool-cases, ==→≡, map, All, arith,
}
use gogame.Connection.{Conn, send}
use gogame.Consts.EntityType
use gogame.Consts.SsCmd
use gogame.Consts.TransType
use gogame.Gate.{Gate, set_conn}
use gogame.Gate.Dispatch.{
  is_source, relayed_head, relay_one, relay_all, dispatch, dispatch_to_ims, dispatch_here,
  forwarded,
}
use gogame.Gate.Ims.{ImSvr, Site}
use gogame.Gate.ImServers.{Ran, ran, send_msg, send_any, send_on, get_im_by_id}
use gogame.ErrCode.{ErrCode, parameter_invalid, im_svr_not_found}
use mathlib.Core.List.{append-nil, append_assoc}
use mathlib.Core.Path.{subst}
use gogame.Message.{SsMessageHead, SsMessageBody, body_marshal, pack_ss_message}

abbrev pub on_connection : ℕ → List ℕ → Option ℕ → List (List ℕ)
on_connection c bytes none = []
on_connection c bytes (some k) = if k == c then bytes ∷ [] else []

-- What the server is sent over the connection `c`: the message for the one server, by its key, from
-- the source that it had; nothing if it comes from this very server, or the server is not ready.
abbrev pub head_for : SsMessageHead → ImSvr → SsMessageHead
head_for head s = record {
  ss_cmd = SsCmd.msg;
  trans_type = TransType.by_key;
  src_type = head.src_type;
  dst_type = EntityType.im;
  src_id = head.src_id;
  dst_id = s.id;
}

unfoldable pub message_for : ℕ → SsMessageHead → List ℕ → ImSvr → List (List ℕ)
unfolding pack_ss_message
message_for c head b s =
    if (head.src_type == EntityType.im) && (s.id == head.src_id)
    then []
    else if s.status == 0
    then []
    else on_connection c (pack_ss_message (record { head = head_for head s; body = b })) s.conn

unfoldable pub messages_for : ℕ → SsMessageHead → List ℕ → List ℕ → (ℕ → ImSvr) → List (List ℕ)
unfolding message_for
messages_for c head b [] svrs = []
messages_for c head b (i ∷ is) svrs = message_for c head b (svrs i) ++ messages_for c head b is svrs

-- A server that is ready has a connection.
abbrev is_some : Option ℕ → Bool
is_some none = false
is_some (some k) = true

abbrev pub has_connection : ImSvr → Bool
has_connection s = if s.status == 0 then true else is_some s.conn

-- A call returned, queued `sent` on the connection `c`, and kept it open.
record IsSent (c : ℕ) (g : Gate) (sent : List (List ℕ)) (r : Ran) : Type 0 where
  after : Gate
  error : Option ErrCode
  returned : r ≡ ran after error
  ims : after.ims ≡ g.ims
  stays_open : (after.conns c).closed ≡ false
  queued : (after.conns c).bufs ≡ (g.conns c).bufs ++ sent

nothing-IsSent :
    (c : ℕ) (g : Gate) (e : Option ErrCode) → (g.conns c).closed ≡ false → IsSent c g [] (ran g e)
nothing-IsSent c g e is_open = record {
  after = g;
  error = e;
  returned = refl;
  ims = refl;
  stays_open = is_open;
  queued = sym (append-nil (g.conns c).bufs);
}

send-open :
    (bs : List (List ℕ)) (x : Conn)
    → x.closed ≡ false
    → ((send bs x).0.closed ≡ false) × ((send bs x).0.bufs ≡ x.bufs ++ bs)
unfolding send
send-open bs x is_open = rw is_open (refl, refl)

send_on-IsSent :
    (c k : ℕ) (bytes : List ℕ) (g : Gate)
    → (g.conns c).closed ≡ false
    → IsSent c g (on_connection c bytes (some k)) (send_on bytes (some k) g)
send_on-IsSent c k bytes g is_open =
    let sent = send-open (bytes ∷ []) (g.conns c) is_open in
    let x : Conn = (send (bytes ∷ []) (g.conns k)).0 in
    record {
      after = set_conn k x g;
      error = if (send (bytes ∷ []) (g.conns k)).1 then none else some im_svr_not_found;
      returned = refl;
      ims = refl;
      stays_open = elim (Bool-cases (k == c)) [
        | inl same ↦
            rw same (ap (λ j. (send (bytes ∷ []) (g.conns j)).0.closed) (==→≡ k c same) ∙ sent.0)
        | inr differs ↦ rw differs is_open
      ];
      queued = elim (Bool-cases (k == c)) [
        | inl same ↦
            rw same (ap (λ j. (send (bytes ∷ []) (g.conns j)).0.bufs) (==→≡ k c same) ∙ sent.1)
        | inr differs ↦ rw differs (sym (append-nil (g.conns c).bufs))
      ];
    }

send_on_some-IsSent :
    (c : ℕ) (bytes : List ℕ) (conn : Option ℕ) (g : Gate)
    → is_some conn ≡ true
    → (g.conns c).closed ≡ false
    → IsSent c g (on_connection c bytes conn) (send_on bytes conn g)
send_on_some-IsSent c bytes none g there is_open = absurd cc
send_on_some-IsSent c bytes (some k) g there is_open = send_on-IsSent c k bytes g is_open

if-IsSent :
    (c : ℕ) (g : Gate) (b : Bool) (m n : List (List ℕ)) (x y : Ran)
    → (b ≡ true → IsSent c g m x)
    → (b ≡ false → IsSent c g n y)
    → IsSent c g (if b then m else n) (if b then x else y)
if-IsSent c g true m n x y h k = h refl
if-IsSent c g false m n x y h k = k refl

is_source_lem :
    (head : SsMessageHead) (s : ImSvr)
    → ((head.src_type == EntityType.im) && (s.id == head.src_id)) ≡ is_source head s
is_source_lem head s = ground arith

relay_one-IsSent :
    (c : ℕ) (head : SsMessageHead) (b : List ℕ) (i : ℕ) (g : Gate)
    → has_connection (g.ims.svrs i) ≡ true
    → (g.conns c).closed ≡ false
    → IsSent c g (message_for c head b (g.ims.svrs i)) (relay_one head b i g)
unfolding relay_one message_for send_msg send_any
relay_one-IsSent c head b i g there is_open =
    let s = g.ims.svrs i in
    let bytes = pack_ss_message (record { head = relayed_head head s; body = b }) in
    rw (is_source_lem head s) (
      if-IsSent c g (is_source head s) [] _ (ran g none) _ (λ e. nothing-IsSent c g none is_open)
        (λ e.
          if-IsSent c g (s.status == 0) [] (on_connection c bytes s.conn)
            (ran g (some im_svr_not_found)) (send_on bytes s.conn g)
            (λ f. nothing-IsSent c g (some im_svr_not_found) is_open)
            (λ f. send_on_some-IsSent c bytes s.conn g (rw f at there) is_open)))

relay_all-IsSent :
    (c : ℕ) (head : SsMessageHead) (b : List ℕ) (is : List ℕ) (g : Gate)
    → All (λ i. has_connection (g.ims.svrs i) ≡ true) is
    → (g.conns c).closed ≡ false
    → IsSent c g (messages_for c head b is g.ims.svrs) (relay_all head b is g)
unfolding relay_all messages_for
relay_all-IsSent c head b [] g there is_open = nothing-IsSent c g none is_open
relay_all-IsSent c head b (i ∷ is) g there is_open =
    let one = relay_one-IsSent c head b i g there.0 is_open in
    let rest =
      relay_all-IsSent c head b is one.after
        (subst (λ m. All (λ j. has_connection (m.svrs j) ≡ true) is) (sym one.ims) there.1)
        one.stays_open in
    record {
      after = rest.after;
      error = rest.error;
      returned = rw (one.returned, relay_all) rest.returned;
      ims = rest.ims ∙ one.ims;
      stays_open = rest.stays_open;
      queued =
          rest.queued
          ∙ ap (λ m. (one.after.conns c).bufs ++ messages_for c head b is m.svrs) one.ims
          ∙ ap (λ q. q ++ messages_for c head b is g.ims.svrs) one.queued
          ∙ append_assoc (g.conns c).bufs (message_for c head b (g.ims.svrs i))
              (messages_for c head b is g.ims.svrs);
    }

-- A broadcast to the instant-message servers, while each of them that is ready has a connection: it
-- returns, and each open connection has queued, after what it had, the message with its new head for
-- each server on that connection that is ready and is not the source, in the order of the map.
pub broadcast_relayed :
    (site : Site) (head : SsMessageHead) (m : SsMessageBody) (g : Gate) (c : ℕ)
    → head.dst_type ≡ EntityType.im
    → head.trans_type ≡ TransType.broadcast
    → All (λ i. has_connection (g.ims.svrs i) ≡ true) (map (λ entry. entry.1) g.ims.im_map)
    → (g.conns c).closed ≡ false
    → (g' : Gate) × (e : Option ErrCode) × (dispatch site head m g ≡ ran g' e)
      × ((g'.conns c).bufs
          ≡ (g.conns c).bufs
            ++ messages_for c head
                (body_marshal m)
                (map (λ entry. entry.1) g.ims.im_map)
                g.ims.svrs)
unfolding dispatch dispatch_to_ims
broadcast_relayed site head m g c to_ims broadcast there is_open =
    let sent =
      relay_all-IsSent c head (body_marshal m) (map (λ entry. entry.1) g.ims.im_map) g there
        is_open in
    let svrs = map (λ entry. entry.1) g.ims.im_map in
    let relays : dispatch_to_ims site head m g ≡ relay_all head (body_marshal m) svrs g =
      ap
        (λ t.
          if t == TransType.by_key
          then forwarded site head m (get_im_by_id head.dst_id g) g
          else if t == TransType.broadcast
          then relay_all head (body_marshal m) svrs g
          else ran g (some parameter_invalid))
        broadcast in
    let is_relayed : dispatch site head m g ≡ dispatch_to_ims site head m g =
      ap
        (λ t.
          if t == EntityType.portal
          then dispatch_here site head m g
          else if t == EntityType.im
          then dispatch_to_ims site head m g
          else ran g (some parameter_invalid))
        to_ims in
    (sent.after, sent.error, is_relayed ∙ relays ∙ sent.returned, sent.queued)
