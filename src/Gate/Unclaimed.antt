-- ===== src/Gate/Unclaimed.antt =====
-- The clients that a running gate registers: `Connect` and `Receive` of gamegate/client.go disagree
-- on what the owner of a connection is.
use gogame.Common.{
  ℕ, ◌≡◌, refl, inl, inr, ◌⊎◌, Bool, true, false, List, [], ◌∷◌, Option, none, some, ◌==◌, ◌%◌, ◌^◌,
  if◌then◌else◌, arith, sym, ap,
}
use mathlib.Core.Path.{subst}
use gogame.Common.Assoc
use gogame.Gate.{
  Gate, Owner, no_owner, pointer, value, connect, time_action, server_close, broadcast_msg, close,
  store, which, get_by_id, is_late, ClientTask,
}
use gogame.Gate.Forward.{receive}
use gogame.Gate.History.{Event, connects, receives, hears, ticks, closes, step, run, gate_of}
use gogame.Gate.Ims.{Site}
use gogame.Gate.ImServers.{Ran, ran, panicked}
use gogame.Gate.Login.{Env}
use gogame.Gate.RouterLink
use gogame.Gate.Dispatch.{cs_msg, empty_body}
use gogame.Consts.SsCmd
use gogame.Gate.Routers.{RouterMgr, add_router_server}
use gogame.Message.{
  CsMessage, SsMessage, SsMessageHead, SsMessageBody, Outcome, returns, panic, body_unmarshal,
  unpack_ss_message,
}

abbrev pub is_value : Owner → Bool
is_value no_owner = false
is_value (pointer r) = false
is_value (value t) = true

-- No client is registered, and no connection is owned by a client itself.
pub record IsUnclaimed (g : Gate) : Type 0 where
  pub empty : g.clients ≡ []
  pub owners : (con : ℕ) → is_value (g.owners con) ≡ false

owner-cases : (o : Owner) → is_value o ≡ false → (o ≡ no_owner) ⊎ ((r : ℕ) × (o ≡ pointer r))
owner-cases no_owner e = inl refl
owner-cases (pointer r) e = inr (r, refl)
owner-cases (value t) e = cc

pub receive-panics :
    (env : Env) (site : Site) (con : ℕ) (bytes : List ℕ) (g : Gate)
    → is_value (g.owners con) ≡ false
    → receive env site con bytes g ≡ panicked g
unfolding receive
receive-panics env site con bytes g e = elim (owner-cases (g.owners con) e) [
  | inl o ↦ rw (o, receive)
  | inr (r, o) ↦ rw (o, receive)
]

connect-IsUnclaimed : (now con : ℕ) (g : Gate) → IsUnclaimed g → IsUnclaimed (connect now con g)
unfolding connect
connect-IsUnclaimed now con g h = record {
  empty = h.empty;
  owners = λ c. store-is_value con (pointer g.next_task) g.owners c refl (h.owners c);
}
  where
    store-is_value :
        (con : ℕ) (o : Owner) (f : ℕ → Owner) (c : ℕ)
        → is_value o ≡ false
        → is_value (f c) ≡ false
        → is_value (store con o f c) ≡ false
    store-is_value con o f c e k = ground arith

which-none : (test : ClientTask → Bool) (g : Gate) → g.clients ≡ [] → which test g.clients g ≡ []
unfolding which
which-none test g e = rw e

time_action-idle : (now : ℕ) (g : Gate) → g.clients ≡ [] → time_action now g ≡ g
unfolding time_action
time_action-idle now g e = rw (which-none (is_late now) g e)

server_close-idle : (id : ℕ) (g : Gate) → g.clients ≡ [] → server_close id g ≡ g
unfolding server_close
server_close-idle id g e = rw (which-none (λ t. t.gs_id == id) g e)

close-idle : (g : Gate) → g.clients ≡ [] → close g ≡ g
unfolding close
close-idle g e = rw (which-none (λ t. true) g e)

broadcast_msg-idle : (m : CsMessage) (g : Gate) → g.clients ≡ [] → broadcast_msg m g ≡ g
unfolding broadcast_msg
broadcast_msg-idle m g e = rw (which-none (λ t. true) g e)

pub get_by_id-none : (account : ℕ) (g : Gate) → g.clients ≡ [] → get_by_id account g ≡ none
unfolding get_by_id Assoc.lookup
get_by_id-none account g e = rw e

if-IsUnclaimed :
    (b : Bool) (x y : Gate) → IsUnclaimed x → IsUnclaimed y → IsUnclaimed (if b then x else y)
if-IsUnclaimed true x y p q = p
if-IsUnclaimed false x y p q = q

if-Ran :
    (b : Bool) (x y : Ran)
    → IsUnclaimed (gate_of x)
    → IsUnclaimed (gate_of y)
    → IsUnclaimed (gate_of (if b then x else y))
if-Ran true x y p q = p
if-Ran false x y p q = q

to_client-idle :
    (m : SsMessageBody) (g : Gate)
    → g.clients ≡ []
    → RouterLink.to_client m (get_by_id m.dst_account_id g) g ≡ g
to_client-idle m g e = rw (get_by_id-none m.dst_account_id g e)

dispatch-IsUnclaimed :
    (head : SsMessageHead) (m : SsMessageBody) (g : Gate)
    → IsUnclaimed g
    → IsUnclaimed (RouterLink.dispatch head m g)
unfolding RouterLink.dispatch
dispatch-IsUnclaimed head m g h =
    if-IsUnclaimed _ _ _ (subst IsUnclaimed (sym (to_client-idle m g h.empty)) h) (
      if-IsUnclaimed _ _ _
        (subst IsUnclaimed
          (sym (broadcast_msg-idle (cs_msg m.message_id m.packet_no m.body) g h.empty)) h)
        h)

close_all-idle : (ids : List ℕ) (g : Gate) → g.clients ≡ [] → RouterLink.close_all ids g ≡ g
unfolding RouterLink.close_all
close_all-idle [] g e = refl
close_all-idle (id ∷ ids) g e = rw (server_close-idle (id % 2 ^ 16) g e, close_all-idle ids g e)

synced-IsUnclaimed :
    (r : RouterMgr × List ℕ) (g : Gate) → IsUnclaimed g → IsUnclaimed (RouterLink.synced r g)
synced-IsUnclaimed (m, gone) g h =
    let g' : Gate = record g { routers = m } in
    subst IsUnclaimed (sym (close_all-idle gone g' h.empty))
      (record { empty = h.empty; owners = h.owners })

sync_list-IsUnclaimed :
    (router : ℕ) (list : Option (ℕ × List ℕ)) (g : Gate)
    → IsUnclaimed g
    → IsUnclaimed (RouterLink.sync_list router list g)
sync_list-IsUnclaimed router none g h = h
sync_list-IsUnclaimed router (some (svr_type, ids)) g h =
    if-IsUnclaimed _ _ _ (record { empty = h.empty; owners = h.owners })
      (synced-IsUnclaimed (add_router_server ids router g.routers) g h)

handle-IsUnclaimed :
    (site : Site) (router : ℕ) (head : SsMessageHead) (m : Outcome SsMessageBody) (g : Gate)
    → IsUnclaimed g
    → IsUnclaimed (gate_of (RouterLink.handle site router head m g))
unfolding RouterLink.handle RouterLink.sync
handle-IsUnclaimed site router head panic g h = h
handle-IsUnclaimed site router head (returns m (some e)) g h = h
handle-IsUnclaimed site router head (returns m none) g h =
    let hears_sync : Ran =
      if head.ss_cmd == SsCmd.sync
      then ran (RouterLink.sync site router m g) none
      else ran g none in
    if-Ran (head.ss_cmd == SsCmd.msg) (ran (RouterLink.dispatch head m g) none) hears_sync
      (dispatch-IsUnclaimed head m g h)
      (if-Ran (head.ss_cmd == SsCmd.sync) (ran (RouterLink.sync site router m g) none) (ran g none)
        (sync_list-IsUnclaimed router (site.unmarshal_sync m.body) g h) h)

hear-IsUnclaimed :
    (site : Site) (router : ℕ) (m : Option SsMessage) (g : Gate)
    → IsUnclaimed g
    → IsUnclaimed (gate_of (RouterLink.handle_some site router m g))
hear-IsUnclaimed site router none g h = h
hear-IsUnclaimed site router (some m) g h =
    handle-IsUnclaimed site router m.head (body_unmarshal empty_body m.body) g h

pub step-IsUnclaimed :
    (env : Env) (site : Site) (g : Gate) (e : Event)
    → IsUnclaimed g
    → IsUnclaimed (step env site g e)
unfolding step RouterLink.receive
step-IsUnclaimed env site g (connects now con) h = connect-IsUnclaimed now con g h
step-IsUnclaimed env site g (receives con bytes) h =
    rw (receive-panics env site con bytes g (h.owners con))
      (record { empty = h.empty; owners = h.owners })
step-IsUnclaimed env site g (hears router bytes) h =
    hear-IsUnclaimed site router (unpack_ss_message bytes) g h
step-IsUnclaimed env site g (ticks now) h =
    subst IsUnclaimed (sym (time_action-idle now g h.empty)) h
step-IsUnclaimed env site g closes h = subst IsUnclaimed (sym (close-idle g h.empty)) h

run-IsUnclaimed :
    (env : Env) (site : Site) (g : Gate) (es : List Event)
    → IsUnclaimed g
    → IsUnclaimed (run env site g es)
unfolding run
run-IsUnclaimed env site g [] h = h
run-IsUnclaimed env site g (e ∷ es) h =
    run-IsUnclaimed env site (step env site g e) es (step-IsUnclaimed env site g e h)

-- From a gate that has no client and no owner of a connection, whatever connections are made,
-- whatever they send, and whatever the routers send: no account ever has a client, and every message
-- of every connection makes `Receive` panic.
pub nobody_registered :
    (env : Env) (site : Site) (g : Gate) (es : List Event)
    → g.clients ≡ []
    → ((con : ℕ) → g.owners con ≡ no_owner)
    → let g' = run env site g es in
      ((account : ℕ) → get_by_id account g' ≡ none)
      × ((con : ℕ) (bytes : List ℕ) → receive env site con bytes g' ≡ panicked g')
nobody_registered env site g es none_yet unowned =
    let h =
      run-IsUnclaimed env site g es
        (record { empty = none_yet; owners = λ con. ap is_value (unowned con) }) in
    (
      λ account. get_by_id-none account (run env site g es) h.empty,
      λ con bytes. receive-panics env site con bytes (run env site g es) (h.owners con),
    )
