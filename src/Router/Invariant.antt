-- ===== src/Router/Invariant.antt =====
-- The handlers of router/internal.go and router/portal.go keep the registries in order.
use gogame.Common.{ℕ, ◌≡◌, sym, ◌∙◌, arith, false}
use gogame.Common.{some, ◌==◌, inl, inr, Bool-cases, ==→≡}
use gogame.Common.Assoc
use gogame.Session.{Session, verify}
use gogame.Router.{Server, Kind, portals, games, teams, registry, type_of}
use gogame.Router.{update_session, new_router_client, add_client}
use gogame.Router.Internal.{set_userdata}
use gogame.Router.Registered.{IsBound, IsRegistered}
use gogame.Router.Registered.{add_client-IsRegistered}

-- A new reference hits no client that is made.
new_router_client-IsRegistered :
    (s id t : ℕ) (sv : Server) → IsRegistered sv → IsRegistered (new_router_client s id t sv).0
unfolding new_router_client
new_router_client-IsRegistered s id t sv h = record {
  registered = λ k key r found.
      let c = h.registered k key r (entries k key r found) in
      let old : (r == sv.next_client) ≡ false = ground (arith, c.made) in
      record { made = omega (arith, c.made); id = rw old c.id; svr_type = rw old c.svr_type };
  bound = λ x r has.
      let b = h.bound x r has in
      let old : (r == sv.next_client) ≡ false = ground (arith, b.made) in
      record { made = omega (arith, b.made); session = rw old b.session };
}
  where
    entries :
        (k : Kind) (key r : ℕ)
        → Assoc.lookup key (registry k (new_router_client s id t sv).0) ≡ some r
        → Assoc.lookup key (registry k sv) ≡ some r
    entries portals key r e = e
    entries games key r e = e
    entries teams key r e = e

-- A session may take a client that sends into it, or none.
pub update_session-IsRegistered :
    (s : ℕ) (f : Session → Session) (sv : Server)
    → ((r : ℕ) → (f (sv.sessions s)).userdata ≡ some r → IsBound sv s r)
    → IsRegistered sv
    → IsRegistered (update_session s f sv)
update_session-IsRegistered s f sv own h = record {
  registered = λ k key r found.
      let c = h.registered k key r (entries k key r found) in
      record { made = c.made; id = c.id; svr_type = c.svr_type };
  bound = λ x r has. elim (Bool-cases (x == s)) [
    | inl this ↦
        let b = own r (rw this at has) in
        record { made = b.made; session = b.session ∙ sym (==→≡ x s this) }
    | inr other ↦
        let b = h.bound x r (rw other at has) in record { made = b.made; session = b.session }
  ];
}
  where
    entries :
        (k : Kind) (key r : ℕ)
        → Assoc.lookup key (registry k (update_session s f sv)) ≡ some r
        → Assoc.lookup key (registry k sv) ≡ some r
    entries portals key r e = e
    entries games key r e = e
    entries teams key r e = e

-- READY, up to the messages that follow: a new client takes the session and joins its registry.
pub joined-IsRegistered :
    (k : Kind) (s id : ℕ) (sv : Server)
    → IsRegistered sv
    → let (sv', r) = new_router_client s id (type_of k) sv in
      IsRegistered (add_client k r (update_session s (λ x. set_userdata (some r) (verify x)) sv'))
unfolding new_router_client
joined-IsRegistered k s id sv h =
    let (sv', r) = new_router_client s id (type_of k) sv in
    let taken = update_session s (λ x. set_userdata (some r) (verify x)) sv' in
    add_client-IsRegistered k r taken (omega arith) (ground arith) (
      update_session-IsRegistered s (λ x. set_userdata (some r) (verify x)) sv'
        (λ c own.
          let here : sv.next_client ≡ c = cc in
          rw (sym here) (record { made = omega arith; session = ground arith }))
        (new_router_client-IsRegistered s id (type_of k) sv h))
