-- ===== src/Router/Registered.antt =====
-- The registries of router/server.go hold, under each id, a client of that id and of the registry's
-- kind, and a session's client sends into that session.
use gogame.Common.{ℕ, ◌<◌, ◌≡◌, refl, ap, sym, ◌∙◌, arith}
use gogame.Common.{some, ◌==◌, ◌⊎◌, inl, inr, Bool-cases, Option-cases, ==→≡}
use gogame.Common.Assoc
use gogame.Router.{Server, Registry, Kind, portals, games, teams, registry, type_of}
use gogame.Router.{set_registry, add_client, remove_client, close_old}
use gogame.Router.Same.{IsSame, close_old-IsSame}

-- A client that has been made, with an id and a type.
pub record IsClient (sv : Server) (key kind r : ℕ) : Type 0 where
  pub made : r < sv.next_client
  pub id : (sv.clients r).id ≡ key
  pub svr_type : (sv.clients r).svr_type ≡ kind

pub record IsBound (sv : Server) (s r : ℕ) : Type 0 where
  pub made : r < sv.next_client
  pub session : (sv.clients r).session ≡ s

pub record IsRegistered (sv : Server) : Type 0 where
  pub registered :
      (k : Kind) (id r : ℕ)
      → Assoc.lookup id (registry k sv) ≡ some r
      → IsClient sv id (type_of k) r
  pub bound : (s r : ℕ) → (sv.sessions s).userdata ≡ some r → IsBound sv s r

pub same-IsRegistered : (sv sv' : Server) → IsSame sv sv' → IsRegistered sv → IsRegistered sv'
same-IsRegistered sv sv' same h = record {
  registered = λ k id r found.
      let c = h.registered k id r (rw (same.registries k) at found) in
      record {
        made = omega (arith, c.made, same.next);
        id = (same.clients r).id ∙ c.id;
        svr_type = (same.clients r).svr_type ∙ c.svr_type;
      };
  bound = λ s r has.
      let b = h.bound s r (sym (same.sessions s).userdata ∙ has) in
      record {
        made = omega (arith, b.made, same.next);
        session = (same.clients r).session ∙ b.session;
      };
}

-- The other registries stay as they are when one is set.
registry-set_registry :
    (k j : Kind) (m : Registry) (sv : Server)
    → ((j ≡ k) × (registry j (set_registry k m sv) ≡ m))
      ⊎ (registry j (set_registry k m sv) ≡ registry j sv)
registry-set_registry portals portals m sv = inl (refl, refl)
registry-set_registry portals games m sv = inr refl
registry-set_registry portals teams m sv = inr refl
registry-set_registry games portals m sv = inr refl
registry-set_registry games games m sv = inl (refl, refl)
registry-set_registry games teams m sv = inr refl
registry-set_registry teams portals m sv = inr refl
registry-set_registry teams games m sv = inr refl
registry-set_registry teams teams m sv = inl (refl, refl)

-- What holds of the rest of the server, when one registry is set.
pub record IsRest (sv sv' : Server) : Type 0 where
  pub clients : sv'.clients ≡ sv.clients
  pub sessions : sv'.sessions ≡ sv.sessions
  pub next : sv'.next_client ≡ sv.next_client

pub set_registry-IsRest : (k : Kind) (m : Registry) (sv : Server) → IsRest sv (set_registry k m sv)
set_registry-IsRest portals m sv = record { clients = refl; sessions = refl; next = refl }
set_registry-IsRest games m sv = record { clients = refl; sessions = refl; next = refl }
set_registry-IsRest teams m sv = record { clients = refl; sessions = refl; next = refl }

IsClient-rest :
    (sv sv' : Server) (id t r : ℕ) → IsRest sv sv' → IsClient sv id t r → IsClient sv' id t r
IsClient-rest sv sv' id t r rest c = record {
  made = omega (arith, c.made, rest.next);
  id = ap (λ store. (store r).id) rest.clients ∙ c.id;
  svr_type = ap (λ store. (store r).svr_type) rest.clients ∙ c.svr_type;
}

IsBound-rest : (sv sv' : Server) (s r : ℕ) → IsRest sv sv' → IsBound sv s r → IsBound sv' s r
IsBound-rest sv sv' s r rest b = record {
  made = omega (arith, b.made, rest.next);
  session = ap (λ store. (store r).session) rest.clients ∙ b.session;
}

-- A registry may be set to one whose entries are clients of its kind.
pub set_registry-IsRegistered :
    (k : Kind) (m : Registry) (sv : Server)
    → ((id r : ℕ) → Assoc.lookup id m ≡ some r → IsClient sv id (type_of k) r)
    → IsRegistered sv
    → IsRegistered (set_registry k m sv)
set_registry-IsRegistered k m sv entries h = record {
  registered = λ j id r found.
      IsClient-rest sv (set_registry k m sv) id (type_of j) r (set_registry-IsRest k m sv)
        (elim (registry-set_registry k j m sv) [
          | inl (this, set) ↦ rw this (entries id r (rw set at found))
          | inr kept ↦ h.registered j id r (rw kept at found)
        ]);
  bound = λ s r has.
      let rest = set_registry-IsRest k m sv in
      IsBound-rest sv (set_registry k m sv) s r rest
        (h.bound s r (ap (λ store. (store s).userdata) (sym rest.sessions) ∙ has));
}

-- A client that joins the registry of its kind under its own id.
pub add_client-IsRegistered :
    (k : Kind) (r : ℕ) (sv : Server)
    → r < sv.next_client
    → (sv.clients r).svr_type ≡ type_of k
    → IsRegistered sv
    → IsRegistered (add_client k r sv)
unfolding add_client
add_client-IsRegistered k r sv made kind h =
    let id = (sv.clients r).id in
    let m = registry k sv in
    let old = close_old (Assoc.lookup id m) sv in
    let same = close_old-IsSame (Assoc.lookup id m) sv in
    set_registry-IsRegistered k (Assoc.insert id r m) old
      (λ key c found. elim (Bool-cases (id == key)) [
        | inl this ↦
            let e = rw (Assoc.lookup-insert key id r m, this) at found in
            let c_is_r : c ≡ r = cc in
            rw c_is_r (record {
              made = omega (arith, made, same.next);
              id = (same.clients r).id ∙ ==→≡ id key this;
              svr_type = (same.clients r).svr_type ∙ kind;
            })
        | inr other ↦
            let e = rw (Assoc.lookup-insert key id r m, other) at found in
            (same-IsRegistered sv old same h).registered k key c (rw (same.registries k) e)
      ])
      (same-IsRegistered sv old same h)

pub remove_client-IsRegistered :
    (k : Kind) (r : ℕ) (sv : Server) → IsRegistered sv → IsRegistered (remove_client k r sv)
unfolding remove_client
remove_client-IsRegistered k r sv h =
    elim (Option-cases (Assoc.lookup (sv.clients r).id (registry k sv))) [
      | inl missing ↦ rw (missing, remove_client) h
      | inr (c, present) ↦
          let id = (sv.clients r).id in
          let m = registry k sv in
          rw (present, remove_client)
            (set_registry-IsRegistered k (Assoc.remove id m) sv
              (λ key c found. elim (Bool-cases (id == key)) [
                | inl this ↦ absurd (let e = rw (Assoc.lookup-remove key id m, this) at found in cc)
                | inr other ↦
                    h.registered k key c (rw (Assoc.lookup-remove key id m, other) at found)
              ])
              h)
    ]
