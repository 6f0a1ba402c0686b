-- ===== src/RedisMutex/Broken.antt =====
-- A client of base/dao/redis/redismutex.go that gives up breaks the lock of the client that has it.
use gogame.Common.{
  ℕ, zero, suc, ◌≡◌, ◌≢◌, refl, ap, ◌∙◌, arith, List, [], ◌∷◌, ◌<◌, length, none, some,
}
use gogame.RedisMutex.{
  pos, expiring, Client, holding, giving_up, incrementing, idle, World, acts, answers, client_at,
  set_client, step, run, act, answered,
}

get_set :
    (i : ℕ) (c : Client) (cs : List Client) → i < length cs → client_at i (set_client i c cs) ≡ c
get_set i c [] h = absurd (omega arith)
get_set zero c (d ∷ cs) h = refl
get_set (suc i) c (d ∷ cs) h = get_set i c cs (omega arith)

get_set_other :
    (i j : ℕ) (c : Client) (cs : List Client)
    → i ≢ j
    → client_at j (set_client i c cs) ≡ client_at j cs
get_set_other i j c [] h = refl
get_set_other zero zero c (d ∷ cs) h = absurd (h refl)
get_set_other zero (suc j) c (d ∷ cs) h = refl
get_set_other (suc i) zero c (d ∷ cs) h = refl
get_set_other (suc i) (suc j) c (d ∷ cs) h = get_set_other i j c cs (λ e. h (ap suc e))

length-set_client : (i : ℕ) (c : Client) (cs : List Client) → length (set_client i c cs) ≡ length cs
length-set_client i c [] = refl
length-set_client zero c (d ∷ cs) = refl
length-set_client (suc i) c (d ∷ cs) = ap suc (length-set_client i c cs)

-- The step of a client that is known.
act_at :
    (w : World) (i : ℕ) (c : Client)
    → client_at i w.clients ≡ c
    → step w (acts i answers) ≡ record {
      key = (act c answers w.key).0;
      clients = set_client i (act c answers w.key).1 w.clients;
    }
unfolding step
act_at w i c e =
    ap
      (λ d. record w {
        key = (act d answers w.key).0;
        clients = set_client i (act d answers w.key).1 w.clients;
      })
      e

-- While a client holds the lock, another that has waited through all its rounds clears the key, and
-- a third that asks for the lock at this moment is given it: two clients hold it.
pub giving_up_breaks :
    (w : World) (owner quitter third round k j : ℕ)
    → client_at owner w.clients ≡ holding
    → client_at quitter w.clients ≡ giving_up k
    → client_at third w.clients ≡ incrementing round j
    → third < length w.clients
    → let w' = run w (acts quitter answers ∷ acts third answers ∷ acts third answers ∷ []) in
      (client_at owner w'.clients ≡ holding) × (client_at third w'.clients ≡ holding)
unfolding run act answered
giving_up_breaks w owner quitter third round k j own quits asks there =
    let cs1 = set_client quitter idle w.clients in
    let cs2 = set_client third (expiring round (pos 1)) cs1 in
    let cs3 = set_client third holding cs2 in
    let q_t : quitter ≢ third = λ e.
      let f : client_at quitter w.clients ≡ client_at third w.clients =
        ap (λ x. client_at x w.clients) e in
      cc in
    let q_o : quitter ≢ owner = λ e.
      let f : client_at quitter w.clients ≡ client_at owner w.clients =
        ap (λ x. client_at x w.clients) e in
      cc in
    let t_o : third ≢ owner = λ e.
      let f : client_at third w.clients ≡ client_at owner w.clients =
        ap (λ x. client_at x w.clients) e in
      cc in
    let asks1 : client_at third cs1 ≡ incrementing round j =
      get_set_other quitter third idle w.clients q_t ∙ asks in
    let long1 : third < length cs1 = omega (arith, length-set_client quitter idle w.clients) in
    let long2 : third < length cs2 =
      omega (arith, length-set_client third (expiring round (pos 1)) cs1) in
    let asks2 : client_at third cs2 ≡ expiring round (pos 1) =
      get_set third (expiring round (pos 1)) cs1 long1 in
    let one = act_at w quitter (giving_up k) quits in
    let two = act_at (record { key = none; clients = cs1 }) third (incrementing round j) asks1 in
    let three =
      act_at (record { key = some (pos 1); clients = cs2 }) third (expiring round (pos 1)) asks2 in
    let last : run w (acts quitter answers ∷ acts third answers ∷ acts third answers ∷ [])
        ≡ record { key = some (pos 1); clients = cs3 } =
      ap (λ x. step (step x (acts third answers)) (acts third answers)) one
      ∙ ap (λ x. step x (acts third answers)) two
      ∙ three in
    let owner1 = get_set_other quitter owner idle w.clients q_o in
    let owner2 = get_set_other third owner (expiring round (pos 1)) cs1 t_o in
    let owner3 = get_set_other third owner holding cs2 t_o in
    (
      ap (λ x. client_at owner x.clients) last ∙ owner3 ∙ owner2 ∙ owner1 ∙ own,
      ap (λ x. client_at third x.clients) last ∙ get_set third holding cs2 long2,
    )
