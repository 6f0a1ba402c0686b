-- ===== src/Gate/Stranded.antt =====
-- A client that logs in with a second account: `handlerLoginMsg`, `Remove` and `timeAction` of
-- gamegate/client.go.
use gogame.Common.{
  ℕ, ◌≡◌, ◌≢◌, refl, sym, ap, ◌∙◌, inl, inr, false, List, [], ◌∷◌, Option, none, some, ◌==◌,
  if◌then◌else◌, Bool-cases, ==→≡, ne→==,
}
use gogame.Common.Assoc
use gogame.Gate.{
  Gate, get_by_id, add, remove, remove_same, terminate_client, kicked_out, time_action, each, which,
  is_late,
}
use gogame.Gate.Joined.{get_by_id-add, add-tasks, new_body-gate}
use gogame.Gate.Kept.{IsKept, store-field, kick_old-IsKept, terminate_client-IsKept}
use gogame.Gate.Login.{
  Env, LoginReq, UserLoc, located, nowhere, redis_failed, token_matches, is_not_positive, login_new,
  login_at, login_to, kick_old, login_over, login_as, login_with, login_req, set_account, set_gs_id,
  handler_login_msg, before_colon, alive_or_dispatched,
}
use gogame.Gate.LoggedIn.{named-account, positive-≢}
use mathlib.Core.Path.{subst}

-- The client `r` is registered under `a` and has the account `c`.
record IsStranded (a c r : ℕ) (g : Gate) : Type 0 where
  found : get_by_id a g ≡ some r
  account : (g.tasks r).account_id ≡ c

kept-IsStranded : {a c r : ℕ} {g h : Gate} → IsKept g h → IsStranded a c r g → IsStranded a c r h
unfolding get_by_id
kept-IsStranded {a} {c} {r} k s = record {
  found = ap (Assoc.lookup a) k.clients ∙ s.found;
  account = k.account r ∙ s.account;
}

module _ (a c r : ℕ) (other : c ≢ a) where
  remove_same-found :
      (s account : ℕ) (t : Option ℕ) (m : List (ℕ × ℕ))
      → Assoc.lookup account m ≡ t
      → (s ≡ r → account ≡ c)
      → Assoc.lookup a m ≡ some r
      → Assoc.lookup a (remove_same s account t m) ≡ some r
  remove_same-found s account none m is own found = found
  remove_same-found s account (some t) m is own found = elim (Bool-cases (t == s)) [
    | inr differs ↦ rw differs found
    | inl same ↦ rw same (
        Assoc.lookup-remove a account m
        ∙ rw
            (ne→== account a (λ e.
              let t_r : t ≡ r = (let f = sym is ∙ ap (λ x. Assoc.lookup x m) e ∙ found in cc) in
              other (sym (own (sym (==→≡ t s same) ∙ t_r)) ∙ e)))
            found)
  ]

  remove-IsStranded : (s : ℕ) (g : Gate) → IsStranded a c r g → IsStranded a c r (remove s g)
  unfolding remove get_by_id
  remove-IsStranded s g h = record {
    found =
        remove_same-found s (g.tasks s).account_id (Assoc.lookup (g.tasks s).account_id g.clients)
          g.clients refl (λ e. ap (λ x. (g.tasks x).account_id) e ∙ h.account) h.found;
    account = h.account;
  }

  dropped-IsStranded :
      (rs : List ℕ) (g : Gate)
      → IsStranded a c r g
      → IsStranded a c r (each (λ s g. remove s (terminate_client kicked_out s g)) rs g)
  dropped-IsStranded [] g h = h
  dropped-IsStranded (s ∷ rs) g h =
      let g' = terminate_client kicked_out s g in
      dropped-IsStranded rs (remove s g')
        (remove-IsStranded s g' (kept-IsStranded (terminate_client-IsKept kicked_out s g) h))

  ticked-IsStranded :
      (times : List ℕ) (g : Gate) → IsStranded a c r g → IsStranded a c r (each time_action times g)
  unfolding time_action
  ticked-IsStranded [] g h = h
  ticked-IsStranded (now ∷ times) g h =
      ticked-IsStranded times (time_action now g)
        (dropped-IsStranded (which (is_late now) g.clients g) g h)

  module _ (positive : c ≢ 0) where
    add-IsStranded :
        (gs_id : ℕ) (g : Gate) → IsStranded a c r g → IsStranded a c r (add r (set_gs_id r gs_id g))
    unfolding get_by_id
    add-IsStranded gs_id g h =
        let g' = set_gs_id r gs_id g in
        let kept : (g'.tasks r).account_id ≡ c =
          store-field (λ t. t.account_id) r (record (g.tasks r) { gs_id = gs_id }) g.tasks refl r
          ∙ h.account in
        record {
          found =
              get_by_id-add r a g' (λ e. positive (sym kept ∙ e))
              ∙ ap (λ x. if x == a then some r else get_by_id a g') kept
              ∙ rw (ne→== c a other) h.found;
          account = ap (λ t. (t r).account_id) (add-tasks r g') ∙ kept;
        }

    login_to-IsStranded :
        (env : Env) (req : LoginReq) (b : List ℕ) (gs_id : ℕ) (g : Gate)
        → IsStranded a c r g
        → IsStranded a c r (login_to env r req b gs_id g).0
    unfolding login_to
    login_to-IsStranded env req b gs_id g h = elim (Bool-cases (gs_id == 0)) [
      | inl z ↦ rw z h
      | inr nz ↦ rw nz (
          subst (IsStranded a c r)
            (sym (
              new_body-gate env r req b (before_colon (env.remote_addr r))
                (add r (set_gs_id r gs_id g))))
            (add-IsStranded gs_id g h))
    ]

    login_at-IsStranded :
        (env : Env) (req : LoginReq) (b : List ℕ) (loc : UserLoc) (g : Gate)
        → IsStranded a c r g
        → IsStranded a c r (login_at env r req b loc g).0
    login_at-IsStranded env req b redis_failed g h = h
    login_at-IsStranded env req b nowhere g h =
        login_to-IsStranded env req b (alive_or_dispatched env 0 g) g h
    login_at-IsStranded env req b (located loc) g h =
        login_to-IsStranded env req b (alive_or_dispatched env loc g) g h

    login_over-IsStranded :
        (env : Env) (req : LoginReq) (b : List ℕ) (old : Option ℕ) (g : Gate)
        → IsStranded a c r g
        → IsStranded a c r (login_over env r req b old g).0
    unfolding login_new
    login_over-IsStranded env req b none g h =
        login_at-IsStranded env req b (env.user_loc req.account_id) g h
    login_over-IsStranded env req b (some old) g h = elim (Bool-cases (old == r)) [
      | inl same ↦ rw same h
      | inr differs ↦ rw differs (
          login_at-IsStranded env req b (env.user_loc req.account_id) (kick_old env old g)
            (kept-IsStranded (kick_old-IsKept env old g) h))
    ]

    login_with-IsStranded :
        (env : Env) (req : LoginReq) (b : List ℕ) (stored : Option (List ℕ)) (g : Gate)
        → IsStranded a c r g
        → IsStranded a c r (login_with env r req b stored g).0
    login_with-IsStranded env req b none g h = h
    login_with-IsStranded env req b (some stored) g h =
        elim (Bool-cases (token_matches stored req.user_token)) [
          | inl ok ↦ rw ok (login_over-IsStranded env req b (get_by_id req.account_id g) g h)
          | inr wrong ↦ rw wrong h
        ]

login_req-IsStranded :
    (env : Env) (r a : ℕ) (b : List ℕ) (req : LoginReq) (g : Gate)
    → is_not_positive req.account_id ≡ false
    → req.account_id ≢ a
    → get_by_id a g ≡ some r
    → IsStranded a req.account_id r (login_req env r b (some req) g).0
unfolding login_as get_by_id
login_req-IsStranded env r a b req g positive other found = rw positive (
    login_with-IsStranded a req.account_id r other (positive-≢ req.account_id positive) env req b
      (env.account_token req.account_id) (set_account r req.account_id g)
      (record { found = found; account = named-account env r req b g }))

-- A registered client that sends a login for another positive account, whatever comes of that login,
-- stays registered under its first account: no number of runs of `timeAction`, at whatever times,
-- takes it out.
pub never_dropped :
    (env : Env) (r a : ℕ) (b : List ℕ) (req : LoginReq) (g : Gate) (times : List ℕ)
    → env.unmarshal_login b ≡ some req
    → is_not_positive req.account_id ≡ false
    → req.account_id ≢ a
    → get_by_id a g ≡ some r
    → get_by_id a (each time_action times (handler_login_msg env r b g).0) ≡ some r
unfolding handler_login_msg
never_dropped env r a b req g times asked positive other found =
    (ticked-IsStranded a req.account_id r other times (handler_login_msg env r b g).0
      (rw asked (login_req-IsStranded env r a b req g positive other found))).found
