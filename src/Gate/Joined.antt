-- ===== src/Gate/Joined.antt =====
-- What it takes for a client to be added at a login: `handlerLoginMsg` of gamegate/client.go.
use gogame.Common.{
  ℕ, ◌≡◌, ◌≢◌, refl, sym, ap, ◌∙◌, inl, inr, true, List, [], ◌∷◌, Option, none, some, ◌==◌,
  if◌then◌else◌, Bool-cases, ne→==, ==-refl,
}
use gogame.Common.Assoc
use gogame.Gate.{Gate, get_by_id, add}
use gogame.Gate.Kept.{store-field}
use gogame.Gate.Login.{
  Env, LoginReq, UserLoc, located, nowhere, redis_failed, new_body, marshalled, set_gs_id, login_to,
  login_at, before_colon, alive_or_dispatched,
}

-- The login of the client `r` took the gate from `g` to `g'`.
pub record IsJoined (env : Env) (r : ℕ) (req : LoginReq) (g g' : Gate) : Type 0 where
  pub registered : get_by_id req.account_id g' ≡ some r
  pub account : (g'.tasks r).account_id ≡ req.account_id
  pub others : (a : ℕ) → a ≢ req.account_id → get_by_id a g' ≡ get_by_id a g
  pub old_closed :
      (old : ℕ)
      → get_by_id req.account_id g ≡ some old
      → old ≢ r
      → (g'.conns (g.tasks old).conn).closed ≡ true
  pub has_svr : get_by_id req.account_id g ≢ some r → (g'.tasks r).gs_id ≢ 0

pub get_by_id-add :
    (r a : ℕ) (g : Gate)
    → (g.tasks r).account_id ≢ 0
    → get_by_id a (add r g) ≡ (if (g.tasks r).account_id == a then some r else get_by_id a g)
unfolding get_by_id add
get_by_id-add r a g h =
    rw (ne→== (g.tasks r).account_id 0 h) (Assoc.lookup-insert a (g.tasks r).account_id r g.clients)

add-conns : (r : ℕ) (g : Gate) → (add r g).conns ≡ g.conns
unfolding add
add-conns r g = elim (Bool-cases ((g.tasks r).account_id == 0)) [
  | inl e ↦ rw e refl
  | inr e ↦ rw e refl
]

pub add-tasks : (r : ℕ) (g : Gate) → (add r g).tasks ≡ g.tasks
unfolding add
add-tasks r g = elim (Bool-cases ((g.tasks r).account_id == 0)) [
  | inl e ↦ rw e refl
  | inr e ↦ rw e refl
]

-- The gate `h`, in which `r` has its account, before `r` is given a server and is added.
module _ (env : Env) (r : ℕ) (req : LoginReq) (g h : Gate) (gs_id : ℕ) where
  pub added-IsJoined :
      gs_id ≢ 0
      → req.account_id ≢ 0
      → (h.tasks r).account_id ≡ req.account_id
      → h.clients ≡ g.clients
      → ((old : ℕ)
          → get_by_id req.account_id g ≡ some old
          → old ≢ r
          → (h.conns (g.tasks old).conn).closed ≡ true)
      → IsJoined env r req g (add r (set_gs_id r gs_id h))
  unfolding get_by_id
  added-IsJoined has_svr positive account clients closed =
      let h' = set_gs_id r gs_id h in
      let kept : (h'.tasks r).account_id ≡ req.account_id =
        store-field (λ t. t.account_id) r (record (h.tasks r) { gs_id = gs_id }) h.tasks refl r
        ∙ account in
      let found : (a : ℕ)
          → get_by_id a (add r h')
            ≡ (if (h'.tasks r).account_id == a then some r else get_by_id a h') =
        λ a. get_by_id-add r a h' (λ e. positive (sym kept ∙ e)) in
      record {
        registered =
            found req.account_id
            ∙ ap (λ x. if x == req.account_id then some r else get_by_id req.account_id h') kept
            ∙ rw (==-refl req.account_id) refl;
        account = ap (λ t. (t r).account_id) (add-tasks r h') ∙ kept;
        others = λ a other.
            found a
            ∙ ap (λ x. if x == a then some r else get_by_id a h') kept
            ∙ rw (ne→== req.account_id a (λ e. other (sym e))) (ap (Assoc.lookup a) clients);
        old_closed = λ old e differs.
            ap (λ c. (c (g.tasks old).conn).closed) (add-conns r h') ∙ closed old e differs;
        has_svr = λ new e. has_svr (
            sym (
              ap (λ b. (if b then record (h.tasks r) { gs_id = gs_id } else h.tasks r).gs_id)
                (==-refl r))
            ∙ sym (ap (λ t. (t r).gs_id) (add-tasks r h'))
            ∙ e);
      }

marshalled-gate : (b : Option (List ℕ)) (g : Gate) → (marshalled b g).0 ≡ g
marshalled-gate none g = refl
marshalled-gate (some b) g = refl

pub new_body-gate :
    (env : Env) (r : ℕ) (req : LoginReq) (b : List ℕ) (ip : Option (List ℕ)) (g : Gate)
    → (new_body env r req b ip g).0 ≡ g
new_body-gate env r req b none g = refl
new_body-gate env r req b (some []) g = refl
new_body-gate env r req b (some (x ∷ ip)) g = marshalled-gate (env.marshal_login req (x ∷ ip)) g

-- `h` has added `r` to `g`, with a server that is not 0.
abbrev pub IsAdded : ℕ → Gate → Gate → Type 0
IsAdded r g h = (gs_id : ℕ) × (gs_id ≢ 0) × (h ≡ add r (set_gs_id r gs_id g))

login_to-IsAdded :
    (env : Env) (r : ℕ) (req : LoginReq) (b : List ℕ) (gs_id : ℕ) (g : Gate)
    → (login_to env r req b gs_id g).2 ≡ none
    → IsAdded r g (login_to env r req b gs_id g).0
unfolding login_to
login_to-IsAdded env r req b gs_id g e = elim (Bool-cases (gs_id == 0)) [
  | inl z ↦ absurd (let f = rw z at e in cc)
  | inr nz ↦ (
    gs_id,
    λ z. absurd (let f : (gs_id == 0) ≡ true = ap (λ x. x == 0) z in cc),
    rw nz (
        new_body-gate env r req b (before_colon (env.remote_addr r)) (add r (set_gs_id r gs_id g))),
  )
]

pub login_at-IsAdded :
    (env : Env) (r : ℕ) (req : LoginReq) (b : List ℕ) (loc : UserLoc) (g : Gate)
    → (login_at env r req b loc g).2 ≡ none
    → IsAdded r g (login_at env r req b loc g).0
login_at-IsAdded env r req b redis_failed g e = cc
login_at-IsAdded env r req b nowhere g e =
    login_to-IsAdded env r req b (alive_or_dispatched env 0 g) g e
login_at-IsAdded env r req b (located loc) g e =
    login_to-IsAdded env r req b (alive_or_dispatched env loc g) g e
