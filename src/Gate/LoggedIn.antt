-- ===== src/Gate/LoggedIn.antt =====
-- What a login that succeeds leaves behind: `handlerLoginMsg` of gamegate/client.go.
use gogame.Common.{
  ℕ, ◌≡◌, ◌≢◌, refl, sym, ap, ◌∙◌, inl, inr, true, false, List, [], ◌∷◌, ◌++◌, All, Option, none,
  some, ◌==◌, if◌then◌else◌, Bool-cases, ==→≡, ==-refl,
}
use mathlib.Core.Path.{subst}
use gogame.Text.{split}
use gogame.Text.Joined.{split-two}
use gogame.Gate.Routers.{same_addr}
use gogame.Gate.{Gate, get_by_id}
use gogame.Gate.Joined.{IsJoined, added-IsJoined, login_at-IsAdded}
use gogame.Gate.Kept.{store-field, kick_old-IsKept, kick_old-closed}
use gogame.Gate.Login.{
  Env, LoginReq, token_matches, is_first_of_two, is_not_positive, login_new, kick_old, login_over,
  login_as, login_with, login_req, set_account, handler_login_msg,
}

-- The login message `b` of the client `r` was right, and took the gate from `g` to `g'`.
pub record IsLoggedIn (env : Env) (r : ℕ) (b : List ℕ) (g g' : Gate) : Type 0 where
  pub req : LoginReq
  pub time : List ℕ
  pub asked : env.unmarshal_login b ≡ some req
  pub positive : is_not_positive req.account_id ≡ false
  pub token : env.account_token req.account_id ≡ some (req.user_token ++ b'|' ∷ time)
  pub one_bar : All (λ c. c ≢ b'|') req.user_token × All (λ c. c ≢ b'|') time
  pub joined : IsJoined env r req g g'

module _ (env : Env) (r : ℕ) (req : LoginReq) (b : List ℕ) (g : Gate) where
  -- The gate in which the client has the account.
  abbrev pub named : Gate
  named = set_account r req.account_id g

  pub named-account : (named.tasks r).account_id ≡ req.account_id
  named-account =
      ap
        (λ x.
          (if x then record (g.tasks r) { account_id = req.account_id } else g.tasks r).account_id)
        (==-refl r)

  login_new-IsJoined :
      (h : Gate)
      → req.account_id ≢ 0
      → (h.tasks r).account_id ≡ req.account_id
      → h.clients ≡ g.clients
      → ((old : ℕ)
          → get_by_id req.account_id g ≡ some old
          → old ≢ r
          → (h.conns (g.tasks old).conn).closed ≡ true)
      → (login_new env r req b h).2 ≡ none
      → IsJoined env r req g (login_new env r req b h).0
  unfolding login_new
  login_new-IsJoined h positive account clients closed e =
      let (gs_id, has_svr, is) = login_at-IsAdded env r req b (env.user_loc req.account_id) h e in
      subst (IsJoined env r req g) (sym is)
        (added-IsJoined env r req g h gs_id has_svr positive account clients closed)

  old_conn : (old : ℕ) → (named.tasks old).conn ≡ (g.tasks old).conn
  old_conn =
      store-field (λ t. t.conn) r (record (g.tasks r) { account_id = req.account_id }) g.tasks refl

  -- `found` is the client that has the account.
  login_over-IsJoined :
      (found : Option ℕ)
      → get_by_id req.account_id g ≡ found
      → req.account_id ≢ 0
      → (login_over env r req b found named).2 ≡ none
      → IsJoined env r req g (login_over env r req b found named).0
  unfolding get_by_id
  login_over-IsJoined none is positive e =
      login_new-IsJoined named positive named-account refl
        (λ old o differs. absurd (let f = sym is ∙ o in cc)) e
  login_over-IsJoined (some old) is positive e = elim (Bool-cases (old == r)) [
    | inl same ↦ rw same (
        let is_r : get_by_id req.account_id g ≡ some r = is ∙ ap some (==→≡ old r same) in
        record {
          registered = is_r;
          account = named-account;
          others = λ a other. refl;
          old_closed = λ o found differs. absurd (differs (let f = sym found ∙ is_r in cc));
          has_svr = λ new. absurd (new is_r);
        })
    | inr differs ↦ rw differs (
        let kept = kick_old-IsKept env old named in
        login_new-IsJoined (kick_old env old named) positive (kept.account r ∙ named-account)
          kept.clients
          (λ o found other.
            let same : old ≡ o = (let f = sym is ∙ found in cc) in
            subst (λ c. ((kick_old env old named).conns c).closed ≡ true)
              (old_conn old ∙ ap (λ x. (g.tasks x).conn) same) (kick_old-closed env old named))
          (rw differs at e))
  ]

pub positive-≢ : (account : ℕ) → is_not_positive account ≡ false → account ≢ 0
positive-≢ account h z =
    absurd (let f : is_not_positive account ≡ true = ap is_not_positive z in cc)

same_addr→≡ : (x y : List ℕ) → same_addr x y ≡ true → x ≡ y
same_addr→≡ [] [] h = refl
same_addr→≡ [] (b ∷ y) h = absurd cc
same_addr→≡ (a ∷ x) [] h = absurd cc
same_addr→≡ (a ∷ x) (b ∷ y) h = elim (Bool-cases (a == b)) [
  | inl same ↦ let rest = same_addr→≡ x y (rw same at h) in let first = ==→≡ a b same in cc
  | inr other ↦ absurd (let f = rw other at h in cc)
]

is_first_of_two_lem :
    (token : List ℕ) (parts : List (List ℕ))
    → is_first_of_two token parts ≡ true
    → (time : List ℕ) × (parts ≡ token ∷ time ∷ [])
is_first_of_two_lem token (first ∷ second ∷ []) h =
    (second, ap (λ t. t ∷ second ∷ []) (same_addr→≡ first token h))
is_first_of_two_lem token _ h = absurd cc

-- The text in Redis is the token, one bar and a time.
token_matches_lem :
    (stored token : List ℕ)
    → token_matches stored token ≡ true
    → (time : List ℕ) × (stored ≡ token ++ b'|' ∷ time)
      × (All (λ c. c ≢ b'|') token × All (λ c. c ≢ b'|') time)
unfolding token_matches
token_matches_lem stored token h =
    let (time, parts) = is_first_of_two_lem token (split 124 stored) h in
    let (cut, free, more_free) = split-two 124 stored token time parts in
    (time, cut, (free, more_free))

login_with-IsLoggedIn :
    (env : Env) (r : ℕ) (req : LoginReq) (b : List ℕ) (g : Gate) (stored : Option (List ℕ))
    → env.unmarshal_login b ≡ some req
    → is_not_positive req.account_id ≡ false
    → env.account_token req.account_id ≡ stored
    → (login_with env r req b stored (named env r req b g)).2 ≡ none
    → IsLoggedIn env r b g (login_with env r req b stored (named env r req b g)).0
unfolding get_by_id
login_with-IsLoggedIn env r req b g none asked positive token e = absurd cc
login_with-IsLoggedIn env r req b g (some stored) asked positive token e =
    elim (Bool-cases (token_matches stored req.user_token)) [
      | inl ok ↦ rw ok (record {
        req = req;
        time = (token_matches_lem stored req.user_token ok).0;
        asked = asked;
        positive = positive;
        token = token ∙ ap some (token_matches_lem stored req.user_token ok).1;
        one_bar = (token_matches_lem stored req.user_token ok).2;
        joined =
            login_over-IsJoined env r req b g (get_by_id req.account_id g) refl
              (positive-≢ req.account_id positive) (rw ok at e);
      })
      | inr wrong ↦ absurd (let f = rw wrong at e in cc)
    ]

login_req-IsLoggedIn :
    (env : Env) (r : ℕ) (b : List ℕ) (g : Gate) (req : Option LoginReq)
    → env.unmarshal_login b ≡ req
    → (login_req env r b req g).2 ≡ none
    → IsLoggedIn env r b g (login_req env r b req g).0
unfolding login_as
login_req-IsLoggedIn env r b g none asked e = absurd cc
login_req-IsLoggedIn env r b g (some req) asked e =
    elim (Bool-cases (is_not_positive req.account_id)) [
      | inl wrong ↦ absurd (let f = rw wrong at e in cc)
      | inr ok ↦ rw ok (
          login_with-IsLoggedIn env r req b g (env.account_token req.account_id) asked ok refl
            (rw ok at e))
    ]

-- A login that returns no error was made for a positive account, for which Redis has a text with one
-- bar, and with the token that stands before the bar. After
-- it the account's client is the one that logged in, and it has that account; it has a game server,
-- unless it was the account's client before; another client that was the account's has its
-- connection closed; and the other accounts have the clients that they had.
pub login_joins :
    (env : Env) (r : ℕ) (b : List ℕ) (g : Gate)
    → (handler_login_msg env r b g).2 ≡ none
    → IsLoggedIn env r b g (handler_login_msg env r b g).0
unfolding handler_login_msg
login_joins env r b g e = login_req-IsLoggedIn env r b g (env.unmarshal_login b) refl e
