-- ===== src/Gate/Chosen.antt =====
-- The game server that a login is sent to: `refreshGameSvrList` and `DispatchGameSvr` of
-- gamegate/router.go.
use gogame.Common.{
  ℕ, zero, suc, ◌+◌, ◌%◌, ◌^◌, ◌<◌, ◌≤◌, ◌≡◌, ◌≢◌, ◌⊎◌, refl, ap, inl, inr, true, List, [], ◌∷◌,
  Option, none, some, ◌==◌, arith, Bool-cases, ==→≡, length, get_or, get_elem?, All,
}
use gogame.Common.Assoc
use gogame.Consts.ServerStatus
use gogame.Gate.Ims.{Site}
use gogame.Gate.RouterLink.{SvrEntry, is_alive, alive_game_svrs, refresh_game_svr_list}
use gogame.Gate.Routers.{RouterMgr, open_servers, dispatch_game_svr}
use mathlib.Core.Path.{subst}

module _ {ℓ κ} {A : Type ℓ} where
  All-of :
      {P : A → Type κ} (xs : List A) → ((i : ℕ) (x : A) → get_elem? xs i ≡ some x → P x) → All P xs
  All-of [] h = tt
  All-of (x ∷ xs) h = (h zero x refl, All-of xs (λ i y e. h (suc i) y e))

all-get_or : (P : ℕ → Type 0) (xs : List ℕ) (i : ℕ) → All P xs → i < length xs → P (get_or xs i 0)
all-get_or P [] i h b = absurd (omega arith)
all-get_or P (x ∷ xs) zero h b = h.0
all-get_or P (x ∷ xs) (suc i) h b = all-get_or P xs i h.1 (omega arith)

module _ (P : ℕ × ℕ → Type 0) where
  All-insert : (key x : ℕ) (m : List (ℕ × ℕ)) → P (key, x) → All P m → All P (Assoc.insert key x m)
  unfolding Assoc.insert
  All-insert key x [] p h = (p, tt)
  All-insert key x ((k, y) ∷ m) p h = elim (Bool-cases (k == key)) [
    | inl same ↦ rw same (p, h.1)
    | inr differs ↦ rw differs (h.0, All-insert key x m p h.1)
  ]

  All-open :
      (m : List (ℕ × ℕ)) → All P m → All (λ id. P (id, ServerStatus.open_status)) (open_servers m)
  unfolding open_servers
  All-open [] h = tt
  All-open ((id, status) ∷ m) h = elim (Bool-cases (status == ServerStatus.open_status)) [
    | inl opens ↦
        rw opens
          (subst (λ s. P (id, s)) (==→≡ status ServerStatus.open_status opens) h.0, All-open m h.1)
    | inr other ↦ rw other (All-open m h.1)
  ]

  module _ (site : Site) (zone now : ℕ) where
    -- An entry that is alive, under a name that is a number, has what is wanted of its server.
    abbrev IsGood : List ℕ × Option SvrEntry → Type 0
    IsGood (name, none) = Unit
    IsGood (name, some e) =
        is_alive zone now e ≡ true
        → (site.atoi name).1 ≡ true
        → P ((site.atoi name).0 % 2 ^ 16, e.status)

    All-alive :
        (es : List (List ℕ × Option SvrEntry)) (m : List (ℕ × ℕ))
        → All IsGood es
        → All P m
        → All P (alive_game_svrs site zone now es m)
    unfolding alive_game_svrs
    All-alive [] m good h = h
    All-alive ((name, none) ∷ es) m good h = All-alive es m good.1 h
    All-alive ((name, some e) ∷ es) m good h = elim (Bool-cases (is_alive zone now e)) [
      | inr dead ↦ rw dead (All-alive es m good.1 h)
      | inl alive ↦ rw alive (elim (Bool-cases (site.atoi name).1) [
        | inr odd ↦ rw odd (All-alive es m good.1 h)
        | inl number ↦ rw number (
            All-alive es (Assoc.insert ((site.atoi name).0 % 2 ^ 16) e.status m) good.1
              (All-insert ((site.atoi name).0 % 2 ^ 16) e.status m (good.0 alive number) h))
      ])
    ]

-- Redis has an entry for the server with the status: of this zone, and at most 15 seconds old.
pub record IsReported (site : Site) (zone now : ℕ) (es : List (List ℕ × Option SvrEntry))
    (svr : ℕ × ℕ) : Type 0 where
  pub at : ℕ
  pub name : List ℕ
  pub entry : SvrEntry
  pub there : get_elem? es at ≡ some (name, some entry)
  pub is_number : (site.atoi name).1 ≡ true
  pub id : (site.atoi name).0 % 2 ^ 16 ≡ svr.0
  pub status : entry.status ≡ svr.1
  pub in_zone : entry.zone_id ≡ zone
  pub recent : now ≤ entry.timestamp + 15

is_alive_lem :
    (zone now : ℕ) (e : SvrEntry)
    → is_alive zone now e ≡ true
    → (e.zone_id ≡ zone) × (now ≤ e.timestamp + 15)
is_alive_lem zone now e h = ground arith

IsGood-entry :
    (site : Site) (zone now : ℕ) (es : List (List ℕ × Option SvrEntry)) (i : ℕ)
    (x : List ℕ × Option SvrEntry)
    → get_elem? es i ≡ some x
    → IsGood (IsReported site zone now es) site zone now x
IsGood-entry site zone now es i (name, none) e = tt
IsGood-entry site zone now es i (name, some entry) e = λ alive number. record {
  at = i;
  name = name;
  entry = entry;
  there = e;
  is_number = number;
  id = refl;
  status = refl;
  in_zone = (is_alive_lem zone now entry alive).0;
  recent = (is_alive_lem zone now entry alive).1;
}

-- After `refreshGameSvrList`, the server that `DispatchGameSvr` gives is 0, or one that Redis lists
-- in the zone as open, with a time at most 15 seconds old. (The random number is below its bound.)
pub dispatched_alive :
    (site : Site) (zone now : ℕ) (es : List (List ℕ × Option SvrEntry)) (m : RouterMgr)
    (random : ℕ → ℕ)
    → ((n : ℕ) → n ≢ 0 → random n < n)
    → let id = dispatch_game_svr random (refresh_game_svr_list site zone now es m) in
      (id ≡ 0) ⊎ IsReported site zone now es (id, ServerStatus.open_status)
unfolding dispatch_game_svr refresh_game_svr_list
dispatched_alive site zone now es m random below =
    let listed = alive_game_svrs site zone now es [] in
    let available = open_servers listed in
    let wanted : ℕ × ℕ → Type 0 = IsReported site zone now es in
    elim (Bool-cases (length available == 0)) [
      | inl empty ↦ inl (rw empty refl)
      | inr some_open ↦ inr (
          rw some_open (
            all-get_or (λ id. wanted (id, ServerStatus.open_status)) available
              (random (length available))
              (All-open wanted listed (
                All-alive wanted site zone now es []
                  (All-of es (λ i x e. IsGood-entry site zone now es i x e)) tt))
              (below (length available)
                (λ z. absurd (let f : (length available == 0) ≡ true = ap (λ k. k == 0) z in cc)))))
    ]
