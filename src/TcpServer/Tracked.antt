-- ===== src/TcpServer/Tracked.antt =====
-- What `Close` and the goroutines of the connections keep: base/network/tcpserver.go.
use gogame.Common.{
  ℕ, ◌≡◌, refl, sym, ap, ◌∙◌, inl, inr, Bool, true, false, List, [], ◌∷◌, ◌==◌, if◌then◌else◌,
  Bool-cases, ==→≡,
}
use gogame.TcpServer.{
  TcpServer, Loop, waiting, opened, accepted, Phase, unborn, pending, serving, ended, gone, refused,
  put, without, close_all, close, serve_step, serve_connection,
}

abbrev pub is_serving : Phase → Bool
is_serving serving = true
is_serving _ = false

abbrev pub is_done : Phase → Bool
is_done ended = true
is_done gone = true
is_done refused = true
is_done _ = false

abbrev pub is_pending : Phase → Bool
is_pending pending = true
is_pending _ = false

abbrev pub is_early : Loop → Bool
is_early waiting = true
is_early opened = true
is_early _ = false

-- The loop has accepted some connection, or this one, and not handed it over.
abbrev pub is_accepted : Loop → Bool
is_accepted (accepted c) = true
is_accepted _ = false

abbrev pub has_accepted : Loop → ℕ → Bool
has_accepted (accepted x) c = x == c
has_accepted _ c = false

unfoldable pub has : List ℕ → ℕ → Bool
has [] c = false
has (x ∷ xs) c = let rest = has xs c in if x == c then true else rest

pub record IsTracked (s : TcpServer) : Type 0 where
  pub known :
      (c : ℕ) → is_serving (s.phase c) ≡ true → s.closed ≡ false → has s.connections c ≡ true
  pub shut : (c : ℕ) → is_serving (s.phase c) ≡ true → s.closed ≡ true → s.socket_closed c ≡ true
  pub done : (c : ℕ) → is_done (s.phase c) ≡ true → s.socket_closed c ≡ true
  pub held : (c : ℕ) → is_pending (s.phase c) ≡ true → has_accepted s.loop c ≡ true
  pub early : is_early s.loop ≡ true → (c : ℕ) → is_serving (s.phase c) ≡ false
  pub deaf : s.closed ≡ false → s.listener ≡ false → (c : ℕ) → is_serving (s.phase c) ≡ false
  pub hears : is_accepted s.loop ≡ true → s.closed ≡ false → s.listener ≡ true

pub put-cases :
    {A : Type 0} (P : A → Type 0) (at : ℕ) (x : A) (f : ℕ → A) (i : ℕ)
    → (at ≡ i → P x)
    → ((at == i) ≡ false → P (f i))
    → P (put at x f i)
put-cases P at x f i here there = elim (Bool-cases (at == i)) [
  | inl same ↦ rw same (here (==→≡ at i same))
  | inr differs ↦ rw differs (there differs)
]

pub has-without :
    (c x : ℕ) (xs : List ℕ) → (c == x) ≡ false → has xs x ≡ true → has (without c xs) x ≡ true
unfolding has without
has-without c x [] differs h = h
has-without c x (y ∷ xs) differs h = elim (Bool-cases (y == c)) [
  | inl same ↦ rw same (
      has-without c x xs differs (
        ap (λ b. if b then true else has xs x) (sym (ap (λ k. k == x) (==→≡ y c same) ∙ differs))
        ∙ h))
  | inr other ↦ rw other (elim (Bool-cases (y == x)) [
    | inl here ↦ rw here refl
    | inr later ↦ rw later (has-without c x xs differs (rw later at h))
  ])
]

close_all-stays : (cs : List ℕ) (f : ℕ → Bool) (x : ℕ) → f x ≡ true → close_all cs f x ≡ true
unfolding close_all
close_all-stays [] f x h = h
close_all-stays (c ∷ cs) f x h =
    close_all-stays cs (put c true f) x (put-cases (λ b. b ≡ true) c true f x (λ e. refl) (λ e. h))

close_all-has : (cs : List ℕ) (f : ℕ → Bool) (x : ℕ) → has cs x ≡ true → close_all cs f x ≡ true
unfolding close_all has
close_all-has [] f x h = cc
close_all-has (c ∷ cs) f x h = elim (Bool-cases (c == x)) [
  | inl here ↦ close_all-stays cs (put c true f) x (rw here refl)
  | inr later ↦ close_all-has cs (put c true f) x (rw later at h)
]

pub if-cases :
    {A : Type 0} (P : A → Type 0) (b : Bool) (x y : A)
    → (b ≡ true → P x)
    → (b ≡ false → P y)
    → P (if b then x else y)
if-cases P true x y yes_ no_ = yes_ refl
if-cases P false x y yes_ no_ = no_ refl

all_closed : TcpServer → TcpServer
all_closed s = record s {
  closed = true;
  listener = false;
  socket_closed = close_all s.connections s.socket_closed;
  connections = [];
}

pub close-IsTracked : (s : TcpServer) → IsTracked s → IsTracked (close s)
unfolding close all_closed
close-IsTracked s h =
    if-cases IsTracked s.closed s (if s.listener then all_closed s else record s { closed = true })
      (λ e. h)
      (λ runs.
        if-cases IsTracked s.listener (all_closed s) (record s { closed = true })
          (λ hears. record {
            known = λ c live e. absurd cc;
            shut = λ c live e. close_all-has s.connections s.socket_closed c (h.known c live runs);
            done = λ c e. close_all-stays s.connections s.socket_closed c (h.done c e);
            held = h.held;
            early = h.early;
            deaf = λ e. absurd cc;
            hears = λ a e. absurd cc;
          })
          (λ deaf. record {
            known = λ c live e. absurd cc;
            shut = λ c live e. absurd (let f = h.deaf runs deaf c in cc);
            done = h.done;
            held = h.held;
            early = h.early;
            deaf = λ e. absurd cc;
            hears = λ a e. absurd cc;
          }))

-- A test that the new value fails is passed only by other entries.
pub put-false :
    {A : Type 0} (t : A → Bool) (at : ℕ) (x : A) (f : ℕ → A) (i : ℕ)
    → t x ≡ false
    → t (put at x f i) ≡ true
    → (t (f i) ≡ true) × ((at == i) ≡ false)
put-false t at x f i no_pass e = elim (Bool-cases (at == i)) [
  | inl same ↦ absurd (let g : t x ≡ true = rw same at e in cc)
  | inr differs ↦ (rw differs at e, differs)
]

pub put-stays : (at i : ℕ) (f : ℕ → Bool) → f i ≡ true → put at true f i ≡ true
put-stays at i f h = put-cases (λ b. b ≡ true) at true f i (λ same. refl) (λ differs. h)

-- The connection `c` is done, and its socket is closed.
pub done-put :
    (c : ℕ) (p : Phase) (phase : ℕ → Phase) (sockets : ℕ → Bool) (i : ℕ)
    → (is_done (phase i) ≡ true → sockets i ≡ true)
    → is_done (put c p phase i) ≡ true
    → put c true sockets i ≡ true
done-put c p phase sockets i h e = elim (Bool-cases (c == i)) [
  | inl same ↦ rw same refl
  | inr differs ↦ rw differs (h (rw differs at e))
]

ended-IsTracked :
    (c : ℕ) (s : TcpServer)
    → IsTracked s
    → IsTracked
        (record s { phase = put c ended s.phase; socket_closed = put c true s.socket_closed })
ended-IsTracked c s h = record {
  known = λ i live runs. h.known i (put-false is_serving c ended s.phase i refl live).0 runs;
  shut = λ i live e.
      put-stays c i s.socket_closed
        (h.shut i (put-false is_serving c ended s.phase i refl live).0 e);
  done = λ i e. done-put c ended s.phase s.socket_closed i (h.done i) e;
  held = λ i e. h.held i (put-false is_pending c ended s.phase i refl e).0;
  early = λ e i.
      put-cases (λ p. is_serving p ≡ false) c ended s.phase i (λ same. refl)
        (λ differs. h.early e i);
  deaf = λ runs e i.
      put-cases (λ p. is_serving p ≡ false) c ended s.phase i (λ same. refl)
        (λ differs. h.deaf runs e i);
  hears = h.hears;
}

gone-IsTracked :
    (c : ℕ) (s : TcpServer) (cs : List ℕ)
    → s.phase c ≡ ended
    → ((i : ℕ) → (c == i) ≡ false → s.closed ≡ false → has s.connections i ≡ true → has cs i ≡ true)
    → IsTracked s
    → IsTracked (record s { connections = cs; phase = put c gone s.phase })
gone-IsTracked c s cs is keeps h = record {
  known = λ i live runs.
      let (was, other) = put-false is_serving c gone s.phase i refl live in
      keeps i other runs (h.known i was runs);
  shut = λ i live e. h.shut i (put-false is_serving c gone s.phase i refl live).0 e;
  done = λ i e.
      put-cases (λ p. is_done p ≡ true → s.socket_closed i ≡ true) c gone s.phase i
        (λ same d. ap s.socket_closed (sym same) ∙ h.done c (ap is_done is))
        (λ differs d. h.done i d) e;
  held = λ i e. h.held i (put-false is_pending c gone s.phase i refl e).0;
  early = λ e i.
      put-cases (λ p. is_serving p ≡ false) c gone s.phase i (λ same. refl)
        (λ differs. h.early e i);
  deaf = λ runs e i.
      put-cases (λ p. is_serving p ≡ false) c gone s.phase i (λ same. refl)
        (λ differs. h.deaf runs e i);
  hears = h.hears;
}

pub serve_step-IsTracked :
    (c : ℕ) (s : TcpServer) (p : Phase) → s.phase c ≡ p → IsTracked s → IsTracked (serve_step c p s)
unfolding serve_step serve_connection
serve_step-IsTracked c s serving is h = ended-IsTracked c s h
serve_step-IsTracked c s ended is h =
    if-cases (λ r. IsTracked (record r { phase = put c gone r.phase })) s.closed s
      (record s { connections = without c s.connections })
      (λ e. gone-IsTracked c s s.connections is (λ i other runs there. there) h)
      (λ e.
        gone-IsTracked c s (without c s.connections) is
          (λ i other runs there. has-without c i s.connections other there) h)
serve_step-IsTracked c s unborn is h = h
serve_step-IsTracked c s pending is h = h
serve_step-IsTracked c s gone is h = h
serve_step-IsTracked c s refused is h = h
