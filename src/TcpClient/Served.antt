-- ===== src/TcpClient/Served.antt =====
-- The connections of a client of base/network/tcpclient.go, and their sockets.
use gogame.Common.{
  ℕ, suc, ◌<◌, ◌≡◌, ◌⊎◌, refl, sym, ◌∙◌, inl, inr, Bool, true, false, Option, none, some, ◌==◌,
  if◌then◌else◌,
}
use gogame.TcpClient.{
  TcpClient, Loop, waiting, panicked, dialling, dialled, serving, served, returned,
  notify_connect_state, close_socket, close_of, close,
}

-- The loop has dialled the connection, and `serve` has not returned.
abbrev pub holds : Loop → ℕ → Bool
holds (dialled x) c = x == c
holds (serving x) c = x == c
holds _ c = false

abbrev pub is_returned : Loop → Bool
is_returned (returned e) = true
is_returned _ = false

-- The loop is serving the connection or has just done so.
abbrev pub serves : Loop → ℕ → Bool
serves (serving x) c = x == c
serves (served x) c = x == c
serves _ c = false

-- What the loop knows of its connection: it is the last one, or its socket is closed.
abbrev pub IsLast : Loop → ℕ → (ℕ → Bool) → Type 0
IsLast (dialled c) next sockets = suc c ≡ next
IsLast (served c) next sockets = sockets c ≡ true
IsLast _ next sockets = Unit

-- A connection whose socket may be open.
abbrev pub IsOpen : TcpClient → ℕ → Type 0
IsOpen s c = (holds s.loop c ≡ true) ⊎ ((is_returned s.loop ≡ true) × (suc c ≡ s.next))

pub record IsWell (s : TcpClient) : Type 0 where
  pub sockets : (c : ℕ) → c < s.next → (s.socket_closed c ≡ true) ⊎ IsOpen s c
  pub connection : (c : ℕ) → s.connection ≡ some c → serves s.loop c ≡ true
  pub last : IsLast s.loop s.next s.socket_closed
  pub off : s.closed ≡ true → s.connection ≡ none

pub if-cases :
    {A : Type 0} (P : A → Type 0) (b : Bool) (x y : A)
    → (b ≡ true → P x)
    → (b ≡ false → P y)
    → P (if b then x else y)
if-cases P true x y when_true when_false = when_true refl
if-cases P false x y when_true when_false = when_false refl

pub notify-IsWell :
    (waits state : Bool) (s : TcpClient) → IsWell s → IsWell (notify_connect_state waits state s)
unfolding notify_connect_state
notify-IsWell true state s h = record {
  sockets = h.sockets;
  connection = h.connection;
  last = h.last;
  off = h.off;
}
notify-IsWell false state s h = h

pub close_socket-stays : (c i : ℕ) (f : ℕ → Bool) → f i ≡ true → close_socket c f i ≡ true
close_socket-stays c i f h = if-cases (λ b. b ≡ true) (c == i) true (f i) (λ e. refl) (λ e. h)

-- A closed socket keeps what is known of the others.
IsLast-stays :
    (l : Loop) (next c : ℕ) (f : ℕ → Bool) → IsLast l next f → IsLast l next (close_socket c f)
IsLast-stays waiting next c f h = h
IsLast-stays panicked next c f h = h
IsLast-stays (dialling d) next c f h = h
IsLast-stays (dialled x) next c f h = h
IsLast-stays (serving x) next c f h = h
IsLast-stays (served x) next c f h = close_socket-stays c x f h
IsLast-stays (returned e) next c f h = h

close_of-IsWell :
    (c : Option ℕ) (s : TcpClient) → s.connection ≡ c → IsWell s → IsWell (close_of c s)
close_of-IsWell none s is h = record {
  sockets = h.sockets;
  connection = h.connection;
  last = h.last;
  off = λ e. is;
}
close_of-IsWell (some c) s is h = record {
  sockets = λ i b. elim (h.sockets i b) [
    | inl e ↦ inl (close_socket-stays c i s.socket_closed e)
    | inr o ↦ inr o
  ];
  connection = λ i e. absurd cc;
  last = IsLast-stays s.loop s.next c s.socket_closed h.last;
  off = λ e. refl;
}

pub close-IsWell : (s : TcpClient) → IsWell s → IsWell (close s)
unfolding close
close-IsWell s h =
    if-cases IsWell s.closed s (close_of s.connection s) (λ e. h)
      (λ e. close_of-IsWell s.connection s refl h)

-- The loop holds nothing before and after.
pub moved-IsWell :
    (l : Loop) (s : TcpClient)
    → ((c : ℕ) → holds s.loop c ≡ false)
    → is_returned s.loop ≡ false
    → ((c : ℕ) → serves s.loop c ≡ false)
    → IsLast l s.next s.socket_closed
    → IsWell s
    → IsWell (record s { loop = l })
moved-IsWell l s held ret idle last h = record {
  sockets = λ c b. elim (h.sockets c b) [
    | inl e ↦ inl e
    | inr (inl e) ↦ absurd (let f = sym (held c) ∙ e in cc)
    | inr (inr (e, f)) ↦ absurd (let g = sym ret ∙ e in cc)
  ];
  connection = λ c e. absurd (let f = sym (idle c) ∙ h.connection c e in cc);
  last = last;
  off = h.off;
}
