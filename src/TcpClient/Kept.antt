-- ===== src/TcpClient/Kept.antt =====
-- The loop of `DialAndServe` in base/network/tcpclient.go and the sockets of its connections.
use gogame.Common.{
  ℕ, suc, ◌<◌, ◌≡◌, ◌≢◌, ◌⊎◌, refl, sym, ap, ◌∙◌, inl, inr, Bool, true, false, List, [], ◌∷◌,
  Option, none, some, ◌==◌, arith, Bool-cases, ==→≡, ==-refl,
}
use mathlib.Core.Path.{subst}
use gogame.TcpClient.{
  enable_retry, disable_retry, TcpClient, Loop, waiting, panicked, dialling, dialled, serving,
  served, returned, new_tcp_client, Dialled, connects, fails, crashes, dial_tcp, next_delay,
  close_socket, new_connection, returns, joined, after_dial, serve_connection, loop_step,
  get_connection, close, Event, proceeds, retries, closes, step, run, ClientError, client_closed,
  dial_failed,
}
use gogame.TcpClient.Served.{
  IsWell, IsLast, IsOpen, holds, is_returned, serves, if-cases, notify-IsWell, close-IsWell,
  moved-IsWell, close_socket-stays,
}

dialled-IsWell :
    (s : TcpClient) (d : ℕ)
    → s.loop ≡ dialling d
    → IsWell s
    → IsWell (record s { loop = dialled s.next; next = suc s.next })
dialled-IsWell s d is h = record {
  sockets = λ c b. elim (Bool-cases (s.next == c)) [
    | inl same ↦ inr (inl same)
    | inr differs ↦ elim (h.sockets c (let e = ne s.next c differs in omega (arith, b, e))) [
      | inl e ↦ inl e
      | inr (inl e) ↦ absurd (let f = sym e ∙ ap (λ l. holds l c) is in cc)
      | inr (inr (e, f)) ↦ absurd (let g = sym e ∙ ap is_returned is in cc)
    ]
  ];
  connection = λ c e. absurd (let f = sym (h.connection c e) ∙ ap (λ l. serves l c) is in cc);
  last = refl;
  off = h.off;
}
  where
    ne : (a b : ℕ) → (a == b) ≡ false → a ≢ b
    ne a b e f = absurd (let g = sym e ∙ ap (λ x. x == b) f ∙ ==-refl b in cc)

refused-IsWell :
    (e : ClientError) (c : ℕ) (s : TcpClient) → s.loop ≡ dialled c → IsWell s → IsWell (returns e s)
refused-IsWell e c s is h = record {
  sockets = λ i b. elim (h.sockets i b) [
    | inl f ↦ inl f
    | inr (inl f) ↦
        let same : c ≡ i = ==→≡ c i (ap (λ l. holds l i) (sym is) ∙ f) in
        inr (inr (refl, ap suc (sym same) ∙ last))
    | inr (inr (f, g)) ↦ absurd (let k = sym f ∙ ap is_returned is in cc)
  ];
  connection = λ i f. absurd (let k = sym (h.connection i f) ∙ ap (λ l. serves l i) is in cc);
  last = tt;
  off = h.off;
}
  where
    last : suc c ≡ s.next
    last = subst (λ l. IsLast l s.next s.socket_closed) is h.last

serving-IsWell :
    (c : ℕ) (s : TcpClient)
    → s.loop ≡ dialled c
    → s.closed ≡ false
    → IsWell s
    → IsWell (record s { connection = some c; loop = serving c })
serving-IsWell c s is runs h = record {
  sockets = λ i b. elim (h.sockets i b) [
    | inl f ↦ inl f
    | inr (inl f) ↦ inr (inl (ap (λ l. holds l i) (sym is) ∙ f))
    | inr (inr (f, g)) ↦ absurd (let k = sym f ∙ ap is_returned is in cc)
  ];
  connection = λ i e. (let same : c ≡ i = cc in ap (λ x. c == x) (sym same) ∙ ==-refl c);
  last = tt;
  off = λ e. absurd (let f = sym e ∙ runs in cc);
}

served-IsWell :
    (c : ℕ) (s : TcpClient)
    → s.loop ≡ serving c
    → IsWell s
    → IsWell (record s { loop = served c; socket_closed = close_socket c s.socket_closed })
served-IsWell c s is h = record {
  sockets = λ i b. elim (h.sockets i b) [
    | inl f ↦ inl (close_socket-stays c i s.socket_closed f)
    | inr (inl f) ↦
        inl (let same : (c == i) ≡ true = ap (λ l. holds l i) (sym is) ∙ f in rw same refl)
    | inr (inr (f, g)) ↦ absurd (let k = sym f ∙ ap is_returned is in cc)
  ];
  connection = λ i f. ap (λ l. serves l i) (sym is) ∙ h.connection i f;
  last = rw (==-refl c) refl;
  off = h.off;
}

-- After `serve`, the connection is forgotten.
done-IsWell :
    (c : ℕ) (o : Option ℕ) (l : Loop) (s : TcpClient)
    → s.loop ≡ served c
    → ((i : ℕ) → o ≢ some i)
    → (s.closed ≡ true → o ≡ none)
    → IsLast l s.next s.socket_closed
    → IsWell s
    → IsWell (record s { connection = o; loop = l })
done-IsWell c o l s is idle off last h = record {
  sockets = λ i b. elim (h.sockets i b) [
    | inl f ↦ inl f
    | inr (inl f) ↦ absurd (let k = sym f ∙ ap (λ l. holds l i) is in cc)
    | inr (inr (f, g)) ↦ absurd (let k = sym f ∙ ap is_returned is in cc)
  ];
  connection = λ i f. absurd (idle i f);
  last = last;
  off = off;
}

after_dial-IsWell :
    (waits : Bool) (d : ℕ) (x : Dialled) (s : TcpClient)
    → s.loop ≡ dialling d
    → IsWell s
    → IsWell (after_dial waits d x s)
unfolding after_dial
after_dial-IsWell waits d connects s is h = dialled-IsWell s d is h
after_dial-IsWell waits d crashes s is h =
    moved-IsWell panicked s (λ c. ap (λ l. holds l c) is) (ap is_returned is)
      (λ c. ap (λ l. serves l c) is) tt h
after_dial-IsWell waits d fails s is h =
    let goes : (l : Loop) → IsLast l s.next s.socket_closed → IsWell (record s { loop = l }) =
      λ l last.
        moved-IsWell l s (λ c. ap (λ l. holds l c) is) (ap is_returned is)
          (λ c. ap (λ l. serves l c) is) last h in
    if-cases IsWell s.closed _ _
      (λ e. notify-IsWell waits false (returns client_closed s) (goes (returned client_closed) tt))
      (λ e.
        if-cases IsWell s.retry _ _ (λ f. goes (dialling (next_delay d)) tt)
          (λ f. notify-IsWell waits false (returns dial_failed s) (goes (returned dial_failed) tt)))

loop_step-IsWell :
    (has_timeout is_up waits : Bool) (l : Loop) (s : TcpClient)
    → s.loop ≡ l
    → IsWell s
    → IsWell (loop_step has_timeout is_up waits l s)
unfolding loop_step new_connection serve_connection
loop_step-IsWell has_timeout is_up waits waiting s is h =
    let goes : (l : Loop) → IsLast l s.next s.socket_closed → IsWell (record s { loop = l }) =
      λ l last.
        moved-IsWell l s (λ c. ap (λ l. holds l c) is) (ap is_returned is)
          (λ c. ap (λ l. serves l c) is) last h in
    if-cases IsWell s.closed _ _ (λ e. goes (returned client_closed) tt) (λ e. goes (dialling 0) tt)
loop_step-IsWell has_timeout is_up waits (dialling d) s is h =
    after_dial-IsWell waits d (dial_tcp has_timeout is_up) s is h
loop_step-IsWell has_timeout is_up waits (dialled c) s is h =
    if-cases (λ r. IsWell (joined waits c r)) s.closed (s, some client_closed)
      (record s { connection = some c }, none)
      (λ e.
        notify-IsWell waits false (returns client_closed s) (refused-IsWell client_closed c s is h))
      (λ e.
        notify-IsWell waits true (record s { connection = some c; loop = serving c })
          (serving-IsWell c s is e h))
loop_step-IsWell has_timeout is_up waits (serving c) s is h = served-IsWell c s is h
loop_step-IsWell has_timeout is_up waits (served c) s is h =
    if-cases IsWell s.closed _ _
      (λ e.
        done-IsWell c s.connection (returned client_closed) s is
          (λ i f. absurd (let g = sym (h.off e) ∙ f in cc)) h.off tt h)
      (λ e. done-IsWell c none (dialling 0) s is (λ i f. absurd cc) (λ f. refl) tt h)
loop_step-IsWell has_timeout is_up waits panicked s is h = h
loop_step-IsWell has_timeout is_up waits (returned e) s is h = h

set_retry-IsWell : (b : Bool) (s : TcpClient) → IsWell s → IsWell (record s { retry = b })
set_retry-IsWell b s h = record {
  sockets = h.sockets;
  connection = h.connection;
  last = h.last;
  off = h.off;
}

run-IsWell : (s : TcpClient) (es : List Event) → IsWell s → IsWell (run s es)
unfolding run step
run-IsWell s [] h = h
run-IsWell s (proceeds t u w ∷ es) h =
    run-IsWell (loop_step t u w s.loop s) es (loop_step-IsWell t u w s.loop s refl h)
run-IsWell s (retries true ∷ es) h = run-IsWell (enable_retry s) es (set_retry-IsWell true s h)
run-IsWell s (retries false ∷ es) h = run-IsWell (disable_retry s) es (set_retry-IsWell false s h)
run-IsWell s (closes ∷ es) h = run-IsWell (close s) es (close-IsWell s h)

new_tcp_client-IsWell : IsWell new_tcp_client
unfolding new_tcp_client
new_tcp_client-IsWell = record {
  sockets = λ c b. absurd (omega arith);
  connection = λ c e. absurd cc;
  last = tt;
  off = λ e. refl;
}

connection-serves :
    (s : TcpClient) (o : Option ℕ)
    → s.connection ≡ o
    → IsWell s
    → (get_connection s ≡ none) ⊎ ((d : ℕ) × (get_connection s ≡ some d) × (serves s.loop d ≡ true))
unfolding get_connection
connection-serves s none is h =
    inl (if-cases (λ o. o ≡ none) s.closed none s.connection (λ e. refl) (λ e. is))
connection-serves s (some d) is h = elim (Bool-cases s.closed) [
  | inl e ↦ inl (rw e refl)
  | inr e ↦ inr (d, rw e is, h.connection d is)
]

-- Whatever is dialled, whatever fails, and whenever the client is closed: each connection that was
-- dialled has its socket closed, or the loop still holds it, or it is the last one and the loop has
-- returned; and `GetConnection` gives nothing, or the connection that the loop serves or has just
-- served.
pub connections_kept :
    (es : List Event) (c : ℕ)
    → c < (run new_tcp_client es).next
    → let s = run new_tcp_client es in
      ((s.socket_closed c ≡ true) ⊎ IsOpen s c)
      × ((get_connection s ≡ none)
          ⊎ ((d : ℕ) × (get_connection s ≡ some d) × (serves s.loop d ≡ true)))
connections_kept es c b =
    let s = run new_tcp_client es in
    let h = run-IsWell new_tcp_client es new_tcp_client-IsWell in
    (h.sockets c b, connection-serves s s.connection refl h)
