-- ===== src/TcpServer/Closed.antt =====
-- The sockets of a server of base/network/tcpserver.go after `Close`.
use gogame.Common.{
  ℕ, suc, ◌≡◌, ◌≢◌, ◌⊎◌, refl, sym, ap, ◌∙◌, inl, inr, Bool, true, false, List, [], ◌∷◌, none, some,
  ◌==◌, Bool-cases, ==-refl,
}
use gogame.TcpServer.{
  TcpServer, Loop, waiting, opened, accepting, accepted, returned, Phase, unborn, pending, serving,
  ended, gone, refused, new_tcp_server, put, close, Accept, connects, fails, accept, next_delay,
  loop_step, serve_step, new_listener, new_connection, Event, listens, serves, registered, joined,
  closes, step, run, server_closed, listen_failed, accept_failed,
}
use gogame.TcpServer.Tracked.{
  IsTracked, is_serving, is_done, is_pending, is_early, is_accepted, has_accepted, has, put-cases,
  put-false, put-stays, done-put, if-cases, close-IsTracked, serve_step-IsTracked,
}

has_accepted-none : (l : Loop) (c : ℕ) → is_accepted l ≡ false → has_accepted l c ≡ false
has_accepted-none waiting c e = refl
has_accepted-none opened c e = refl
has_accepted-none (accepting d) c e = refl
has_accepted-none (accepted x) c e = absurd cc
has_accepted-none (returned x) c e = refl

-- Between connections the loop may go on to any state that is not before the listener.
with_loop-IsTracked :
    (l : Loop) (s : TcpServer)
    → is_accepted s.loop ≡ false
    → is_accepted l ≡ false
    → (is_early l ≡ true → is_early s.loop ≡ true)
    → IsTracked s
    → IsTracked (record s { loop = l })
with_loop-IsTracked l s was is early h = record {
  known = h.known;
  shut = h.shut;
  done = h.done;
  held = λ c e. absurd (let f = sym (h.held c e) ∙ has_accepted-none s.loop c was in cc);
  early = λ e. h.early (early e);
  deaf = h.deaf;
  hears = λ e. absurd (let f = sym e ∙ is in cc);
}

-- The listener is registered: no connection is served yet.
registered-IsTracked :
    (s : TcpServer)
    → is_accepted s.loop ≡ false
    → is_early s.loop ≡ true
    → IsTracked s
    → IsTracked (record s { listener = true; connections = []; loop = accepting 0 })
registered-IsTracked s was early h = record {
  known = λ c live e. absurd (let f = h.early early c in cc);
  shut = h.shut;
  done = h.done;
  held = λ c e. absurd (let f = sym (h.held c e) ∙ has_accepted-none s.loop c was in cc);
  early = λ e. absurd cc;
  deaf = λ e d. absurd cc;
  hears = λ e d. refl;
}

accepted-IsTracked :
    (c n : ℕ) (s : TcpServer)
    → is_accepted s.loop ≡ false
    → s.listener ≡ true
    → IsTracked s
    → IsTracked (record s { loop = accepted c; phase = put c pending s.phase; next = n })
accepted-IsTracked c n s was hearing h = record {
  known = λ i live e. h.known i (put-false is_serving c pending s.phase i refl live).0 e;
  shut = λ i live e. h.shut i (put-false is_serving c pending s.phase i refl live).0 e;
  done = λ i e. h.done i (put-false is_done c pending s.phase i refl e).0;
  held = λ i e.
      put-cases (λ p. is_pending p ≡ true → (c == i) ≡ true) c pending s.phase i
        (λ same d. ap (λ k. c == k) (sym same) ∙ ==-refl c)
        (λ differs d. absurd (let f = sym (h.held i d) ∙ has_accepted-none s.loop i was in cc)) e;
  early = λ e. absurd cc;
  deaf = λ runs e. absurd (let f = sym e ∙ hearing in cc);
  hears = λ e d. hearing;
}

refused-IsTracked :
    (c : ℕ) (s : TcpServer)
    → s.loop ≡ accepted c
    → s.closed ≡ true
    → IsTracked s
    → IsTracked (record s {
      loop = returned server_closed;
      phase = put c refused s.phase;
      socket_closed = put c true s.socket_closed;
    })
refused-IsTracked c s is is_closed h = record {
  known = λ i live e. absurd (let f = sym e ∙ is_closed in cc);
  shut = λ i live e.
      put-stays c i s.socket_closed
        (h.shut i (put-false is_serving c refused s.phase i refl live).0 e);
  done = λ i e. done-put c refused s.phase s.socket_closed i (h.done i) e;
  held = λ i e.
      let (was, other) = put-false is_pending c refused s.phase i refl e in
      absurd (let f = sym other ∙ ap (λ l. has_accepted l i) (sym is) ∙ h.held i was in cc);
  early = λ e. absurd cc;
  deaf = λ e. absurd (let f = sym e ∙ is_closed in cc);
  hears = λ e. absurd cc;
}

joined-IsTracked :
    (c : ℕ) (s : TcpServer)
    → s.loop ≡ accepted c
    → s.closed ≡ false
    → IsTracked s
    → IsTracked (record s {
      connections = c ∷ s.connections;
      loop = accepting 0;
      phase = put c serving s.phase;
    })
unfolding has
joined-IsTracked c s is runs h = record {
  known = λ i live e. elim (Bool-cases (c == i)) [
    | inl same ↦ rw same refl
    | inr differs ↦ rw differs (h.known i (rw differs at live) e)
  ];
  shut = λ i live e. absurd (let f = sym e ∙ runs in cc);
  done = λ i e. h.done i (put-false is_done c serving s.phase i refl e).0;
  held = λ i e.
      let (was, other) = put-false is_pending c serving s.phase i refl e in
      absurd (let f = sym other ∙ ap (λ l. has_accepted l i) (sym is) ∙ h.held i was in cc);
  early = λ e. absurd cc;
  deaf = λ e d. absurd (let f = sym d ∙ h.hears (ap is_accepted is) runs in cc);
  hears = λ e. absurd cc;
}

loop_step-IsTracked :
    (listening : Bool) (a : Accept) (s : TcpServer) (l : Loop)
    → s.loop ≡ l
    → IsTracked s
    → IsTracked (loop_step listening a l s)
unfolding loop_step new_listener new_connection accept
loop_step-IsTracked listening a s waiting is h =
    let early = ap is_early is in
    let idle = ap is_accepted is in
    let goes : (l : Loop) → is_accepted l ≡ false → IsTracked (record s { loop = l }) =
      λ l e. with_loop-IsTracked l s idle e (λ f. early) h in
    if-cases IsTracked s.closed _ _ (λ e. goes (returned server_closed) refl)
      (λ e.
        if-cases IsTracked listening _ _ (λ f. goes opened refl)
          (λ f. goes (returned listen_failed) refl))
loop_step-IsTracked listening a s opened is h =
    if-cases (λ r. IsTracked (registered r)) s.closed (s, some server_closed)
      (record s { listener = true; connections = [] }, none)
      (λ e.
        with_loop-IsTracked (returned server_closed) s (ap is_accepted is) refl
          (λ f. ap is_early is) h)
      (λ e. registered-IsTracked s (ap is_accepted is) (ap is_early is) h)
loop_step-IsTracked listening connects s (accepting d) is h =
    if-cases IsTracked s.listener _ s
      (λ e. accepted-IsTracked s.next (suc s.next) s (ap is_accepted is) e h) (λ e. h)
loop_step-IsTracked listening (fails is_temporary) s (accepting d) is h =
    let goes : (l : Loop)
        → is_accepted l ≡ false
        → is_early l ≡ false
        → IsTracked (record s { loop = l }) =
      λ l e f.
        with_loop-IsTracked l s (ap is_accepted is) e (λ g. absurd (let b = sym f ∙ g in cc)) h in
    if-cases IsTracked s.closed _ _ (λ e. goes (returned server_closed) refl refl)
      (λ e.
        if-cases IsTracked is_temporary _ _ (λ f. goes (accepting (next_delay d)) refl refl)
          (λ f. goes (returned accept_failed) refl refl))
loop_step-IsTracked listening a s (accepted c) is h =
    if-cases (λ r. IsTracked (joined c r)) s.closed (s, some server_closed)
      (record s { connections = c ∷ s.connections }, none) (λ e. refused-IsTracked c s is e h)
      (λ e. joined-IsTracked c s is e h)
loop_step-IsTracked listening a s (returned e) is h = h

run-IsTracked : (s : TcpServer) (es : List Event) → IsTracked s → IsTracked (run s es)
unfolding run step
run-IsTracked s [] h = h
run-IsTracked s (listens listening a ∷ es) h =
    run-IsTracked (loop_step listening a s.loop s) es
      (loop_step-IsTracked listening a s s.loop refl h)
run-IsTracked s (serves c ∷ es) h =
    run-IsTracked (serve_step c (s.phase c) s) es (serve_step-IsTracked c s (s.phase c) refl h)
run-IsTracked s (closes ∷ es) h = run-IsTracked (close s) es (close-IsTracked s h)

new_tcp_server-IsTracked : IsTracked new_tcp_server
unfolding new_tcp_server
new_tcp_server-IsTracked = record {
  known = λ c live e. absurd cc;
  shut = λ c live e. absurd cc;
  done = λ c e. absurd cc;
  held = λ c e. absurd cc;
  early = λ e c. refl;
  deaf = λ e f c. refl;
  hears = λ e. absurd cc;
}

phase-cases :
    (s : TcpServer) (c : ℕ) (p : Phase)
    → IsTracked s
    → s.phase c ≡ p
    → p ≢ unborn
    → s.closed ≡ true
    → (s.socket_closed c ≡ true) ⊎ (has_accepted s.loop c ≡ true)
phase-cases s c unborn h is born e = absurd (born refl)
phase-cases s c pending h is born e = inr (h.held c (ap is_pending is))
phase-cases s c serving h is born e = inl (h.shut c (ap is_serving is) e)
phase-cases s c ended h is born e = inl (h.done c (ap is_done is))
phase-cases s c gone h is born e = inl (h.done c (ap is_done is))
phase-cases s c refused h is born e = inl (h.done c (ap is_done is))

-- Whatever the listener gives, whenever the goroutines of the connections end and whenever `Close` is
-- called, in any order: once the server is closed, each connection that it has ever accepted has its
-- socket closed, or is the one that the loop has accepted and not yet handed over.
pub closed_closes_all :
    (es : List Event) (c : ℕ)
    → (run new_tcp_server es).closed ≡ true
    → (run new_tcp_server es).phase c ≢ unborn
    → let s = run new_tcp_server es in (s.socket_closed c ≡ true) ⊎ (has_accepted s.loop c ≡ true)
closed_closes_all es c e born =
    let s = run new_tcp_server es in
    phase-cases s c (s.phase c) (run-IsTracked new_tcp_server es new_tcp_server-IsTracked) refl born
      e
