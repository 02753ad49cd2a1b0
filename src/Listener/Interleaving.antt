-- ===== src/Listener/Interleaving.antt =====
-- The listener's thread and the server's thread, in any order of their steps.
use legendofstealth.Listener.{
  abort, popped, has_new_connection, take_socket, tcp_round, new_listener, Listener,
}
use legendofstealth.Prelude.{
  ◌==◌, if◌then◌else◌, zero, All-append, ap, ◌∙◌, append_assoc, sym, length-append, subst, lt→ltb,
  ltb→lt, length, arith, ◌∷◌, ==_ne, ◌<◌, true, suc, All, [], false, ◌++◌, ◌≡◌, List, ℕ, refl,
}

-- The listener, with the connections that SDLNet_TCP_Accept has given out so far, and those that the
-- server has taken.
pub record System : Type 0 where
  pub listener : Listener
  pub accepted : List ℕ
  pub taken : List ℕ

-- A handle as the thread's list of accepted ones keeps it: NULL is no connection.
abbrev pub noted : ℕ → List ℕ → List ℕ
noted socket handles = if socket == 0 then handles else handles ++ (socket ∷ [])

abbrev pub noted_taken : ℕ × Listener → System → System
noted_taken (socket, l) s = record s { listener = l; taken = noted socket s.taken }

pub data Step : System → System → Type 0 where
  -- The thread runs a round, with what it was given.
  accepts :
      (s : System) (socket : ℕ)
      → s.listener.abort_threads ≡ false
      → Step s
          (record s { listener = tcp_round socket s.listener; accepted = noted socket s.accepted })
  -- The server takes a connection.
  takes : (s : System) → Step s (noted_taken (take_socket s.listener) s)
  -- The server shuts the listener down.
  aborts : (s : System) → Step s (record s { listener = abort s.listener })

pub data Reach : System → Type 0 where
  start : Reach (record { listener = new_listener; accepted = []; taken = [] })
  later : {s t : System} → Reach s → Step s t → Reach t

-- No connection is lost, made up or overtaken; NULL never waits.
pub record IsOrderly (s : System) : Type 0 where
  pub in_order : s.taken ++ s.listener.new_connections ≡ s.accepted
  pub handles : All (λ h. 0 < h) s.listener.new_connections

round-IsOrderly :
    (s : System) (socket : ℕ)
    → IsOrderly s
    → IsOrderly
        (record s { listener = tcp_round socket s.listener; accepted = noted socket s.accepted })
unfolding tcp_round
round-IsOrderly s zero v = v
round-IsOrderly s (suc n) v = record {
  in_order =
      rw (==_ne (suc n) 0 (λ e. absurd (omega arith)), lt→ltb 0 (suc n) (omega arith))
        (sym (append_assoc s.taken s.listener.new_connections (suc n ∷ []))
          ∙ ap (λ l. l ++ (suc n ∷ [])) v.in_order);
  handles =
      rw (==_ne (suc n) 0 (λ e. absurd (omega arith)), lt→ltb 0 (suc n) (omega arith))
        (All-append (λ h. 0 < h) s.listener.new_connections (suc n ∷ []) v.handles
          (omega arith, tt));
}

take-IsOrderly :
    (s : System) (queue : List ℕ)
    → s.listener.new_connections ≡ queue
    → IsOrderly s
    → IsOrderly (noted_taken (popped queue s.listener) s)
take-IsOrderly s [] e v = v
take-IsOrderly s (zero ∷ rest) e v =
    absurd (omega (arith, (subst (All (λ h. 0 < h)) e v.handles).0))
take-IsOrderly s (suc n ∷ rest) e v = record {
  in_order =
      rw (==_ne (suc n) 0 (λ q. absurd (omega arith)))
        (append_assoc s.taken (suc n ∷ []) rest ∙ ap (◌++◌ s.taken) (sym e) ∙ v.in_order);
  handles = (subst (All (λ h. 0 < h)) e v.handles).1;
}

Step-IsOrderly : {s t : System} → Step s t → IsOrderly s → IsOrderly t
unfolding take_socket abort
Step-IsOrderly (accepts s socket running) v = round-IsOrderly s socket v
Step-IsOrderly (takes s) v = take-IsOrderly s s.listener.new_connections refl v
Step-IsOrderly (aborts s) v = record { in_order = v.in_order; handles = v.handles }

-- In every order of the two threads' steps: the connections that the server has taken, followed by
-- those that wait, are exactly the connections that were accepted, in the order of their arrival.
pub Reach-IsOrderly : {s : System} → Reach s → IsOrderly s
unfolding new_listener
Reach-IsOrderly start = record { in_order = refl; handles = tt }
Reach-IsOrderly (later r st) = Step-IsOrderly st (Reach-IsOrderly r)

-- Steps of the listener's thread alone.
pub data Meanwhile : System → System → Type 0 where
  still : (s : System) → Meanwhile s s
  then_accepts :
      {s t : System} (socket : ℕ)
      → Meanwhile s t
      → t.listener.abort_threads ≡ false
      → Meanwhile s
          (record t { listener = tcp_round socket t.listener; accepted = noted socket t.accepted })

waiting :
    (l : Listener) (socket : ℕ)
    → has_new_connection l ≡ true
    → has_new_connection (tcp_round socket l) ≡ true
unfolding has_new_connection tcp_round
waiting l socket h = ground (arith, length-append l.new_connections (socket ∷ []))

Meanwhile-waiting :
    {s t : System}
    → Meanwhile s t
    → has_new_connection s.listener ≡ true
    → has_new_connection t.listener ≡ true
Meanwhile-waiting (still s) h = h
Meanwhile-waiting (then_accepts {t = t} socket m running) h =
    waiting t.listener socket (Meanwhile-waiting m h)

Meanwhile-Reach : {s t : System} → Reach s → Meanwhile s t → Reach t
Meanwhile-Reach r (still s) = r
Meanwhile-Reach r (then_accepts {t = t} socket m running) =
    later (Meanwhile-Reach r m) (accepts t socket running)

take_some :
    (l : Listener) (queue : List ℕ)
    → l.new_connections ≡ queue
    → 0 < length queue
    → All (λ h. 0 < h) queue
    → 0 < (popped queue l).0
take_some l [] e h v = absurd (omega arith)
take_some l (socket ∷ rest) e h v = v.0

-- Once HasNewConnection has returned true in a state that can be reached, the connection that
-- GetNewSocket takes is not NULL, however many rounds the listener's thread has run since.
pub has_new_connection-take_socket :
    {s t : System}
    → Reach s
    → has_new_connection s.listener ≡ true
    → Meanwhile s t
    → 0 < (take_socket t.listener).0
unfolding take_socket has_new_connection
has_new_connection-take_socket {t = t} r h m =
    take_some t.listener t.listener.new_connections refl
      (ltb→lt 0 (length t.listener.new_connections) (Meanwhile-waiting m h))
      (Reach-IsOrderly (Meanwhile-Reach r m)).handles
