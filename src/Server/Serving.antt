-- ===== src/Server/Serving.antt =====
-- Server::ServerLoop together with the thread of its listener (server/Server.cpp).
use legendofstealth.Server.Safety.{total_length}
use legendofstealth.Server.Draining.{drain}
use legendofstealth.Server.Listening.{arrived, serve, Arrivals}
use legendofstealth.Server.Loop.{
  iteration, server_loop, handle_new_tcp_connections, is_none, flush_client_packet_queues,
}
use legendofstealth.Server.State.{Server}
use legendofstealth.Listener.{Listener}
use legendofstealth.Server.Api.{SocketApi}
use legendofstealth.Prelude.{
  length-append, arith, ◌≤◌, inr, inl, Bool-cases, >>=_assoc, >>=_ext, ◌+◌, length, subst, ◌<◌, ap,
  All, ◌∙◌, ◌>>=◌, sym, done, [], ◌≡◌, Outcome, ◌∷◌, List, ℕ, refl,
}

module _ (api : SocketApi) where
  open api use {World, Conn}

  -- Each round has more turns of the loop than connections that wait and arrive.
  abbrev pub IsEnough : ℕ → List (List Arrivals) → Type 0
  IsEnough waiting [] = Unit
  IsEnough waiting (arrivals ∷ rounds) =
      (waiting + length (arrived arrivals) < length arrivals) × IsEnough 0 rounds

  abbrev pub without_listener : Server Conn × Listener × World → Outcome (Server Conn × World)
  without_listener (s, l, w) = done (s, w)

  -- The connections that arrive in all rounds.
  abbrev pub count_arrived : List (List Arrivals) → ℕ
  count_arrived [] = 0
  count_arrived (arrivals ∷ rounds) = length (arrived arrivals) + count_arrived rounds

  serve_rounds :
      (rounds : List (List Arrivals)) (l : Listener)
      → All (λ h. 0 < h) l.new_connections
      → IsEnough (length l.new_connections) rounds
      → (handled : List (List ℕ)) × (total_length api handled
          ≤ length l.new_connections + count_arrived rounds)
        × ((s : Server Conn) (w : World)
            → (serve api rounds s l w >>= without_listener) ≡ server_loop api handled s w)
  unfolding serve server_loop iteration
  serve_rounds [] l v enough = ([], omega arith, λ s w. refl)
  serve_rounds (arrivals ∷ rounds) l v enough =
      let d = drain api arrivals l v enough.0 in
      let rest =
        serve_rounds rounds d.left (subst (All (λ h. 0 < h)) (sym d.empty) tt)
          (subst (λ hs. IsEnough (length hs) rounds) (sym d.empty) enough.1) in
      (
        d.handled ∷ rest.0,
        omega (
          arith,
          rest.1,
          ap length d.empty,
          ap length d.in_order,
          length-append d.handled d.missed,
          length-append l.new_connections (arrived arrivals),
        ),
        λ s w. elim (Bool-cases (is_none api s.proto_phase)) [
          | inl gone ↦ rw gone refl
          | inr on ↦ rw on (
              ap (λ o. o >>= after_drain rounds >>= without_listener) (d.does s w)
              ∙ ap (λ o. o >>= without_listener)
                  (>>=_assoc (handle_new_tcp_connections api d.handled s w)
                    (λ r. done (r.0, d.left, r.1)) (after_drain rounds))
              ∙ >>=_assoc (handle_new_tcp_connections api d.handled s w)
                  (λ r. after_drain rounds (r.0, d.left, r.1)) without_listener
              ∙ >>=_ext (handle_new_tcp_connections api d.handled s w) _ _ (λ r.
                >>=_assoc (flushed r) (λ f. serve api rounds f.0 d.left f.1) without_listener
                ∙ >>=_ext (flushed r) _ _ (λ f. rest.2 f.0 f.1))
              ∙ sym (
                  >>=_assoc (handle_new_tcp_connections api d.handled s w) flushed
                    (λ r. server_loop api rest.0 r.0 r.1)))
        ],
      )
    where
      flushed : Server Conn × World → Outcome (Server Conn × World)
      flushed r = flush_client_packet_queues api r.0 r.1

      after_drain :
          List (List Arrivals)
          → Server Conn × Listener × World
          → Outcome (Server Conn × Listener × World)
      after_drain rounds r = flushed (r.0, r.2) >>= λ f. serve api rounds f.0 r.1 f.1

  -- ServerLoop while the thread of the listener adds connections, where those that wait at its start
  -- are not NULL and each round has more turns of HandleNewTCPConnections than connections that wait
  -- and arrive: it is ServerLoop with some list of connections that each round finds at once,
  -- which are not more than those that wait and arrive.
  pub serve-server_loop :
      (rounds : List (List Arrivals)) (l : Listener) (s : Server Conn) (w : World)
      → All (λ h. 0 < h) l.new_connections
      → IsEnough (length l.new_connections) rounds
      → (handled : List (List ℕ)) × (total_length api handled
          ≤ length l.new_connections + count_arrived rounds)
        × ((serve api rounds s l w >>= without_listener) ≡ server_loop api handled s w)
  serve-server_loop rounds l s w v enough =
      let r = serve_rounds rounds l v enough in (r.0, r.1, r.2 s w)
