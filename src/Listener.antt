-- ===== src/Listener.antt =====
-- class ConnectionListener (server/ConnectionListener.h, server/ConnectionListener.cpp): a thread
-- accepts connections, and the server takes them. Each of the three operations on the list holds
-- the mutex, so it is one step. `Interleaving` and `Service` have the two threads.
pub mod Interleaving
pub mod Service
use legendofstealth.Socket.Open.{socket_of_tcp}
use legendofstealth.Socket.State.{Socket}
use legendofstealth.Net.{IpAddress, SdlNet}
use legendofstealth.Prelude.{
  throws, none, some, done, ◌>>=◌, Option, length, ◌++◌, Outcome, ◌==◌, ◌∷◌, ltb, [], true, List,
  if◌then◌else◌, false, Bool, ℕ,
}

pub record Listener : Type 0 where
  pub abort_threads : Bool
  pub new_connections : List ℕ

-- ConnectionListener::ConnectionListener, before its thread runs.
unfoldable pub new_listener : Listener
new_listener = record { abort_threads = false; new_connections = [] }

-- AddNewSocket(socket): NULL is passed over.
unfoldable pub add_new_socket : ℕ → Listener → Listener
add_new_socket socket l =
    if ltb 0 socket then record l { new_connections = l.new_connections ++ (socket ∷ []) } else l

-- HasNewConnection
unfoldable pub has_new_connection : Listener → Bool
has_new_connection l = ltb 0 (length l.new_connections)

-- The part of GetNewSocket under the mutex: the handle that is taken, 0 where there is none.
abbrev pub popped : List ℕ → Listener → ℕ × Listener
popped [] l = (0, l)
popped (socket ∷ rest) l = (socket, record l { new_connections = rest })

unfoldable pub take_socket : Listener → ℕ × Listener
take_socket l = popped l.new_connections l

-- A round of TcpLoop, given what SDLNet_TCP_Accept returned: `if (new_socket)`. The loop runs as long
-- as the abort flag is not set.
unfoldable pub tcp_round : ℕ → Listener → Listener
unfolding add_new_socket
tcp_round new_socket l = if new_socket == 0 then l else add_new_socket new_socket l

-- ~ConnectionListener sets the flag; then it joins the thread.
unfoldable pub abort : Listener → Listener
abort l = record l { abort_threads = true }

module _ (net : SdlNet) where
  open net use {World}

  -- The start of TcpLoop: the socket that listens. The exception ends the thread.
  abbrev pub listened : ℕ × World → Outcome (ℕ × World)
  listened (server_socket, w) = if server_socket == 0 then throws else done (server_socket, w)

  abbrev pub listen_at : Option IpAddress × World → Outcome (ℕ × World)
  listen_at (none, w) = throws
  listen_at (some ip, w) = listened (SdlNet.tcp_open net ip w)

  unfoldable pub open_server_socket : World → Outcome (ℕ × World)
  open_server_socket w = listen_at (SdlNet.resolve_host net [] 43720 w)

  abbrev pub wrapped : ℕ × Listener → World → Outcome (Option Socket × Listener × World)
  wrapped (socket, l) w =
      let made = socket_of_tcp net socket w >>= λ r. done (some r.0, l, r.1) in
      if socket == 0 then done (none, l, w) else made

  -- GetNewSocket: NULL where no connection is waiting.
  unfoldable pub get_new_socket : Listener → World → Outcome (Option Socket × Listener × World)
  unfolding take_socket
  get_new_socket l w = wrapped (take_socket l) w
