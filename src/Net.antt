-- ===== src/Net.antt =====
-- What shared/Socket.cpp and server/ConnectionListener.cpp call of SDL_net and of the allocator:
-- a parameter of the model. `World` is the state of the network and of the memory outside.
use legendofstealth.Prelude.{ℕ, ◌≡◌, Bool, List, Option, length}
use legendofstealth.Prelude.Int.{ℤ}

-- IPaddress
pub record IpAddress : Type 0 where
  pub host : ℕ
  pub port : ℕ

-- SDLNet_TCP_Recv: the bytes that came, none where the peer has closed, or -1.
pub data Received : Type 0 where
  got : List ℕ → Received
  failed : Received

-- Handles (TCPsocket, UDPsocket, SDLNet_SocketSet, UDPpacket*) are numbers, and 0 is NULL.
pub record SdlNet : Type 1 where
  pub World : Type 0
  -- SDLNet_ResolveHost: no address is its -1.
  pub resolve_host : List ℕ → ℕ → World → Option IpAddress × World
  pub alloc_socket_set : World → ℕ × World
  pub free_socket_set : ℕ → World → World
  -- SDLNet_TCP_AddSocket, SDLNet_UDP_AddSocket, SDLNet_UDP_Bind: `false` is -1.
  pub tcp_add_socket : ℕ → ℕ → World → Bool × World
  pub udp_add_socket : ℕ → ℕ → World → Bool × World
  pub udp_bind : ℕ → IpAddress → World → Bool × World
  pub tcp_open : IpAddress → World → ℕ × World
  pub udp_open : ℕ → World → ℕ × World
  -- SDLNet_TCP_GetPeerAddress, SDLNet_UDP_GetPeerAddress(_, -1): no address is NULL.
  pub tcp_peer_address : ℕ → World → Option IpAddress
  pub udp_own_address : ℕ → World → Option IpAddress
  pub check_sockets : ℕ → World → ℤ × World
  pub socket_ready : ℕ → World → Bool
  -- The socket, and the most bytes that are wanted.
  pub tcp_recv : ℕ → ℕ → World → Received × World
  pub alloc_packet : World → ℕ × World
  pub free_packet : ℕ → World → World
  -- SDLNet_UDP_Recv: the data of one datagram where it returns 1.
  pub udp_recv : ℕ → World → Option (List ℕ) × World
  pub tcp_send : ℕ → List ℕ → World → ℤ × World
  pub udp_send : ℕ → IpAddress → List ℕ → World → ℤ × World
  -- The contents of a block of fresh memory, and of the storage of a new packet.
  pub new_block : ℕ → World → List ℕ × World
  pub new_storage : World → (ℕ → ℕ) × World

-- What the memory of the program is relied on for: a block has the length that was asked for.
pub record IsNet (net : SdlNet) : Type 0 where
  pub length-new_block : (n : ℕ) (w : SdlNet.World net) → length (SdlNet.new_block net n w).0 ≡ n
