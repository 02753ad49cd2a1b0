-- ===== src/Socket/State.antt =====
-- class Socket: its members and the queries that read only them (shared/Socket.cpp).
use legendofstealth.Protocol.Packet.{Packet}
use legendofstealth.Net.{IpAddress}
use legendofstealth.Prelude.{
  ◌++◌, ◌==◌, ◌%◌, ◌∷◌, not, ◌^◌, ◌+◌, false, [], ◌/◌, ltb, if◌then◌else◌, List, ℕ, Bool,
}

-- enum TLProtocol
pub data TlProtocol : Type 0 where
  udp tcp : TlProtocol

pub record Socket : Type 0 where
  pub socket_set : ℕ
  pub protocol : TlProtocol
  pub pqueue : List Packet
  pub udp_listen_port : ℕ
  pub hostname : List ℕ
  pub tcp_handle : ℕ
  pub udp_handle : ℕ
  pub ip : IpAddress
  pub tcp_disconnect : Bool

-- `ss << n` for an octet: its decimal digits.
abbrev pub decimal : ℕ → List ℕ
decimal n =
    if ltb n 10
    then (48 + n) ∷ []
    else if ltb n 100
    then (48 + n / 10) ∷ (48 + n % 10) ∷ []
    else (48 + n / 100) ∷ (48 + n / 10 % 10) ∷ (48 + n % 10) ∷ []

abbrev dot : ℕ
dot = b'.'

-- GetOctalIP(ip): `(ip >> k) & 0xFF` is written as a division and a remainder.
unfoldable pub get_octal_ip : ℕ → List ℕ
get_octal_ip ip =
    decimal (ip / 2 ^ 24 % 256)
    ++ (dot
        ∷ (decimal (ip / 2 ^ 16 % 256)
            ++ (dot ∷ (decimal (ip / 2 ^ 8 % 256) ++ (dot ∷ decimal (ip % 256))))))

-- GetRemoteHostname: empty for UDP.
unfoldable pub get_remote_hostname : Socket → List ℕ
get_remote_hostname s = elim s.protocol [ udp ↦ [] | tcp ↦ s.hostname ]

unfoldable pub get_listen_port_udp : Socket → ℕ
get_listen_port_udp s = s.udp_listen_port

unfoldable pub get_transport_layer_protocol : Socket → TlProtocol
get_transport_layer_protocol s = s.protocol

unfoldable pub get_ip_address : Socket → IpAddress
get_ip_address s = s.ip

-- IsConnectionOpen: `(bool) _tcp` is the test that the handle is not NULL.
unfoldable pub is_connection_open : Socket → Bool
is_connection_open s = if s.tcp_disconnect then false else not (s.tcp_handle == 0)
