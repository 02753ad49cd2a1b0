-- ===== src/Connector/Ownership.antt =====
-- Who deletes the sockets of a ServerConnector (client/Client.h, client/Client.cpp).
use legendofstealth.Connector.Connect.{connect_to_server-Told, NotTaken, Told}
use legendofstealth.Connector.{
  connect_to_server, is_connected_to_server, new_connector, delete_if, get_udp_socket,
  get_tcp_socket, Connector, delete_connector, Platform,
}
use legendofstealth.Server.Api.{SocketApi}
use legendofstealth.Prelude.{
  subst, Ensures, List, arith, throws, ap₂, if◌then◌else◌, false, true, done, ◌≡◌, Option, Bool, ℕ,
  refl,
}

handed_out : {A : Type 0} (b : Bool) (a c : A) → (if b then done a else throws) ≡ done c → a ≡ c
handed_out true a c e = ground arith
handed_out false a c e = cc

module _ (api : SocketApi) (os : Platform (SocketApi.World api)) where
  open api use {World, Conn}

  Told-NotTaken : (r : Bool × Connector Conn × World) → Told r → NotTaken r.1
  Told-NotTaken (true, k, w) h = h.not_taken
  Told-NotTaken (false, k, w) h = h.not_taken

  -- A new connector on which ConnectToServer has been called, whatever the server did: if its
  -- getters return, then the sockets that they hand out are both deleted by its destructor, the
  -- TCP socket first.
  pub delete_connector-handed_out :
      (fuel : ℕ) (host : List ℕ) (tcp_port udp_port : ℕ) (w w' w'' : World) (ok : Bool)
      (k : Connector Conn) (t u : Option Conn)
      → connect_to_server api os fuel (new_connector host tcp_port udp_port) w ≡ done (ok, k, w')
      → get_tcp_socket k ≡ done t
      → get_udp_socket k ≡ done u
      → delete_connector api os k w'' ≡ delete_if api os u (delete_if api os t w'')
  unfolding new_connector is_connected_to_server delete_connector get_tcp_socket get_udp_socket
  delete_connector-handed_out fuel host tcp_port udp_port w w' w'' ok k t u e et eu =
      let told = subst (Ensures Told) e (
        connect_to_server-Told api os fuel (new_connector host tcp_port udp_port) w
          (refl, (refl, refl))) in
      let free = Told-NotTaken (ok, k, w') told in
      rw (free.0, free.1)
        (ap₂ (λ x y. delete_if api os y (delete_if api os x w''))
          (handed_out k.is_connected k.tcp_socket t et)
          (handed_out k.is_connected k.udp_socket u eu))
