-- ===== src/TcpServer.antt =====
-- Network/TcpServer.hpp and TcpServer.cpp, and `Listen` of Network/UdpServer.cpp.
pub mod Accepting
use ziqe.Prelude.{ℕ, Option, none, some}
use ziqe.Prelude.Fallible.{◌>>=◌}
use ziqe.Expected.{Expected, value, error}
use ziqe.SocketPlatform.{Sockaddr, unset, in4, in6, SocketAddress, SocketPlatform, ZqSocket}
use ziqe.Socket
use ziqe.Socket.{ListenError, listen_other, create_in6}
use ziqe.TcpStream.{TcpStream}

-- `sin6_addr` and `sin6_port`, of which the address has to have the member
unfoldable pub in6_info : SocketAddress → Option (ℕ × ℕ)
in6_info a = elim a.sockaddr [
  | unset ↦ none
  | in4 family address port ↦ none
  | in6 family address port flowinfo scope_id ↦ some (address, port)
]

module _ {W : Type 0} (platform : SocketPlatform W) where
  -- `TcpServer::Listen`, which gives no backlog; the server is its socket
  unfoldable pub listen : ℕ → ℕ → W → Option (Expected ZqSocket ListenError × W)
  listen address port w = do
    (r, w') ←
        Socket.listen_to platform (create_in6 platform.constants address port)
          platform.constants.type_stream 0 0 w
    some (elim r [ error e ↦ error listen_other | value socket ↦ value socket ], w')

  -- `TcpServer::acceptClient`, where an empty pointer is `none`; the assertion only logs
  unfoldable pub accept_client : SocketAddress → ZqSocket → W → Option (Option TcpStream × W)
  accept_client fresh socket w = Socket.accept platform fresh socket w >>= λ a. elim a.0 [
    | error e ↦ some (none, a.1)
    | value client ↦ in6_info client.1 >>= λ info.
        some (some (record { socket = client.0; address = info.0; port = info.1 }), a.1)
  ]

  -- `UdpServer::Listen`
  unfoldable pub udp_listen : ℕ → ℕ → W → Option (Expected ZqSocket ListenError × W)
  udp_listen address port w = do
    (r, w') ←
        Socket.bind_to platform (create_in6 platform.constants address port)
          platform.constants.type_datagram 0 w
    some (elim r [ error e ↦ error listen_other | value socket ↦ value socket ], w')
