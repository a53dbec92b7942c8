-- ===== src/UdpStream/Connection.antt =====
-- The socket of Network/UdpStream.cpp, and what its input vector receives from it.
use ziqe.Prelude.{ℕ, List, Option, some, Bool, true, if◌then◌else◌}
use ziqe.Prelude.Fallible.{◌>>=◌}
use ziqe.Expected.{Expected, value, error}
use ziqe.Stream.{ReceiveError}
use ziqe.SocketPlatform.{SocketPlatform, ZqSocket}
use ziqe.Socket
use ziqe.Socket.{create_in6}
use ziqe.UdpStream.{receive_data}

-- `CreateError`
pub data CreateError : Type 0 where
  create_other : CreateError

module _ {W : Type 0} (platform : SocketPlatform W) where
  -- `Connect`; the stream is its socket
  unfoldable pub connect : ℕ → ℕ → W → Option (Expected ZqSocket CreateError × W)
  connect address port w = do
    (r, w') ←
        Socket.connect_to platform (create_in6 platform.constants address port)
          platform.constants.type_datagram 0 w
    some (elim r [ error e ↦ error create_other | value socket ↦ value socket ], w')

  -- `setBroadcast`
  unfoldable pub set_broadcast : Bool → ZqSocket → W → Option W
  set_broadcast is_broadcast socket w =
      let c = platform.constants in
      Socket.set_socket_option platform c.level_socket c.option_broadcast
        (c.int_bytes (if is_broadcast then 1 else 0)) socket w

  -- `CreateBroadcast`
  unfoldable pub create_broadcast : ℕ → ℕ → W → Option (Expected ZqSocket CreateError × W)
  create_broadcast address port w = connect address port w >>= λ r. elim r.0 [
    | error e ↦ some r
    | value socket ↦ set_broadcast true socket r.1 >>= λ w'. some (value socket, w')
  ]

  -- `receiveRawPacket` and `receiveData` of the input vector
  unfoldable pub receive_from_socket :
      ZqSocket → W → Option (Expected (List (Option ℕ)) ReceiveError × W)
  receive_from_socket socket w = do
    (packet, w') ← Socket.receive platform socket w
    r ← receive_data packet
    some (r, w')
