-- ===== src/TcpStream.antt =====
-- Network/TcpStream.hpp and TcpStream.cpp, on the sockets of a platform.
use ziqe.Prelude.{ℕ, List, Option, none, some, map}
use ziqe.Prelude.Fallible.{◌>>=◌}
use ziqe.Expected.{Expected, value, error}
use ziqe.ExtVector
use ziqe.ExtVector.{ExtVector}
use ziqe.Stream.{ReceiveError}
use ziqe.SocketPlatform.{SocketPlatform, ZqSocket}
use ziqe.Socket
use ziqe.Socket.{ConnectError, create_in6}
use ziqe.UdpStream.{socket_receive_error_to_error}

-- `mSocket` and `mStreamAddressAndPort`
pub record TcpStream : Type 0 where
  pub socket : ZqSocket
  pub address : ℕ
  pub port : ℕ

-- `getStreamInfo`
unfoldable pub get_stream_info : TcpStream → ℕ × ℕ
get_stream_info t = (t.address, t.port)

-- The bytes of a vector; `junk` stands for what is in the storage of an element that was never set.
unfoldable pub raw_bytes : ℕ → List (Option ℕ) → List ℕ
raw_bytes junk slots = map (λ slot. elim slot [ none ↦ junk | some byte ↦ byte ]) slots

module _ {W : Type 0} (platform : SocketPlatform W) where
  -- `Connect`
  unfoldable pub connect : ℕ → ℕ → W → Option (Expected TcpStream ConnectError × W)
  connect address port w = do
    (r, w') ←
        Socket.connect_to platform (create_in6 platform.constants address port)
          platform.constants.type_stream 0 w
    some (
      elim r [
        | error e ↦ error e
        | value socket ↦ value (record { socket = socket; address = address; port = port })
      ],
      w',
    )

  -- `receiveRawPacket`, and `receiveData` of the input vector
  unfoldable pub receive_raw_packet :
      TcpStream → W → Option (Expected (List (Option ℕ)) ReceiveError × W)
  receive_raw_packet t w = do
    (r, w') ← Socket.receive platform t.socket w
    some (
      elim r [ error e ↦ error (socket_receive_error_to_error e) | value bytes ↦ value bytes ],
      w',
    )

  -- `sendRawPacket`, which drops the number of bytes that were sent
  unfoldable pub send_raw_packet : ℕ → List (Option ℕ) → TcpStream → W → Option W
  send_raw_packet junk packet t w = do
    (r, w') ← Socket.send platform (raw_bytes junk packet) t.socket w
    some w'

  -- `sendCurrentSegment` of the output vector
  unfoldable pub send_current_segment : ℕ → TcpStream → ExtVector → W → Option (ExtVector × W)
  send_current_segment junk t v w = do
    w' ← send_raw_packet junk v.vector t w
    some (ExtVector.set_end 0 (ExtVector.set_begin 0 v), w')
