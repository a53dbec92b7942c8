-- ===== src/UdpStream/Datagrams.antt =====
-- `receiveData` of Network/UdpStream.cpp on the sockets of Linux.
use ziqe.Prelude.{ℕ, ◌+◌, ◌<◌, ◌≡◌, refl, List, ◌++◌, some, length}
use ziqe.Prelude.Fallible.{◌>>=◌}
use ziqe.Prelude.Int.{pos, pos_injective}
use ziqe.Expected.{value}
use ziqe.Vector.{size_mod}
use ziqe.Vector.Elements.{filled}
use ziqe.UdpMessage.{UdpMessage}
use ziqe.UdpMessage.Header.{InRange, header_bytes}
use ziqe.SocketPlatform.{Sockaddr}
use ziqe.KernelSocket.{Kernel, linux, get_next_packet_size, packet_buffer}
use ziqe.Socket.{receive}
use ziqe.Socket.Receiving.{receive-answer}
use ziqe.UdpStream.Receiving.{receive_data-header}
use ziqe.UdpStream.Connection.{receive_from_socket}

module _ {W : Type 0} (kernel : Kernel W) (socket_length : ℕ) where
  -- A datagram with a header of 16-bit fields and a payload, which the kernel has queued and hands over
  -- whole, comes out of `receiveData` unchanged, with the header in front of the payload.
  pub receive_from_socket-datagram :
      (sock : ℕ) (w : W) (size : ℕ) (m : UdpMessage) (payload : List ℕ) (name : Sockaddr) (k : ℕ)
      (w' : W)
      → 0 < kernel.constants.e_again
      → get_next_packet_size kernel sock w ≡ some size
      → kernel.kernel_recvmsg sock size 0 (packet_buffer kernel size w) ≡ (
        record {
          result = pos (length (header_bytes m ++ payload));
          bytes = header_bytes m ++ payload;
          name = name;
          name_length = k;
        },
        w',
      )
      → InRange m
      → length payload + 4 < size_mod
      → receive_from_socket (linux kernel socket_length) (some sock) w
        ≡ some (value (filled (header_bytes m ++ payload)), w')
  unfolding receive_from_socket
  receive_from_socket-datagram sock w size m payload name k w' again sized run h small =
      let datagram = header_bytes m ++ payload in
      let got : receive (linux kernel socket_length) (some sock) w
          ≡ some (value (filled datagram), w') =
        receive-answer kernel socket_length sock w size (pos (length datagram)) datagram name k w'
          again sized run (λ n e. pos_injective (length datagram) n e) in
      rw (got, ◌>>=◌, receive_data-header m payload h small) refl
