-- ===== src/Tests/Network.antt =====
-- Runs of the streams and the servers of Network/ on the kernel of the tests of sockets.
use ziqe.Prelude.{ℕ, ◌≡◌, refl, List, [], ◌∷◌, ◌++◌, some, arith}
use ziqe.Prelude.Int.{pos}
use ziqe.Expected.{value}
use ziqe.Vector.Elements.{filled}
use ziqe.UdpMessage.{UdpMessage}
use ziqe.UdpMessage.Header.{header_bytes}
use ziqe.SocketPlatform.{SocketAddress, unset, in6}
use ziqe.KernelSocket.{Kernel, linux, get_next_packet_size, packet_buffer}
use ziqe.TcpServer.{accept_client}
use ziqe.TcpServer.Accepting.{accept_client-answer}
use ziqe.UdpStream.Connection.{receive_from_socket}
use ziqe.UdpStream.Datagrams.{receive_from_socket-datagram}
use ziqe.Tests.Sockets.{kernel, quiet}

-- A kernel whose sockets have an IPv6 name.
abbrev named : Kernel (List ℕ)
named = record quiet { kernel_getsockname = λ s size w. (in6 10 5 80 0 0, 28) }

abbrev fresh : SocketAddress
fresh = record { socklen = 0; socket_family = 0; sockaddr = unset }

accept_client-answer_example :
    accept_client (linux named 0) fresh (some 7) []
    ≡ some (some (record { socket = some 8; address = 5; port = 80 }), 8 ∷ [])
accept_client-answer_example =
    accept_client-answer named 0 fresh 7 [] (pos 0) 8 (8 ∷ []) (in6 10 5 80 0 0) 28 refl refl

abbrev message : UdpMessage
message = record { flags = 1; message_number = 2 }

abbrev queued : Kernel (List ℕ)
queued = kernel (pos 5) (0 ∷ 1 ∷ 0 ∷ 2 ∷ 7 ∷ [])

receive_from_socket-datagram_example :
    receive_from_socket (linux queued 0) (some 7) []
    ≡ some (value (filled (header_bytes message ++ 7 ∷ [])), [])
unfolding get_next_packet_size packet_buffer
receive_from_socket-datagram_example =
    receive_from_socket-datagram queued 0 7 [] 5 message (7 ∷ []) unset 0 [] (omega arith) refl refl
      (record { flags = omega arith; number = omega arith }) (omega arith)
