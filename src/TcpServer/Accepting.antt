-- ===== src/TcpServer/Accepting.antt =====
-- `acceptClient` of Network/TcpServer.cpp on Linux.
use ziqe.Prelude.{ℕ, zero, suc, ◌≡◌, refl, Option, none, some}
use ziqe.Prelude.Fallible.{◌>>=◌}
use ziqe.Prelude.Int.{ℤ, pos, negsuc}
use ziqe.SocketPlatform.{Sockaddr, unset, in4, in6, SocketAddress}
use ziqe.KernelSocket.{Kernel, linux, zq_socket_accept}
use ziqe.Socket
use ziqe.Socket.{is_open, create_from_sockaddr}
use ziqe.TcpStream.{TcpStream}
use ziqe.TcpServer.{in6_info, accept_client}

-- What `acceptClient` answers to a result of `kernel_accept` and the name of the new socket.
abbrev pub answer : ℤ → ℕ → Sockaddr → Option (Option TcpStream)
answer (pos zero) client (in6 family address port flowinfo scope_id) =
    some (some (record { socket = some client; address = address; port = port }))
answer (pos zero) client (in4 family address port) = none
answer (pos zero) client unset = none
answer (pos (suc n)) client name = some none
answer (negsuc n) client name = some none

module _ {W : Type 0} (kernel : Kernel W) (socket_length : ℕ) where
  -- On Linux, `acceptClient` returns no stream when `kernel_accept` fails; else it returns a stream of the
  -- new socket with the address and the port of the name that `kernel_getsockname` gives, and is
  -- undefined when that is not an IPv6 name.
  pub accept_client-answer :
      (fresh : SocketAddress) (sock : ℕ) (w : W) (result : ℤ) (client : ℕ) (w' : W)
      (name : Sockaddr) (k : ℕ)
      → kernel.kernel_accept sock w ≡ ((result, client), w')
      → kernel.kernel_getsockname client 0 w' ≡ (name, k)
      → accept_client (linux kernel socket_length) fresh (some sock) w
        ≡ (answer result client name >>= λ stream. some (stream, w'))
  unfolding accept_client Socket.accept linux zq_socket_accept is_open create_from_sockaddr in6_info
  accept_client-answer fresh sock w (pos zero) client w' (in6 f a p fl sc) k run named =
      rw (accept_client, Socket.accept, linux, zq_socket_accept, ◌>>=◌, run, named, run) refl
  accept_client-answer fresh sock w (pos zero) client w' (in4 f a p) k run named =
      rw (accept_client, Socket.accept, linux, zq_socket_accept, ◌>>=◌, run, named) refl
  accept_client-answer fresh sock w (pos zero) client w' unset k run named =
      rw (accept_client, Socket.accept, linux, zq_socket_accept, ◌>>=◌, run, named) refl
  accept_client-answer fresh sock w (pos (suc n)) client w' name k run named =
      rw (accept_client, Socket.accept, linux, zq_socket_accept, ◌>>=◌, run, run) refl
  accept_client-answer fresh sock w (negsuc n) client w' name k run named =
      rw (accept_client, Socket.accept, linux, zq_socket_accept, ◌>>=◌, run, run) refl
