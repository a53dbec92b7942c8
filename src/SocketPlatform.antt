-- ===== src/SocketPlatform.antt =====
-- The interface of OS/Socket.h, which Base/Socket.hpp calls and each platform implements.
use ziqe.Prelude.{ℕ, List, Option}
use ziqe.Prelude.Int.{ℤ}

-- The active member of the union in `ZqSocketAddress`.
pub data Sockaddr : Type 0 where
  unset : Sockaddr
  in4 : ℕ → ℕ → ℕ → Sockaddr
  in6 : ℕ → ℕ → ℕ → ℕ → ℕ → Sockaddr

-- `ZqSocketAddress`
pub record SocketAddress : Type 0 where
  pub socklen : ℕ
  pub socket_family : ℕ
  pub sockaddr : Sockaddr

-- `ZqSocket`, where `none` is `ZQ_INVALID_SOCKET`
abbrev pub ZqSocket : Type 0
ZqSocket = Option ℕ

-- What a receiving function leaves: its result, and the buffer, the count and the address that it
-- writes through its pointers, where it does.
pub record Received : Type 0 where
  pub result : ℤ
  pub buffer : Option (List (Option ℕ))
  pub bytes_received : Option ℕ

-- The constants of the platform's headers: `ZQ_AF_INET`, `ZQ_AF_INET6`, `sizeof (in)`, `sizeof (in6)`,
-- `ZQ_E_AGAIN`, and the types, the level and the name of an option that Base/Socket.hpp gives names to;
-- and the bytes of an `int` in memory.
pub record Constants : Type 0 where
  pub af_inet : ℕ
  pub af_inet6 : ℕ
  pub sizeof_in : ℕ
  pub sizeof_in6 : ℕ
  pub e_again : ℕ
  pub type_stream : ℕ
  pub type_datagram : ℕ
  pub level_socket : ℕ
  pub option_broadcast : ℕ
  pub int_bytes : ℕ → List ℕ

-- The functions, of sockets that are not invalid; `W` is the state of the operating system. A sending
-- function also leaves a count.
pub record SocketPlatform (W : Type 0) : Type 0 where
  pub constants : Constants
  pub open_socket : ℕ → ℕ → ℕ → W → ZqSocket × W
  pub close_socket : ℕ → W → W
  pub listen : ℕ → ℕ → W → ℤ × W
  pub bind : ℕ → SocketAddress → W → ℤ × W
  pub connect : ℕ → SocketAddress → W → ℤ × W
  pub receive : ℕ → W → Option (Received × W)
  pub send : ℕ → List ℕ → W → (ℤ × Option ℕ) × W
  pub receive_from : ℕ → SocketAddress → W → Option ((Received × SocketAddress) × W)
  pub send_to : ℕ → List ℕ → SocketAddress → W → (ℤ × Option ℕ) × W
  pub set_option : ℕ → ℕ → ℕ → List ℕ → W → ℤ × W
  pub accept : ℕ → SocketAddress → W → (ZqSocket × SocketAddress) × W
