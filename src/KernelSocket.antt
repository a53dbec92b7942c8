-- ===== src/KernelSocket.antt =====
-- Platforms/Linux/CppCore/Socket.c: the interface of sockets on the functions of the Linux kernel,
-- which are a parameter. A socket is the address of its `struct socket`.
use ziqe.Prelude.{
  ℕ, ◌-◌, ◌==◌, List, ◌++◌, Option, none, some, if◌then◌else◌, map, length, replicate,
}
use ziqe.Prelude.Fallible.{◌>>=◌}
use ziqe.Prelude.Int.{ℤ, pos, negsuc, is_zero, is_negative}
use ziqe.SocketPlatform.{
  Sockaddr, unset, in4, in6, SocketAddress, ZqSocket, Received, Constants, SocketPlatform,
}

-- What `kernel_recvmsg` leaves: its result, the bytes in the buffer, and the name with its length.
pub record KernelMessage : Type 0 where
  pub result : ℤ
  pub bytes : List ℕ
  pub name : Sockaddr
  pub name_length : ℕ

-- The constants and the functions of the kernel, with `ZqAllocate`.
pub record Kernel (W : Type 0) : Type 0 where
  pub constants : Constants
  pub sock_create : ℕ → ℕ → ℕ → W → (ℤ × ℕ) × W
  pub sock_release : ℕ → W → W
  pub kernel_listen : ℕ → ℕ → W → ℤ × W
  pub kernel_bind : ℕ → Sockaddr → ℕ → W → ℤ × W
  pub kernel_connect : ℕ → Sockaddr → ℕ → W → ℤ × W
  pub sock_ioctl_inq : ℕ → W → ℤ × ℕ
  pub kernel_sendmsg : ℕ → List ℕ → Option (Sockaddr × ℕ) → W → ℤ × W
  pub kernel_recvmsg : ℕ → ℕ → ℕ → W → KernelMessage × W
  pub kernel_setsockopt : ℕ → ℕ → ℕ → List ℕ → W → ℤ × W
  pub kernel_accept : ℕ → W → (ℤ × ℕ) × W
  pub kernel_getsockname : ℕ → ℕ → W → Sockaddr × ℕ
  pub allocate : ℕ → W → W

-- The family with which every `sockaddr` starts.
unfoldable pub sa_family : Sockaddr → ℕ
sa_family unset = 0
sa_family (in4 family address port) = family
sa_family (in6 family address port flowinfo scope_id) = family

-- `retval ? retval : ZQ_E_OK`
unfoldable pub to_error : ℤ → ℤ
to_error retval = if is_zero retval then pos 0 else retval

-- What is in the packet buffer after `kernel_recvmsg`.
unfoldable pub filled_buffer : ℕ → List ℕ → List (Option ℕ)
filled_buffer size bytes = map some bytes ++ replicate (size - length bytes) none

module _ {W : Type 0} (kernel : Kernel W) where
  -- `get_next_packet_size`; `BUG ()` stops the kernel
  unfoldable pub get_next_packet_size : ℕ → W → Option ℕ
  get_next_packet_size sock w =
      let (result, size) = kernel.sock_ioctl_inq sock w in
      if is_negative result then none else some size

  unfoldable pub zq_socket_open : ℕ → ℕ → ℕ → W → ZqSocket × W
  zq_socket_open family type protocol w =
      let ((retval, sock), w') = kernel.sock_create family type protocol w in
      (if is_zero retval then some sock else none, w')

  -- The functions below dereference the socket.
  unfoldable pub zq_socket_close : ℕ → W → W
  zq_socket_close sock w = kernel.sock_release sock w

  unfoldable pub zq_socket_listen : ℕ → ℕ → W → ℤ × W
  zq_socket_listen sock backlog w =
      let (retval, w') = kernel.kernel_listen sock backlog w in (to_error retval, w')

  unfoldable pub zq_socket_bind : ℕ → SocketAddress → W → ℤ × W
  zq_socket_bind sock address w =
      let (retval, w') = kernel.kernel_bind sock address.sockaddr address.socklen w in
      (to_error retval, w')

  unfoldable pub zq_socket_connect : ℕ → SocketAddress → W → ℤ × W
  zq_socket_connect sock address w =
      let (retval, w') = kernel.kernel_connect sock address.sockaddr address.socklen w in
      (to_error retval, w')

  -- The allocation of the packet buffer.
  unfoldable pub packet_buffer : ℕ → W → W
  packet_buffer size w = if size == 0 then w else kernel.allocate size w

  -- `ZqSocketReceive`; on an error it leaves its outputs alone
  unfoldable pub zq_socket_receive : ℕ → W → Option (Received × W)
  zq_socket_receive sock w = get_next_packet_size sock w >>= λ size.
      let (m, w') = kernel.kernel_recvmsg sock size 0 (packet_buffer size w) in
      elim m.result [
        | pos n ↦ some (
          record {
            result = pos 0;
            buffer = some (filled_buffer size m.bytes);
            bytes_received = some n;
          },
          w',
        )
        | negsuc n ↦ some (record { result = negsuc n; buffer = none; bytes_received = none }, w')
      ]

  -- `ZqSocketSend` and `ZqSocketSendTo`, which give `kernel_sendmsg` no name or the address
  unfoldable pub send_message : ℕ → List ℕ → Option (Sockaddr × ℕ) → W → (ℤ × Option ℕ) × W
  send_message sock bytes name w =
      let (ret, w') = kernel.kernel_sendmsg sock bytes name w in
      elim ret [ pos n ↦ ((pos 0, some n), w') | negsuc n ↦ ((negsuc n, none), w') ]

  unfoldable pub zq_socket_send : ℕ → List ℕ → W → (ℤ × Option ℕ) × W
  zq_socket_send sock bytes w = send_message sock bytes none w

  unfoldable pub zq_socket_send_to : ℕ → List ℕ → SocketAddress → W → (ℤ × Option ℕ) × W
  zq_socket_send_to sock bytes address w =
      send_message sock bytes (some (address.sockaddr, address.socklen)) w

  -- `ZqSocketReceiveFrom`; `socket_length` is not initialised before `kernel_recvmsg` reads it, and
  -- stands for what happens to be there
  unfoldable pub zq_socket_receive_from :
      ℕ → ℕ → SocketAddress → W → Option ((Received × SocketAddress) × W)
  zq_socket_receive_from socket_length sock address w = get_next_packet_size sock w >>= λ size.
      let (m, w') = kernel.kernel_recvmsg sock size socket_length (packet_buffer size w) in
      let named : SocketAddress = record address { sockaddr = m.name } in
      elim m.result [
        | pos n ↦ some (
          (
            record {
              result = pos 0;
              buffer = some (filled_buffer size m.bytes);
              bytes_received = some n;
            },
            record named { socklen = m.name_length },
          ),
          w',
        )
        | negsuc n ↦
            some ((record { result = negsuc n; buffer = none; bytes_received = none }, named), w')
      ]

  unfoldable pub zq_socket_set_option : ℕ → ℕ → ℕ → List ℕ → W → ℤ × W
  zq_socket_set_option sock level name option_value w =
      let (ret, w') = kernel.kernel_setsockopt sock level name option_value w in (to_error ret, w')

  -- `ZqSocketAccept` with an address to fill
  unfoldable pub zq_socket_accept : ℕ → SocketAddress → W → (ZqSocket × SocketAddress) × W
  zq_socket_accept sock address w =
      let ((ret, client), w') = kernel.kernel_accept sock w in
      if is_zero ret
      then (let (name, length) = kernel.kernel_getsockname client 0 w' in
          (
            (
              some client,
              record { socklen = length; socket_family = sa_family name; sockaddr = name },
            ),
            w',
          ))
      else ((none, address), w')

  -- The platform; `socket_length` is what is in the uninitialised variable of `ZqSocketReceiveFrom`.
  unfoldable pub linux : ℕ → SocketPlatform W
  linux socket_length = record {
    constants = kernel.constants;
    open_socket = zq_socket_open;
    close_socket = zq_socket_close;
    listen = zq_socket_listen;
    bind = zq_socket_bind;
    connect = zq_socket_connect;
    receive = zq_socket_receive;
    send = zq_socket_send;
    receive_from = zq_socket_receive_from socket_length;
    send_to = zq_socket_send_to;
    set_option = zq_socket_set_option;
    accept = zq_socket_accept;
  }
