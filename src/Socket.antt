-- ===== src/Socket.antt =====
-- Base/Socket.hpp and Base/Socket.cpp over the interface of OS/Socket.h. A call of the platform with
-- the invalid socket is undefined.
pub mod Sending
pub mod Opening
pub mod Receiving
use ziqe.Prelude.{
  ℕ, zero, suc, ◌+◌, ◌%◌, ◌==◌, List, [], ◌∷◌, Option, none, some, Bool, true, false, not,
  if◌then◌else◌, take, drop, length, ltb,
}
use ziqe.Prelude.Fallible.{◌>>=◌}
use ziqe.Prelude.Int.{ℤ, pos, negsuc, is_zero}
use ziqe.Expected.{Expected, value, error}
use ziqe.Vector.{size_mod}
use ziqe.SocketPlatform.{
  Constants, Sockaddr, unset, in4, in6, SocketAddress, ZqSocket, Received, SocketPlatform,
}
use ziqe.UdpStream.{SocketReceiveError, disconnected, socket_other, socket_timeout}

-- `ConnectError`
pub data ConnectError : Type 0 where
  connect_timeout connect_other : ConnectError

-- `ListenError`, `BindError`, `SendError` and `AccpetError`
pub data ListenError : Type 0 where
  listen_other : ListenError

pub data BindError : Type 0 where
  bind_other : BindError

pub data SendError : Type 0 where
  too_big : SendError

pub data AcceptError : Type 0 where
  accept_other : AcceptError

-- `SocketAddress::CreateIn6` and `CreateIn4`
unfoldable pub create_in6 : Constants → ℕ → ℕ → SocketAddress
create_in6 c address port = record {
  socklen = c.sizeof_in6;
  socket_family = c.af_inet6;
  sockaddr = in6 c.af_inet6 address port 0 0;
}

unfoldable pub create_in4 : Constants → ℕ → ℕ → SocketAddress
create_in4 c address port = record {
  socklen = c.sizeof_in;
  socket_family = c.af_inet;
  sockaddr = in4 c.af_inet address port;
}

-- `CreateFromSockaddr`, whose assertions only log
unfoldable pub create_from_sockaddr : SocketAddress → SocketAddress
create_from_sockaddr sockaddr = sockaddr

-- `getFamily`, which reads the family with which both members of the union start
unfoldable pub get_family : SocketAddress → Option ℕ
get_family a = elim a.sockaddr [
  | unset ↦ none
  | in4 family address port ↦ some family
  | in6 family address port flowinfo scope_id ↦ some family
]

-- `isOpen`
unfoldable pub is_open : ZqSocket → Bool
is_open none = false
is_open (some s) = true

-- The move constructor: the new socket, and what is left of the other one.
unfoldable pub move_construct : ZqSocket → ZqSocket × ZqSocket
move_construct socket = (socket, none)

-- Whether a result is `ZQ_E_AGAIN`.
unfoldable pub is_again : Constants → ℤ → Bool
is_again c (pos n) = n == c.e_again
is_again c (negsuc n) = false

-- A count that the platform may leave at the 0 it had.
unfoldable pub count_or_zero : Option ℕ → ℕ
count_or_zero none = 0
count_or_zero (some n) = n

module _ {W : Type 0} (platform : SocketPlatform W) where
  -- `close`
  unfoldable pub close : ZqSocket → W → ZqSocket × W
  close none w = (none, w)
  close (some s) w = (none, platform.close_socket s w)

  -- The move assignment: this socket, what is left of the other one, and the system.
  unfoldable pub move_assign : ZqSocket → ZqSocket → W → (ZqSocket × ZqSocket) × W
  move_assign this socket w = let (closed, w') = close this w in ((socket, none), w')

  -- `bind`, `connect` and `listen`
  unfoldable pub bind : SocketAddress → ZqSocket → W → Option (Bool × W)
  bind address socket w = do
    s ← socket
    some (let (e, w') = platform.bind s address w in (is_zero e, w'))

  unfoldable pub connect : SocketAddress → ZqSocket → W → Option (Bool × W)
  connect address socket w = do
    s ← socket
    some (let (e, w') = platform.connect s address w in (is_zero e, w'))

  unfoldable pub listen : ℕ → ZqSocket → W → Option (Bool × W)
  listen backlog socket w = do
    s ← socket
    some (let (e, w') = platform.listen s backlog w in (is_zero e, w'))

  -- `Connect`; a socket that is not returned goes out of scope, and has no destructor
  unfoldable pub connect_to :
      SocketAddress → ℕ → ℕ → W → Option (Expected ZqSocket ConnectError × W)
  connect_to address type protocol w = get_family address >>= λ family.
      let (socket, w') = platform.open_socket family type protocol w in
      elim (is_open socket) [
        | false ↦ some (error connect_other, w')
        | true ↦ connect address socket w' >>= λ r.
            some (if r.0 then value (move_construct socket).0 else error connect_timeout, r.1)
      ]

  -- `Bind`
  unfoldable pub bind_to : SocketAddress → ℕ → ℕ → W → Option (Expected ZqSocket BindError × W)
  bind_to address type protocol w = get_family address >>= λ family.
      let (socket, w') = platform.open_socket family type protocol w in
      elim (is_open socket) [
        | false ↦ some (error bind_other, w')
        | true ↦ bind address socket w' >>= λ r.
            some (if r.0 then value (move_construct socket).0 else error bind_other, r.1)
      ]

  -- `Listen`
  unfoldable pub listen_to :
      SocketAddress → ℕ → ℕ → ℕ → W → Option (Expected ZqSocket ListenError × W)
  listen_to address type backlog protocol w = bind_to address type protocol w >>= λ b. elim b.0 [
    | error e ↦ some (error listen_other, b.1)
    | value socket ↦ listen backlog socket b.1 >>= λ r.
        some (if r.0 then value (move_construct socket).0 else error listen_other, r.1)
  ]

  -- The loops of `sendAll` and `sendAllToAddress`, where `send` is the platform's function for the
  -- socket: it is given what is left of the array, and leaves the number of bytes that were sent. The
  -- assertion only logs.
  unfoldable pub send_rest : (List ℕ → W → (ℤ × Option ℕ) × W) → ℕ → List ℕ → ℕ → W → Option W
  send_rest send zero array bytes_sent w = none
  send_rest send (suc fuel) array bytes_sent w = elim (ltb bytes_sent (length array)) [
    | false ↦ some w
    | true ↦
        let ((result, last), w') = send (drop bytes_sent array) w in
        last >>= λ last_bytes_sent.
        send_rest send fuel array ((bytes_sent + last_bytes_sent) % size_mod) w'
  ]

  -- `sendAll`; each round is to send a byte at least, which bounds their number
  unfoldable pub send_all : List ℕ → ZqSocket → W → Option W
  send_all array socket w = do
    s ← socket
    send_rest (platform.send s) (suc (length array)) array 0 w

  -- `sendAllToAddress`
  unfoldable pub send_all_to_address : SocketAddress → List ℕ → ZqSocket → W → Option W
  send_all_to_address address array socket w = do
    s ← socket
    send_rest (λ bytes. platform.send_to s bytes address) (suc (length array)) array 0 w

  -- `send`, which cannot fail, and `sendToAddress`: the count is 0 before the call
  unfoldable pub send : List ℕ → ZqSocket → W → Option (Expected ℕ SendError × W)
  send array socket w = socket >>= λ s.
      let ((result, count), w') = platform.send s array w in some (value (count_or_zero count), w')

  unfoldable pub send_to_address : SocketAddress → List ℕ → ZqSocket → W → Option (ℕ × W)
  send_to_address address array socket w = socket >>= λ s.
      let ((result, count), w') = platform.send_to s array address w in
      some (count_or_zero count, w')

  -- What `receive` and `receiveWithAddress` make of the result: a vector of the received bytes.
  unfoldable pub received : Received → Option (Expected (List (Option ℕ)) SocketReceiveError)
  received r =
      if is_again platform.constants r.result
      then some (error socket_timeout)
      else if not (is_zero r.result)
      then some (error socket_other)
      else (do
        n ← r.bytes_received
        buffer ← r.buffer
        some (if n == 0 then error disconnected else value (take n buffer)))

  -- `receive`
  unfoldable pub receive : ZqSocket → W → Option (Expected (List (Option ℕ)) SocketReceiveError × W)
  receive socket w = do s ← socket; (r, w') ← platform.receive s w; e ← received r; some (e, w')

  -- `receiveWithAddress`; `fresh` is the address before the call, which is not initialised
  unfoldable pub receive_with_address :
      SocketAddress
      → ZqSocket
      → W
      → Option (Expected (List (Option ℕ) × SocketAddress) SocketReceiveError × W)
  receive_with_address fresh socket w = socket >>= λ s. platform.receive_from s fresh w >>= λ r.
      received r.0.0 >>= λ e. some (elim e [ error x ↦ error x | value v ↦ value (v, r.0.1) ], r.1)

  -- `accept`, with the same
  unfoldable pub accept :
      SocketAddress → ZqSocket → W → Option (Expected (ZqSocket × SocketAddress) AcceptError × W)
  accept fresh socket w = socket >>= λ s.
      let ((client, address), w') = platform.accept s fresh w in
      some (
        if is_open client then value (client, create_from_sockaddr address) else error accept_other,
        w',
      )

  -- `setSocketOption`
  unfoldable pub set_socket_option : ℕ → ℕ → List ℕ → ZqSocket → W → Option W
  set_socket_option level name option_value socket w = do
    s ← socket
    some (let (e, w') = platform.set_option s level name option_value w in w')
