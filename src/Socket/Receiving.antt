-- ===== src/Socket/Receiving.antt =====
-- `receive` of Base/Socket.cpp on Linux.
use ziqe.Prelude.{
  ℕ, zero, suc, ◌-◌, ◌<◌, ◌≡◌, refl, sym, ◌∙◌, ap, ◌==◌, List, ◌++◌, Option, none, some, false,
  arith, take, length, map, replicate, length-map, take_append,
}
use ziqe.Prelude.Fallible.{◌>>=◌}
use ziqe.Prelude.Int.{ℤ, pos, negsuc}
use ziqe.Expected.{Expected, value, error}
use ziqe.SocketPlatform.{Sockaddr, Constants}
use ziqe.KernelSocket.{
  Kernel, linux, packet_buffer, filled_buffer, zq_socket_receive, get_next_packet_size,
}
use ziqe.UdpStream.{SocketReceiveError, disconnected, socket_other}
use ziqe.Socket.{receive, received, is_again}

-- What `receive` is to answer to a result of `kernel_recvmsg` with these bytes.
abbrev pub answer : ℤ → List ℕ → Expected (List (Option ℕ)) SocketReceiveError
answer (pos zero) bytes = error disconnected
answer (pos (suc n)) bytes = value (map some bytes)
answer (negsuc n) bytes = error socket_other

is_again-ok : (c : Constants) → 0 < c.e_again → is_again c (pos 0) ≡ false
unfolding is_again
is_again-ok c h = ground arith

suc_not_zero : (n : ℕ) → (suc n == 0) ≡ false
suc_not_zero n = ground arith

take-filled :
    (size : ℕ) (bytes : List ℕ) → take (length bytes) (filled_buffer size bytes) ≡ map some bytes
unfolding filled_buffer
take-filled size bytes =
    ap (λ k. take k (map some bytes ++ replicate (size - length bytes) none))
      (sym (length-map bytes some))
    ∙ take_append (map some bytes) (replicate (size - length bytes) none)

module _ {W : Type 0} (kernel : Kernel W) (junk : ℕ) where
  received-filled :
      (size n : ℕ) (bytes : List ℕ)
      → 0 < kernel.constants.e_again
      → length bytes ≡ n
      → received (linux kernel junk) (record {
        result = pos 0;
        buffer = some (filled_buffer size bytes);
        bytes_received = some n;
      })
        ≡ some (answer (pos n) bytes)
  unfolding received linux
  received-filled size zero bytes again l = rw (is_again-ok kernel.constants again) refl
  received-filled size (suc n) bytes again l =
      rw (is_again-ok kernel.constants again, suc_not_zero n)
        (ap (λ v. some (value v))
          (ap (λ k. take k (filled_buffer size bytes)) (sym l) ∙ take-filled size bytes))

  -- On Linux, where the value of `EAGAIN` is positive, and with a `kernel_recvmsg` whose result, when it
  -- is not negative, is the number of bytes it wrote: `receive` on a socket with `size` bytes queued
  -- answers with those bytes, in order; with `disconnected` when the result is 0; and with
  -- `socket_other` for every error, which `EAGAIN`, returned as a negative number, is one of: it never
  -- answers with `socket_timeout`.
  pub receive-answer :
      (sock : ℕ) (w : W) (size : ℕ) (result : ℤ) (bytes : List ℕ) (name : Sockaddr) (k : ℕ) (w' : W)
      → 0 < kernel.constants.e_again
      → get_next_packet_size kernel sock w ≡ some size
      → kernel.kernel_recvmsg sock size 0 (packet_buffer kernel size w)
        ≡ (record { result = result; bytes = bytes; name = name; name_length = k }, w')
      → ((n : ℕ) → result ≡ pos n → length bytes ≡ n)
      → receive (linux kernel junk) (some sock) w ≡ some (answer result bytes, w')
  unfolding receive linux zq_socket_receive received is_again
  receive-answer sock w size (pos n) bytes name k w' again sized run wrote =
      rw
        (
          receive,
          ◌>>=◌,
          linux,
          zq_socket_receive,
          sized,
          run,
          run,
          received-filled size n bytes again (wrote n refl),
        )
        refl
  receive-answer sock w size (negsuc n) bytes name k w' again sized run wrote =
      rw (receive, ◌>>=◌, linux, zq_socket_receive, sized, run, run) refl
