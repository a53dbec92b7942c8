-- ===== src/Socket/Sending.antt =====
-- `sendAll` of Base/Socket.cpp, on any platform and on Linux.
use mathlib.Core.List.{append_assoc}
use ziqe.Prelude.{
  ℕ, zero, suc, ◌+◌, ◌%◌, ◌≤◌, ◌<◌, ◌≡◌, refl, sym, ◌∙◌, ap, List, ◌++◌, Option, none, some, true,
  false, arith, take, drop, length, ltb, lt→ltb, ltb→lt, Bool-cases, inl, inr, append_nil, drop_all,
  drop-drop, take-append-drop, length-drop,
}
use ziqe.Prelude.Fallible.{◌>>=◌, Returns}
use ziqe.Prelude.Int.{ℤ, pos, negsuc}
use ziqe.Vector.{size_mod}
use ziqe.SocketPlatform.{Sockaddr, SocketAddress, SocketPlatform}
use ziqe.KernelSocket.{Kernel, linux, send_message, zq_socket_send, zq_socket_send_to}
use ziqe.Socket.{send_rest, send_all, send_all_to_address}

-- What a platform's sending function promises: of bytes that are not empty it sends the first ones, at
-- least one, and leaves their number; `sent` is what the socket has sent.
pub record Delivers {W : Type 0} (send : List ℕ → W → (ℤ × Option ℕ) × W) (sent : W → List ℕ)
    : Type 0 where
  pub delivery :
      (bytes : List ℕ) (w : W)
      → 0 < length bytes
      → (n : ℕ) × (w' : W) × (send bytes w ≡ ((pos 0, some n), w'))
        × (0 < n)
        × (n ≤ length bytes)
        × (sent w' ≡ sent w ++ take n bytes)

ltb-false : (a b : ℕ) → ltb a b ≡ false → b ≤ a
ltb-false a b h = ground arith

module _ {W : Type 0} (platform : SocketPlatform W) where
  -- One round of the loop, and its end.
  send_rest-step :
      (send : List ℕ → W → (ℤ × Option ℕ) × W) (fuel : ℕ) (array : List ℕ) (done : ℕ) (w : W)
      (e : ℤ) (n : ℕ) (w' : W)
      → ltb done (length array) ≡ true
      → send (drop done array) w ≡ ((e, some n), w')
      → send_rest platform send (suc fuel) array done w
        ≡ send_rest platform send fuel array ((done + n) % size_mod) w'
  unfolding send_rest
  send_rest-step send fuel array done w e n w' more run = rw (send_rest, more, run, ◌>>=◌) refl

  send_rest-end :
      (send : List ℕ → W → (ℤ × Option ℕ) × W) (fuel : ℕ) (array : List ℕ) (done : ℕ) (w : W)
      → ltb done (length array) ≡ false
      → send_rest platform send (suc fuel) array done w ≡ some w
  unfolding send_rest
  send_rest-end send fuel array done w over = rw (send_rest, over) refl

  send_rest-Delivers :
      (send : List ℕ → W → (ℤ × Option ℕ) × W) (sent : W → List ℕ)
      → Delivers send sent
      → (fuel : ℕ) (array : List ℕ) (done : ℕ) (w : W) → length array < done + fuel
      → done ≤ length array
      → length array < size_mod
      → Returns
          (send_rest platform send fuel array done w)
          (λ w'. sent w' ≡ sent w ++ drop done array)
  send_rest-Delivers send sent d zero array done w enough inside small = absurd (omega arith)
  send_rest-Delivers send sent d (suc fuel) array done w enough inside small =
      elim (Bool-cases (ltb done (length array))) [
        | inl more ↦
            let rest = drop done array in
            let left : 0 < length rest =
              omega (arith, length-drop done array, ltb→lt done (length array) more) in
            let (n, w1, run, progress, within, first) = d.delivery rest w left in
            let next : (done + n) % size_mod ≡ done + n =
              omega (arith, within, length-drop done array) in
            let (w2, run', others) =
              send_rest-Delivers send sent d fuel array (done + n) w1 (omega (arith, progress))
                (omega (arith, within, length-drop done array)) small in
            (
              w2,
              send_rest-step send fuel array done w (pos 0) n w1 more run
                  ∙ (ap (λ k. send_rest platform send fuel array k w1) next ∙ run'),
              others
                  ∙ (ap (λ s. s ++ drop (done + n) array) first
                      ∙ (append_assoc (sent w) (take n rest) (drop (done + n) array)
                          ∙ ap (λ s. sent w ++ s)
                              (ap (λ s. take n rest ++ s) (sym (drop-drop done n array))
                                ∙ take-append-drop n rest))),
            )
        | inr over ↦
            let end : length array ≤ done = ltb-false done (length array) over in
            let all = drop_all done array end in
            (
              w,
              send_rest-end send fuel array done w over,
              sym (ap (λ s. sent w ++ s) all ∙ append_nil (sent w)),
            )
      ]

  send_all-Delivers :
      (sent : W → List ℕ) (sock : ℕ) (array : List ℕ) (w : W)
      → Delivers (platform.send sock) sent
      → length array < size_mod
      → Returns (send_all platform array (some sock) w) (λ w'. sent w' ≡ sent w ++ array)
  unfolding send_all
  send_all-Delivers sent sock array w d small =
      send_rest-Delivers (platform.send sock) sent d (suc (length array)) array 0 w (omega arith)
        (omega arith) small

  send_all_to_address-Delivers :
      (sent : W → List ℕ) (sock : ℕ) (address : SocketAddress) (array : List ℕ) (w : W)
      → Delivers (λ bytes. platform.send_to sock bytes address) sent
      → length array < size_mod
      → Returns
          (send_all_to_address platform address array (some sock) w)
          (λ w'. sent w' ≡ sent w ++ array)
  unfolding send_all_to_address
  send_all_to_address-Delivers sent sock address array w d small =
      send_rest-Delivers (λ bytes. platform.send_to sock bytes address) sent d (suc (length array))
        array 0 w (omega arith) (omega arith) small

-- What `kernel_sendmsg` promises for a socket and a name: it returns the number of bytes it took, which
-- are the first ones, and takes one at least of bytes that are not empty.
pub record Takes {W : Type 0} (kernel : Kernel W) (sock : ℕ) (name : Option (Sockaddr × ℕ))
    (sent : W → List ℕ) : Type 0 where
  pub taking :
      (bytes : List ℕ) (w : W)
      → 0 < length bytes
      → (n : ℕ) × (w' : W) × (kernel.kernel_sendmsg sock bytes name w ≡ (pos n, w'))
        × (0 < n)
        × (n ≤ length bytes)
        × (sent w' ≡ sent w ++ take n bytes)

module _ {W : Type 0} (kernel : Kernel W) (junk : ℕ) where
  send_message-taken :
      (sock : ℕ) (name : Option (Sockaddr × ℕ)) (bytes : List ℕ) (w : W) (n : ℕ) (w' : W)
      → kernel.kernel_sendmsg sock bytes name w ≡ (pos n, w')
      → send_message kernel sock bytes name w ≡ ((pos 0, some n), w')
  unfolding send_message
  send_message-taken sock name bytes w n w' run =
      rw (send_message, run) (ap (λ r. ((pos 0, some n), r.1)) run)

  send_message-Takes :
      (sent : W → List ℕ) (sock : ℕ) (name : Option (Sockaddr × ℕ))
      → Takes kernel sock name sent
      → Delivers (λ bytes. send_message kernel sock bytes name) sent
  send_message-Takes sent sock name t = record {
    delivery = λ bytes w some_left.
        let (n, w1, run, progress, within, first) = t.taking bytes w some_left in
        (n, w1, send_message-taken sock name bytes w n w1 run, progress, within, first);
  }

  -- On Linux, when `kernel_sendmsg` takes at least one byte of what it is given, `sendAll` of an array
  -- shorter than 2 ^ 64 on a socket returns, and the socket has then sent the whole array once, in order,
  -- after what it had sent before, however the kernel cut it; the loop ends in at most as many rounds as
  -- the array has bytes.
  pub send_all-sent :
      (sent : W → List ℕ) (sock : ℕ) (array : List ℕ) (w : W)
      → Takes kernel sock none sent
      → length array < size_mod
      → Returns (send_all (linux kernel junk) array (some sock) w) (λ w'. sent w' ≡ sent w ++ array)
  unfolding linux zq_socket_send
  send_all-sent sent sock array w t small =
      send_all-Delivers (linux kernel junk) sent sock array w (send_message-Takes sent sock none t)
        small

  -- The same of `sendAllToAddress`.
  send_all_to_address-sent :
      (sent : W → List ℕ) (sock : ℕ) (address : SocketAddress) (array : List ℕ) (w : W)
      → Takes kernel sock (some (address.sockaddr, address.socklen)) sent
      → length array < size_mod
      → Returns
          (send_all_to_address (linux kernel junk) address array (some sock) w)
          (λ w'. sent w' ≡ sent w ++ array)
  unfolding linux zq_socket_send_to
  send_all_to_address-sent sent sock address array w t small =
      send_all_to_address-Delivers (linux kernel junk) sent sock address array w
        (send_message-Takes sent sock (some (address.sockaddr, address.socklen)) t) small

  -- On Linux, when `kernel_sendmsg` fails on an array of at least one byte, `sendAll` does not return the
  -- error: it adds the count, which nothing has set, to the bytes that were sent, which is undefined.
  pub send_all-failure :
      (sock : ℕ) (array : List ℕ) (w w' : W) (code : ℕ)
      → 0 < length array
      → kernel.kernel_sendmsg sock array none w ≡ (negsuc code, w')
      → send_all (linux kernel junk) array (some sock) w ≡ none
  unfolding linux zq_socket_send send_message send_all send_rest
  send_all-failure sock array w w' code some_left failed =
      rw (send_all, ◌>>=◌, send_rest, lt→ltb 0 (length array) some_left, failed) refl
