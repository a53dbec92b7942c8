-- ===== src/Tests/Sockets.antt =====
-- A kernel that takes two bytes at a time, refuses connections and has `bytes` to give.
use ziqe.Prelude.{
  ℕ, ◌≡◌, refl, ap, sym, ◌∙◌, ◌<◌, ◌≤◌, List, [], ◌∷◌, ◌++◌, Option, none, some, true, false, arith,
  length, take,
}
use ziqe.Prelude.Fallible.{Returns}
use ziqe.Prelude.Int.{ℤ, pos, negsuc, is_zero, pos_injective}
use ziqe.SocketPlatform.{Constants, Sockaddr, unset}
use ziqe.KernelSocket.{Kernel, linux, get_next_packet_size, packet_buffer}
use ziqe.Socket.{send_all, receive, connect_to, listen_to, get_family, create_in4}
use ziqe.Socket.Sending.{Takes, send_all-sent}
use ziqe.Socket.Receiving.{answer, receive-answer}
use ziqe.Socket.Opening.{
  KernelTracks, ConnectLeaves, BindLeaves, linux-Tracks, connect_to-leaves, listen_to-leaves,
}

abbrev constants : Constants
constants = record {
  af_inet = 2;
  af_inet6 = 10;
  sizeof_in = 16;
  sizeof_in6 = 28;
  e_again = 11;
  type_stream = 1;
  type_datagram = 2;
  level_socket = 1;
  option_broadcast = 6;
  int_bytes = λ n. n ∷ 0 ∷ 0 ∷ 0 ∷ [];
}

abbrev two : List ℕ → ℕ
two [] = 0
two (a ∷ []) = 1
two (a ∷ b ∷ s) = 2

-- The system is what the socket has sent, or the sockets that are open.
abbrev pub kernel : ℤ → List ℕ → Kernel (List ℕ)
kernel result bytes = record {
  constants = constants;
  sock_create = λ family type protocol w. ((pos 0, 7), 7 ∷ w);
  sock_release = λ s w. [];
  kernel_listen = λ s backlog w. (pos 0, w);
  kernel_bind = λ s name size w. (pos 0, w);
  kernel_connect = λ s name size w. (negsuc 110, w);
  sock_ioctl_inq = λ s w. (pos 0, length bytes);
  kernel_sendmsg = λ s sent name w. (pos (two sent), w ++ take (two sent) sent);
  kernel_recvmsg = λ s size name_length w.
      (record { result = result; bytes = bytes; name = unset; name_length = 0 }, w);
  kernel_setsockopt = λ s level name option_value w. (pos 0, w);
  kernel_accept = λ s w. ((pos 0, 8), 8 ∷ w);
  kernel_getsockname = λ s size w. (unset, 0);
  allocate = λ size w. w;
}

abbrev pub sent : List ℕ → List ℕ
sent w = w

kernel-Takes :
    (result : ℤ) (bytes : List ℕ) (name : Option (Sockaddr × ℕ))
    → Takes (kernel result bytes) 7 name sent
kernel-Takes result bytes name = record {
  taking = λ bytes w h.
      (two bytes, w ++ take (two bytes) bytes, refl, positive bytes h, inside bytes, refl);
}
  where
    positive : (bytes : List ℕ) → 0 < length bytes → 0 < two bytes
    positive [] h = h
    positive (a ∷ []) h = omega arith
    positive (a ∷ b ∷ s) h = omega arith

    inside : (bytes : List ℕ) → two bytes ≤ length bytes
    inside [] = omega arith
    inside (a ∷ []) = omega arith
    inside (a ∷ b ∷ s) = omega arith

abbrev pub quiet : Kernel (List ℕ)
quiet = kernel (pos 0) []

send_all-sent_example :
    Returns
      (send_all (linux quiet 0) (1 ∷ 2 ∷ 3 ∷ []) (some 7) [])
      (λ w. sent w ≡ sent [] ++ 1 ∷ 2 ∷ 3 ∷ [])
send_all-sent_example =
    send_all-sent quiet 0 sent 7 (1 ∷ 2 ∷ 3 ∷ []) [] (kernel-Takes (pos 0) [] none) (omega arith)

-- A kernel whose socket is shut down.
abbrev shut : Kernel (List ℕ)
shut = record quiet { kernel_sendmsg = λ s sent name w. (negsuc 31, w) }

abbrev three : Kernel (List ℕ)
three = kernel (pos 3) (5 ∷ 6 ∷ 7 ∷ [])

receive-answer_example :
    receive (linux three 0) (some 7) [] ≡ some (answer (pos 3) (5 ∷ 6 ∷ 7 ∷ []), [])
unfolding get_next_packet_size packet_buffer
receive-answer_example =
    receive-answer three 0 7 [] 3 (pos 3) (5 ∷ 6 ∷ 7 ∷ []) unset 0 [] (omega arith) refl refl
      (pos_injective 3)

true_not_false : ¬ (true ≡ false)
true_not_false e = cc

quiet-Tracks : KernelTracks quiet sent
quiet-Tracks = record {
  created = λ family type protocol w w' sock e.
      sym (ap (λ (x : (ℤ × ℕ) × List ℕ). x.1) e) ∙ ap (λ (x : (ℤ × ℕ) × List ℕ). x.0.1 ∷ w) e;
  refused = λ family type protocol w w' r sock e h. absurd (
      let z : is_zero (pos 0) ≡ is_zero r = ap (λ (x : (ℤ × ℕ) × List ℕ). is_zero x.0.0) e in
      true_not_false (z ∙ h));
  connecting = λ s name size w. refl;
  binding = λ s name size w. refl;
  listening = λ s backlog w. refl;
}

connect_to-leaves_example :
    Returns (connect_to (linux quiet 0) (create_in4 constants 1 80) 1 0 []) (ConnectLeaves sent [])
unfolding get_family create_in4
connect_to-leaves_example =
    connect_to-leaves (linux quiet 0) sent (linux-Tracks quiet 0 sent quiet-Tracks)
      (create_in4 constants 1 80) 1 0 [] 2 refl

listen_to-leaves_example :
    Returns (listen_to (linux quiet 0) (create_in4 constants 1 80) 1 5 0 []) (BindLeaves sent [])
unfolding get_family create_in4
listen_to-leaves_example =
    listen_to-leaves (linux quiet 0) sent (linux-Tracks quiet 0 sent quiet-Tracks)
      (create_in4 constants 1 80) 1 5 0 [] 2 refl
