-- ===== src/Socket/Opening.antt =====
-- `Connect`, `Bind` and `Listen` of Base/Socket.cpp: which sockets of the platform they leave open.
use mathlib.Core.Path.{subst}
use ziqe.Prelude.{
  ℕ, zero, suc, ◌≡◌, refl, List, ◌∷◌, none, some, false, ◌⊎◌, ◌∙◌, inl, inr, Bool-cases,
}
use ziqe.Prelude.Fallible.{◌>>=◌, Returns}
use ziqe.Prelude.Int.{ℤ, pos, negsuc, is_zero}
use ziqe.Expected.{Expected, value, error}
use ziqe.KernelSocket.{
  Kernel, linux, zq_socket_open, zq_socket_connect, zq_socket_bind, zq_socket_listen,
}
use ziqe.SocketPlatform.{Sockaddr, SocketAddress, ZqSocket, SocketPlatform}
use ziqe.Socket.{
  ConnectError, connect_timeout, connect_other, bind_other, listen_other, get_family, is_open,
  move_construct, connect_to, bind_to, listen_to, connect, bind, listen,
}

-- What a platform promises of the sockets that are open: opening one adds it, closing one removes it,
-- and the other functions leave them.
pub record Tracks {W : Type 0} (platform : SocketPlatform W) (live : W → List ℕ) : Type 0 where
  pub opened :
      (family type protocol : ℕ) (w w' : W) (s : ℕ)
      → platform.open_socket family type protocol w ≡ (some s, w')
      → live w' ≡ s ∷ live w
  pub not_opened :
      (family type protocol : ℕ) (w w' : W)
      → platform.open_socket family type protocol w ≡ (none, w')
      → live w' ≡ live w
  pub kept_connect :
      (s : ℕ) (address : SocketAddress) (w : W) → live (platform.connect s address w).1 ≡ live w
  pub kept_bind :
      (s : ℕ) (address : SocketAddress) (w : W) → live (platform.bind s address w).1 ≡ live w
  pub kept_listen : (s backlog : ℕ) (w : W) → live (platform.listen s backlog w).1 ≡ live w

module _ {W : Type 0} (live : W → List ℕ) (before : W) where
  -- One more socket is open.
  abbrev pub OneMore : ℕ → W → Type 0
  OneMore s w = live w ≡ s ∷ live before

  -- What the answer of `Connect` says of the open sockets: a value owns the one more that is open; after
  -- `connect_other` none is, and after `connect_timeout` one is that nothing owns.
  abbrev pub ConnectLeaves : Expected ZqSocket ConnectError × W → Type 0
  ConnectLeaves (value (some s), w) = OneMore s w
  ConnectLeaves (value none, w) = ⊥
  ConnectLeaves (error connect_other, w) = live w ≡ live before
  ConnectLeaves (error connect_timeout, w) = (s : ℕ) × OneMore s w

  -- Of `Bind` and `Listen`, whose only error does not tell.
  abbrev pub BindLeaves : {E : Type 0} → Expected ZqSocket E × W → Type 0
  BindLeaves (value (some s), w) = OneMore s w
  BindLeaves (value none, w) = ⊥
  BindLeaves (error e, w) = (live w ≡ live before) ⊎ ((s : ℕ) × OneMore s w)

module _ {W : Type 0} (platform : SocketPlatform W) (live : W → List ℕ)
    (t : Tracks platform live) where
  connect_to-opened :
      (address : SocketAddress) (type protocol : ℕ) (w : W) (family : ℕ) (o : ZqSocket × W)
      → get_family address ≡ some family
      → platform.open_socket family type protocol w ≡ o
      → Returns (connect_to platform address type protocol w) (ConnectLeaves live w)
  unfolding connect_to connect is_open move_construct
  connect_to-opened address type protocol w family (none, w1) known run = (
    (error connect_other, w1),
    rw (connect_to, ◌>>=◌, known, run, run) refl,
    t.not_opened family type protocol w w1 run,
  )
  connect_to-opened address type protocol w family (some s, w1) known run =
      let left = t.kept_connect s address w1 ∙ t.opened family type protocol w w1 s run in
      let w2 = (platform.connect s address w1).1 in
      elim (Bool-cases (is_zero (platform.connect s address w1).0)) [
        | inl ok ↦ ((value (some s), w2), rw (connect_to, ◌>>=◌, known, run, run, ok) refl, left)
        | inr failed ↦ (
          (error connect_timeout, w2),
          rw (connect_to, ◌>>=◌, known, run, run, failed) refl,
          (s, left),
        )
      ]

  -- On a platform that keeps track of the open sockets, `Connect` to an address with a family returns,
  -- and of its answers a value is the one socket more that is then open; after `connect_other` no
  -- socket more is open; after `connect_timeout` one more is, which the caller has no handle of.
  pub connect_to-leaves :
      (address : SocketAddress) (type protocol : ℕ) (w : W) (family : ℕ)
      → get_family address ≡ some family
      → Returns (connect_to platform address type protocol w) (ConnectLeaves live w)
  connect_to-leaves address type protocol w family known =
      connect_to-opened address type protocol w family (platform.open_socket family type protocol w)
        known refl

  bind_to-opened :
      (address : SocketAddress) (type protocol : ℕ) (w : W) (family : ℕ) (o : ZqSocket × W)
      → get_family address ≡ some family
      → platform.open_socket family type protocol w ≡ o
      → Returns (bind_to platform address type protocol w) (BindLeaves live w)
  unfolding bind_to bind is_open move_construct
  bind_to-opened address type protocol w family (none, w1) known run = (
    (error bind_other, w1),
    rw (bind_to, ◌>>=◌, known, run, run) refl,
    inl (t.not_opened family type protocol w w1 run),
  )
  bind_to-opened address type protocol w family (some s, w1) known run =
      let left = t.kept_bind s address w1 ∙ t.opened family type protocol w w1 s run in
      let w2 = (platform.bind s address w1).1 in
      elim (Bool-cases (is_zero (platform.bind s address w1).0)) [
        | inl ok ↦ ((value (some s), w2), rw (bind_to, ◌>>=◌, known, run, run, ok) refl, left)
        | inr failed ↦ (
          (error bind_other, w2),
          rw (bind_to, ◌>>=◌, known, run, run, failed) refl,
          inr (s, left),
        )
      ]

  listen_to-bound :
      (address : SocketAddress) (type backlog protocol : ℕ) (w : W)
      → Returns (bind_to platform address type protocol w) (BindLeaves live w)
      → Returns (listen_to platform address type backlog protocol w) (BindLeaves live w)
  unfolding listen_to listen is_open move_construct
  listen_to-bound address type backlog protocol w ((value none, w1), run, left) = absurd left
  listen_to-bound address type backlog protocol w ((error e, w1), run, left) =
      ((error listen_other, w1), rw (listen_to, run, ◌>>=◌) refl, left)
  listen_to-bound address type backlog protocol w ((value (some s), w1), run, left) =
      let kept = t.kept_listen s backlog w1 ∙ left in
      let w2 = (platform.listen s backlog w1).1 in
      elim (Bool-cases (is_zero (platform.listen s backlog w1).0)) [
        | inl ok ↦ ((value (some s), w2), rw (listen_to, run, ◌>>=◌, ok) refl, kept)
        | inr failed ↦
            ((error listen_other, w2), rw (listen_to, run, ◌>>=◌, failed) refl, inr (s, kept))
      ]

  -- The same of `Listen`, whose only error leaves as many sockets open as before or one more.
  pub listen_to-leaves :
      (address : SocketAddress) (type backlog protocol : ℕ) (w : W) (family : ℕ)
      → get_family address ≡ some family
      → Returns (listen_to platform address type backlog protocol w) (BindLeaves live w)
  listen_to-leaves address type backlog protocol w family known =
      listen_to-bound address type backlog protocol w (
        bind_to-opened address type protocol w family (platform.open_socket family type protocol w)
          known refl)

-- What the kernel's functions promise of the sockets that are open.
pub record KernelTracks {W : Type 0} (kernel : Kernel W) (live : W → List ℕ) : Type 0 where
  pub created :
      (family type protocol : ℕ) (w w' : W) (sock : ℕ)
      → kernel.sock_create family type protocol w ≡ ((pos 0, sock), w')
      → live w' ≡ sock ∷ live w
  pub refused :
      (family type protocol : ℕ) (w w' : W) (e : ℤ) (sock : ℕ)
      → kernel.sock_create family type protocol w ≡ ((e, sock), w')
      → is_zero e ≡ false
      → live w' ≡ live w
  pub connecting :
      (s : ℕ) (name : Sockaddr) (size : ℕ) (w : W)
      → live (kernel.kernel_connect s name size w).1 ≡ live w
  pub binding :
      (s : ℕ) (name : Sockaddr) (size : ℕ) (w : W)
      → live (kernel.kernel_bind s name size w).1 ≡ live w
  pub listening : (s backlog : ℕ) (w : W) → live (kernel.kernel_listen s backlog w).1 ≡ live w

module _ {W : Type 0} (kernel : Kernel W) (junk : ℕ) (live : W → List ℕ)
    (t : KernelTracks kernel live) where
  zq_socket_open-live :
      (family type protocol : ℕ) (w : W) (r : (ℤ × ℕ) × W)
      → kernel.sock_create family type protocol w ≡ r
      → live (zq_socket_open kernel family type protocol w).1
        ≡ elim (zq_socket_open kernel family type protocol w).0 [
          | none ↦ live w
          | some s ↦ s ∷ live w
        ]
  unfolding zq_socket_open
  zq_socket_open-live family type protocol w ((pos zero, sock), w1) run =
      rw (zq_socket_open, run) (t.created family type protocol w w1 sock run)
  zq_socket_open-live family type protocol w ((pos (suc n), sock), w1) run =
      rw (zq_socket_open, run) (t.refused family type protocol w w1 (pos (suc n)) sock run refl)
  zq_socket_open-live family type protocol w ((negsuc n, sock), w1) run =
      rw (zq_socket_open, run) (t.refused family type protocol w w1 (negsuc n) sock run refl)

  opened-live :
      (family type protocol : ℕ) (w : W) (o : ZqSocket) (w' : W)
      → zq_socket_open kernel family type protocol w ≡ (o, w')
      → live w' ≡ elim o [ none ↦ live w | some s ↦ s ∷ live w ]
  opened-live family type protocol w o w' opened =
      subst (λ (r : ZqSocket × W). live r.1 ≡ elim r.0 [ none ↦ live w | some s ↦ s ∷ live w ])
        opened
        (zq_socket_open-live family type protocol w (kernel.sock_create family type protocol w)
          refl)

  -- The platform that Linux gives keeps track of them.
  pub linux-Tracks : Tracks (linux kernel junk) live
  unfolding linux zq_socket_connect zq_socket_bind zq_socket_listen
  linux-Tracks = record {
    opened = λ family type protocol w w' s. opened-live family type protocol w (some s) w';
    not_opened = λ family type protocol w w'. opened-live family type protocol w none w';
    kept_connect = λ s address w. t.connecting s address.sockaddr address.socklen w;
    kept_bind = λ s address w. t.binding s address.sockaddr address.socklen w;
    kept_listen = λ s backlog w. t.listening s backlog w;
  }
