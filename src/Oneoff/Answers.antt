-- ===== src/Oneoff/Answers.antt =====
-- src/oneoff.rs: what the receiving end gets.
use async_winit.Prelude.{ℕ, ◌≡◌, refl, true, false, none, some, [], ◌∷◌, ◌==◌, arith}
use async_winit.Task.{ready, pending}
use async_winit.Sync.Channels.{ChannelApi, Safety, thread_safe, thread_unsafe}
use async_winit.Sync.Channels
use async_winit.Oneoff.{oneoff, send, recv}

module _ {I : Type 0} {A : I → Type 0} (channels : ChannelApi A) where
  -- A send to a channel that is open and empty.
  pub record Sends (k : I) (tx : ℕ) (event : A k) (s s' : channels.Store) : Type 0 where
    pub contents : channels.contents k tx s' ≡ event ∷ []
    pub opened : (j : ℕ) → channels.is_open j s' ≡ channels.is_open j s
    pub others :
        (k' : I) (j : ℕ) → (tx == j) ≡ false → channels.contents k' j s' ≡ channels.contents k' j s

  pub send-Sends :
      (safety : Safety) (k : I) (tx : ℕ) (event : A k) (s : channels.Store)
      → channels.is_open tx s ≡ true
      → channels.contents k tx s ≡ []
      → (s' : channels.Store) × (send channels safety k tx event s ≡ some s')
        × Sends k tx event s s'
  unfolding send Channels.try_send
  send-Sends safety k tx event s o e =
      let (s', eq, one, opens, rest) = channels.try_send-some k tx event s o e in
      (s', rw eq, record { contents = one; opened = opens; others = rest })

  pub recv_ready :
      (k : I) (rx : ℕ) (event : A k) (s : channels.Store)
      → channels.contents k rx s ≡ event ∷ []
      → (s' : channels.Store) × (recv channels k rx s ≡ (ready event, s'))
  unfolding recv
  recv_ready k rx event s e =
      let (s', eq, _) = channels.try_recv-some k rx event s e in (s', rw (eq, recv))

  -- A new one-off channel is pending until it is sent to; the event that is sent is then what its
  -- receiving end gets.
  pub recv-send :
      (safety : Safety) (k : I) (event : A k) (s : channels.Store)
      → (rx : ℕ) × (s1 s2 s3 : channels.Store) × (oneoff channels k s ≡ (rx, s1))
        × (recv channels k rx s1 ≡ (pending, s1))
        × (send channels safety k rx event s1 ≡ some s2)
        × (recv channels k rx s2 ≡ (ready event, s3))
  unfolding oneoff recv
  recv-send safety k event s =
      let rx = channels.fresh s in
      let s1 = channels.make k s in
      let empty : channels.contents k rx s1 ≡ [] =
        ground (arith, channels.contents-make k s k rx) in
      let (s2, eq, sends) =
        send-Sends safety k rx event s1 (ground (arith, channels.is_open-make k s rx)) empty in
      let (s3, got) = recv_ready k rx event s2 sends.contents in
      (rx, s1, s2, s3, refl, rw (channels.try_recv-none k rx s1 empty, recv), eq, got)

  -- A send after the receiving end is dropped: a panic in the thread-safe build, and nothing in the
  -- other.
  pub send-drop_receiver :
      (k : I) (event : A k) (rx : ℕ) (s : channels.Store)
      → (send channels thread_safe k rx event (channels.drop_receiver rx s) ≡ none)
        × (send channels thread_unsafe k rx event (channels.drop_receiver rx s)
            ≡ some (channels.drop_receiver rx s))
  unfolding send Channels.try_send
  send-drop_receiver k event rx s =
      let closed =
        channels.try_send-none k rx event (channels.drop_receiver rx s)
          (ground (arith, channels.is_open-drop_receiver rx s rx)) in
      (rw closed, rw closed)
