-- ===== src/Reactor/Loop/Drain.antt =====
-- src/reactor.rs, `drain_loop_queue`: every operation is run once, in the order in which they were
-- pushed, and each answer is in its own channel.
use async_winit.Prelude.{
  ℕ, zero, suc, ◌≡◌, ◌≤◌, refl, ◌∙◌, true, false, some, List, [], ◌∷◌, ◌++◌, length, has, arith,
  ◌==◌, ◌||◌, if◌then◌else◌,
}
use async_winit.Sync.{QueueApi}
use async_winit.Sync.Channels.{ChannelApi, Safety}
use async_winit.Oneoff.Answers.{Sends, send-Sends}
use async_winit.Reactor.{TimerOp}
use async_winit.Ops.Winit.{WinitWindows}
use async_winit.Ops.Request.{Kind, Answer, EventLoopOp, reply}
use async_winit.Ops.Run.{run, perform}
use async_winit.Reactor.Loop.{drain}

module _ {winit : WinitWindows} where
  abbrev pub wakers : List (EventLoopOp winit) → List ℕ
  wakers [] = []
  wakers (op ∷ ops) = op.waker ∷ wakers ops

  -- What the calls of a list of operations make of the window system.
  abbrev pub perform_all : List (EventLoopOp winit) → winit.Env → winit.Env
  perform_all [] env = env
  perform_all (op ∷ ops) env = perform_all ops (perform winit op.request env).1

  pub wakers-append :
      (j : ℕ) (ops : List (EventLoopOp winit)) (op : EventLoopOp winit)
      → has j (wakers (ops ++ op ∷ [])) ≡ (has j (wakers ops) || op.waker == j)
  wakers-append j [] op = ground arith
  wakers-append j (o ∷ ops) op = ground (arith, wakers-append j ops op)

  pub perform_all-append :
      (ops : List (EventLoopOp winit)) (op : EventLoopOp winit) (env : winit.Env)
      → perform_all (ops ++ op ∷ []) env ≡ (perform winit op.request (perform_all ops env)).1
  perform_all-append [] op env = refl
  perform_all-append (o ∷ ops) op env = perform_all-append ops op (perform winit o.request env).1

  module _ (channels : ChannelApi (Answer winit)) where
    -- The operations have channels of their own, open and empty.
    abbrev pub Waiting : List (EventLoopOp winit) → channels.Store → Type 0
    Waiting [] s = Unit {0}
    Waiting (op ∷ ops) s =
        (channels.is_open op.waker s ≡ true)
        × (channels.contents (reply winit op.request) op.waker s ≡ [])
        × (has op.waker (wakers ops) ≡ false)
        × Waiting ops s

    -- Each channel holds the answer of its operation, called behind those before it.
    abbrev pub Answered : List (EventLoopOp winit) → winit.Env → channels.Store → Type 0
    Answered [] env s = Unit {0}
    Answered (op ∷ ops) env s =
        (channels.contents (reply winit op.request) op.waker s
          ≡ (perform winit op.request env).0 ∷ [])
        × Answered ops (perform winit op.request env).1 s

    pub Waiting-Sends :
        (ops : List (EventLoopOp winit)) (op : EventLoopOp winit)
        (a : Answer winit (reply winit op.request)) (s s' : channels.Store)
        → Sends channels (reply winit op.request) op.waker a s s'
        → has op.waker (wakers ops) ≡ false
        → Waiting ops s
        → Waiting ops s'
    Waiting-Sends [] op a s s' sends h w = tt
    Waiting-Sends (o ∷ ops) op a s s' sends h (o1, c1, d1, w) = (
      sends.opened o.waker ∙ o1,
      sends.others (reply winit o.request) o.waker (ground arith) ∙ c1,
      d1,
      Waiting-Sends ops op a s s' sends (ground arith) w,
    )

    pub Answered-last :
        (ops : List (EventLoopOp winit)) (op : EventLoopOp winit) (env : winit.Env)
        (s : channels.Store)
        → Answered (ops ++ op ∷ []) env s
        → channels.contents (reply winit op.request) op.waker s
          ≡ (perform winit op.request (perform_all ops env)).0 ∷ []
    Answered-last [] op env s a = a.0
    Answered-last (o ∷ ops) op env s a = Answered-last ops op (perform winit o.request env).1 s a.1

    pub Waiting-make :
        (ops : List (EventLoopOp winit)) (k : Kind) (s : channels.Store)
        → Waiting ops s
        → Waiting ops (channels.make k s) × (has (channels.fresh s) (wakers ops) ≡ false)
    Waiting-make [] k s w = (tt, refl)
    Waiting-make (op ∷ ops) k s (o, c, d, w) =
        let (rest, fresh) = Waiting-make ops k s w in
        let other : (channels.fresh s == op.waker) ≡ false =
          ground (arith, channels.fresh_closed s) in
        (
          (
            ground (arith, channels.is_open-make k s op.waker),
            channels.contents-make k s (reply winit op.request) op.waker
                ∙ (rw (other, if◌then◌else◌) c),
            d,
            rest,
          ),
          ground arith,
        )

    pub Waiting-drop_receiver :
        (ops : List (EventLoopOp winit)) (i : ℕ) (s : channels.Store)
        → Waiting ops s
        → has i (wakers ops) ≡ false
        → Waiting ops (channels.drop_receiver i s)
    Waiting-drop_receiver [] i s w n = tt
    Waiting-drop_receiver (op ∷ ops) i s (o, c, d, w) n =
        let other : (i == op.waker) ≡ false = ground arith in
        (
          channels.is_open-drop_receiver i s op.waker ∙ (rw (other, if◌then◌else◌) o),
          channels.contents-drop_receiver i s (reply winit op.request) op.waker other ∙ c,
          d,
          Waiting-drop_receiver ops i s w (ground arith),
        )

    pub Waiting-append :
        (ops : List (EventLoopOp winit)) (op : EventLoopOp winit) (s : channels.Store)
        → Waiting ops s
        → has op.waker (wakers ops) ≡ false
        → channels.is_open op.waker s ≡ true
        → channels.contents (reply winit op.request) op.waker s ≡ []
        → Waiting (ops ++ op ∷ []) s
    Waiting-append [] op s w n o c = (o, c, refl, tt)
    Waiting-append (x ∷ ops) op s (o1, c1, d1, w) n o c = (
      o1,
      c1,
      ground (arith, wakers-append x.waker ops op),
      Waiting-append ops op s w (ground arith) o c,
    )

    module _ (safety : Safety) (queue : QueueApi TimerOp)
        (channel : QueueApi (EventLoopOp winit)) where
      pub drain-Answered :
          (limit : ℕ) (q : channel.Queue) (ops : List (EventLoopOp winit)) (env : winit.Env)
          (s : channels.Store)
          → channel.items q ≡ ops
          → length ops ≤ limit
          → Waiting ops s
          → (q' : channel.Queue) × (s' : channels.Store) × (drain winit channels queue channel
                safety limit q env s
              ≡ some (q', perform_all ops env, s'))
            × (channel.items q' ≡ [])
            × Answered ops env s'
            × ((j : ℕ)
                → has j (wakers ops) ≡ false
                → (k : _) → channels.contents k j s' ≡ channels.contents k j s)
            × (channel.capacity q' ≡ channel.capacity q)
      unfolding drain run
      drain-Answered zero q [] env s e h w = (q, s, refl, e, tt, λ j n k. refl, refl)
      drain-Answered zero q (op ∷ ops) env s e h w = absurd (omega arith)
      drain-Answered (suc limit) q [] env s e h w =
          (q, s, rw (channel.try_next-nil q e, drain), e, tt, λ j n k. refl, refl)
      drain-Answered (suc limit) q (op ∷ ops) env s e h (o1, c1, d1, w) =
          let (q1, next, rest, cap) = channel.try_next-cons q op ops e in
          let (a, env1) = perform winit op.request env in
          let (s1, sent, sends) =
            send-Sends channels safety (reply winit op.request) op.waker a s o1 c1 in
          let (q2, s2, eq, empty, answered, kept, cap') =
            drain-Answered limit q1 ops env1 s1 rest (omega arith)
              (Waiting-Sends ops op a s s1 sends d1 w) in
          (
            q2,
            s2,
            rw (next, drain) (rw (sent, run) eq),
            empty,
            (kept op.waker d1 (reply winit op.request) ∙ sends.contents, answered),
            λ j n k. kept j (ground arith) k ∙ sends.others k j (ground arith),
            cap' ∙ cap,
          )
