-- ===== src/Oneoff.antt =====
-- src/oneoff.rs: the one-off channels. `none` is the panic of `todo!()` in src/sync.rs.
pub mod Answers
use async_winit.Prelude.{ℕ, Option, none, some, map_option}
use async_winit.Task.{Poll, ready, pending}
use async_winit.Sync.Channels.{ChannelApi, Safety}
use async_winit.Sync.Channels

module _ {I : Type 0} {A : I → Type 0} (channels : ChannelApi A) where
  -- `oneoff`: the number of both ends, and the store.
  unfoldable pub oneoff : I → channels.Store → ℕ × channels.Store
  oneoff k s = (channels.fresh s, channels.make k s)

  -- `Complete::send`.
  unfoldable pub send : Safety → (k : I) → ℕ → A k → channels.Store → Option channels.Store
  send safety k tx event s = Channels.try_send safety s (channels.try_send k tx event s)

  -- One poll of `Oneoff::recv`. The sending end lives until the value is sent.
  unfoldable pub recv : (k : I) → ℕ → channels.Store → Poll (A k) × channels.Store
  recv k rx s = elim (channels.try_recv k rx s) [
    | none ↦ (pending, s)
    | some (event, s') ↦ (ready event, s')
  ]
