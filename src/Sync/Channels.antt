-- ===== src/Sync/Channels.antt =====
-- src/sync.rs: the bounded channels behind the one-off channels, as an interface. `I` are the kinds
-- of values that are sent, and a channel is known by a number. The channels themselves are those of
-- the crates async-channel and unsend.
pub mod Slots
use async_winit.Prelude.{
  ℕ, ◌≡◌, Bool, true, false, Option, none, some, List, [], ◌∷◌, ◌==◌, if◌then◌else◌,
}

pub record ChannelApi {I : Type 0} (A : I → Type 0) : Type 1 where
  pub Store : Type 0
  -- `channel_bounded(1)` makes the channel `fresh`, open and empty.
  pub fresh : Store → ℕ
  pub make : I → Store → Store
  -- `none` is an error: the channel is full, or its receiver is dropped.
  pub try_send : (k : I) → ℕ → A k → Store → Option Store
  pub try_recv : (k : I) → ℕ → Store → Option (A k × Store)
  pub drop_receiver : ℕ → Store → Store
  -- The values that wait in a channel, and whether its receiver lives.
  pub contents : (k : I) → ℕ → Store → List (A k)
  pub is_open : ℕ → Store → Bool
  pub fresh_closed : (s : Store) → is_open (fresh s) s ≡ false
  pub is_open-make :
      (k : I) (s : Store) (j : ℕ)
      → is_open j (make k s) ≡ (if fresh s == j then true else is_open j s)
  pub contents-make :
      (k : I) (s : Store) (k' : I) (j : ℕ)
      → contents k' j (make k s) ≡ (if fresh s == j then [] else contents k' j s)
  pub try_send-some :
      (k : I) (i : ℕ) (v : A k) (s : Store)
      → is_open i s ≡ true
      → contents k i s ≡ []
      → (s' : Store) × (try_send k i v s ≡ some s')
        × (contents k i s' ≡ v ∷ [])
        × ((j : ℕ) → is_open j s' ≡ is_open j s)
        × ((k' : I) (j : ℕ) → (i == j) ≡ false → contents k' j s' ≡ contents k' j s)
  pub try_send-none :
      (k : I) (i : ℕ) (v : A k) (s : Store) → is_open i s ≡ false → try_send k i v s ≡ none
  pub try_recv-some :
      (k : I) (i : ℕ) (v : A k) (s : Store)
      → contents k i s ≡ v ∷ []
      → (s' : Store) × (try_recv k i s ≡ some (v, s')) × (contents k i s' ≡ [])
  pub try_recv-none : (k : I) (i : ℕ) (s : Store) → contents k i s ≡ [] → try_recv k i s ≡ none
  pub is_open-drop_receiver :
      (i : ℕ) (s : Store) (j : ℕ)
      → is_open j (drop_receiver i s) ≡ (if i == j then false else is_open j s)
  pub contents-drop_receiver :
      (i : ℕ) (s : Store) (k : I) (j : ℕ)
      → (i == j) ≡ false
      → contents k j (drop_receiver i s) ≡ contents k j s

-- Which of the two builds it is.
pub data Safety : Type 0 where
  thread_safe : Safety
  thread_unsafe : Safety

-- `Sender::try_send`, given what the channel's own does: in the thread-safe build an error runs into
-- `todo!()`, a panic, and in the other it is dropped.
unfoldable pub try_send {ℓ} : {S : Type ℓ} → Safety → S → Option S → Option S
try_send safety s (some s') = some s'
try_send thread_safe s none = none
try_send thread_unsafe s none = some s
