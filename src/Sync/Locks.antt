-- ===== src/Sync/Locks.antt =====
-- src/sync.rs: the locks and once-cells of both builds. A lock is held by one guard at a time; a guard
-- that is dropped while its thread panics poisons a `std::sync::Mutex`.
use async_winit.Prelude.{
  ◌≡◌, refl, Bool, true, false, Option, none, some, if◌then◌else◌, Result, ok, err, map_option,
  ◌||◌,
}

-- The value, and whether it is borrowed. `RefCell::borrow_mut` panics, `none`, where it is.
pub record RefCell {ℓ} (T : Type ℓ) : Type ℓ where
  pub value : T
  pub borrowed : Bool

-- The value, whether a guard has the lock, and whether one was dropped by a panic.
pub record StdMutex {ℓ} (T : Type ℓ) : Type ℓ where
  pub value : T
  pub locked : Bool
  pub poisoned : Bool

module _ {ℓ} {T : Type ℓ} where
  unfoldable pub new_unsafe : T → RefCell T
  new_unsafe v = record { value = v; borrowed = false }

  -- `Ok(self.borrow_mut())`: the guard's value.
  unfoldable pub lock_unsafe : RefCell T → Option (T × RefCell T)
  lock_unsafe c = if c.borrowed then none else some (c.value, record c { borrowed = true })

  -- The drop of the guard, behind what was written through it.
  unfoldable pub unlock_unsafe : T → RefCell T → RefCell T
  unlock_unsafe v c = record c { value = v; borrowed = false }

  unfoldable pub new_safe : T → StdMutex T
  new_safe v = record { value = v; locked = false; poisoned = false }

  -- `std::sync::Mutex::lock` once the lock is free: the guard, also in the error of a poisoned lock.
  unfoldable pub std_lock : StdMutex T → Result (T × StdMutex T) (T × StdMutex T)
  std_lock m =
      if m.poisoned
      then err (m.value, record m { locked = true })
      else ok (m.value, record m { locked = true })

  -- `Ok(self.lock().unwrap_or_else(|e| e.into_inner()))`. `none` waits for the guard that has it.
  unfoldable pub lock_safe : StdMutex T → Option (T × StdMutex T)
  unfolding std_lock
  lock_safe m =
      if m.locked then none else some (elim (std_lock m) [ ok guard ↦ guard | err guard ↦ guard ])

  unfoldable pub unlock_safe : Bool → T → StdMutex T → StdMutex T
  unlock_safe panics v m = record m { value = v; locked = false; poisoned = m.poisoned || panics }

  -- `OnceLock`, of both builds: what the cell keeps is what was set first.
  unfoldable pub get : Option T → Option T
  get cell = cell

  unfoldable pub set : Option T → T → Result (Unit {ℓ}) T × Option T
  set none v = (ok tt, some v)
  set (some old) v = (err v, some old)

  unfoldable pub get_or_init : Option T → (Unit {ℓ} → T) → T × Option T
  get_or_init none f = (f tt, some (f tt))
  get_or_init (some old) f = (old, some old)

  -- What was set, or made, first is what the cell keeps and every later call gets.
  set-get :
      (cell : Option T) (v : T) (f : Unit {ℓ} → T)
      → get (set cell v).1 ≡ some (get_or_init (set cell v).1 f).0
  unfolding get set get_or_init
  set-get none v f = refl
  set-get (some old) v f = refl

  -- A section of code under the lock, which it leaves with a new value.
  unfoldable pub with_unsafe : (T → T) → RefCell T → Option (RefCell T)
  unfolding lock_unsafe unlock_unsafe
  with_unsafe f c =
      map_option (λ (g : T × RefCell T). unlock_unsafe (f (g.0)) (g.1)) (lock_unsafe c)

  unfoldable pub with_safe : Bool → (T → T) → StdMutex T → Option (StdMutex T)
  unfolding lock_safe unlock_safe
  with_safe panics f m =
      map_option (λ (g : T × StdMutex T). unlock_safe panics (f (g.0)) (g.1)) (lock_safe m)

  -- Where the lock is free, both builds do the same, also where a section panicked before.
  with-agrees :
      (panics poisoned : Bool) (f : T → T) (v : T)
      → map_option
          (λ (m : StdMutex T). m.value)
          (with_safe panics f (record { value = v; locked = false; poisoned = poisoned }))
        ≡ map_option (λ (c : RefCell T). c.value) (with_unsafe f (new_unsafe v))
  unfolding with_safe lock_safe std_lock unlock_safe with_unsafe lock_unsafe unlock_unsafe
      new_unsafe
  with-agrees panics true f v = refl
  with-agrees panics false f v = refl
