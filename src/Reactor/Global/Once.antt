-- ===== src/Reactor/Global/Once.antt =====
-- src/sync.rs, `get_reactor`: whoever asks gets the same reactor, or panics.
use async_winit.Prelude.{
  ℕ, ◌≡◌, refl, ap, true, false, Option, none, some, List, [], ◌∷◌, ◌==◌, if◌then◌else◌, map, arith,
}
use async_winit.Reactor.Windows.{get, insert, remove}
use async_winit.Reactor.Global.{
  Made, make, Unsafe, get_or_init, get_or_insert, get_reactor_unsafe, Safe, get_reactor_safe,
}

-- What the threads of a list get that call `get_reactor` in this order.
abbrev pub ask_unsafe : List ℕ → Unsafe → List (Option ℕ)
ask_unsafe [] s = []
ask_unsafe (thread ∷ threads) s =
    (get_reactor_unsafe thread s).0 ∷ ask_unsafe threads (get_reactor_unsafe thread s).1

abbrev pub ask_safe : List ℕ → Safe → List (Option ℕ)
ask_safe [] s = []
ask_safe (thread ∷ threads) s = (get_reactor_safe s).0 ∷ ask_safe threads (get_reactor_safe s).1

abbrev pub nothing_made : Made
nothing_made = record { already_exists = false; count = 0 }

-- The statics once the thread `main` has the reactor 0.
abbrev owned : ℕ → Unsafe
owned main = record {
  reactor_thread_id = some main;
  reactor = (main, 0) ∷ [];
  made = record { already_exists = true; count = 1 };
}

get_reactor-owned :
    (main thread : ℕ)
    → get_reactor_unsafe thread (owned main) ≡ (if thread == main then some 0 else none, owned main)
unfolding get_reactor_unsafe get_or_init get_or_insert get
get_reactor-owned main thread = ground arith

ask-owned :
    (main : ℕ) (threads : List ℕ)
    → ask_unsafe threads (owned main)
      ≡ map (λ thread. if thread == main then some 0 else none) threads
ask-owned main [] = refl
ask-owned main (thread ∷ threads) =
    rw (get_reactor-owned main thread) (rw (ask-owned main threads) refl)

get_reactor-first :
    (main : ℕ)
    → get_reactor_unsafe main
        (record { reactor_thread_id = none; reactor = []; made = nothing_made })
      ≡ (some 0, owned main)
unfolding get_reactor_unsafe get_or_init get_or_insert get make insert remove
get_reactor-first main = ground arith

get_reactor_unsafe-once :
    (main : ℕ) (threads : List ℕ)
    → ask_unsafe
        (main ∷ threads)
        (record { reactor_thread_id = none; reactor = []; made = nothing_made })
      ≡ map (λ thread. if thread == main then some 0 else none) (main ∷ threads)
get_reactor_unsafe-once main threads =
    let here : (main == main) ≡ true = ground arith in
    rw (get_reactor-first main) (rw (ask-owned main threads, here, if◌then◌else◌) refl)

ask-made :
    (threads : List ℕ)
    → ask_safe threads
        (record { reactor = some 0; made = record { already_exists = true; count = 1 } })
      ≡ map (λ _. some 0) threads
unfolding get_reactor_safe
ask-made [] = refl
ask-made (thread ∷ threads) = ap (λ rest. some 0 ∷ rest) (ask-made threads)

get_reactor_safe-once :
    (threads : List ℕ)
    → ask_safe threads (record { reactor = none; made = nothing_made }) ≡ map (λ _. some 0) threads
unfolding get_reactor_safe make
get_reactor_safe-once [] = refl
get_reactor_safe-once (thread ∷ threads) = ap (λ rest. some 0 ∷ rest) (ask-made threads)

-- Where nothing was made yet, and threads ask for the reactor one after the other: in the thread-
-- unsafe build the first thread gets the one reactor each time, and every other one panics; in the
-- thread-safe build all get the one reactor.
pub get_reactor-once :
    (main : ℕ) (threads : List ℕ)
    → (ask_unsafe
          (main ∷ threads)
          (record { reactor_thread_id = none; reactor = []; made = nothing_made })
        ≡ map (λ thread. if thread == main then some 0 else none) (main ∷ threads))
      × (ask_safe threads (record { reactor = none; made = nothing_made })
          ≡ map (λ _. some 0) threads)
get_reactor-once main threads =
    (get_reactor_unsafe-once main threads, get_reactor_safe-once threads)
