-- ===== src/Gateway/Slots.antt =====
-- gateway/gateway.c: the listener, the semaphore `thread_slots`, and the threads of the connections, as
-- steps in any order.
use vajra_ai.Prelude.{◌≡◌, refl, ℕ, suc, ◌+◌, ◌≤◌, Bool, true, false, arith}

-- GATEWAY_MAX_THREADS
abbrev pub max_threads : ℕ
max_threads = 8

-- The value of the semaphore, the threads that run, whether the listener has taken a slot and not
-- passed it on, whether it has returned, and the flag `running`.
pub record Slots : Type 0 where
  pub free : ℕ
  pub workers : ℕ
  pub holds : Bool
  pub returned : Bool
  pub running : Bool

-- Behind sem_init() and the start of the listener.
abbrev pub started : Slots
started = record {
  free = max_threads;
  workers = 0;
  holds = false;
  returned = false;
  running = true;
}

-- The listener without its slot.
abbrev pub give_back : Slots → Slots
give_back s = record s { free = s.free + 1; holds = false }

pub data Step (s : Slots) : Slots → Type 0 where
  -- sem_wait() returns
  waited :
      (n : ℕ)
      → s.returned ≡ false
      → s.holds ≡ false
      → s.free ≡ suc n
      → Step s (record s { free = n; holds = true })
  -- the flag is tested at the head of the loop
  left :
      s.returned ≡ false
      → s.holds ≡ false
      → s.running ≡ false
      → Step s (record s { returned = true })
  -- the flag is tested behind sem_wait(), or behind an accept() that has failed
  stopped :
      s.returned ≡ false
      → s.holds ≡ true
      → s.running ≡ false
      → Step s (record (give_back s) { returned = true })
  -- accept(), malloc() or pthread_create() has failed, and the loop goes on
  refused : s.returned ≡ false → s.holds ≡ true → Step s (give_back s)
  -- a thread has been started, which gives the slot back
  spawned :
      s.returned ≡ false
      → s.holds ≡ true
      → Step s (record s { workers = s.workers + 1; holds = false })
  -- a thread is at its end
  finished : (n : ℕ) → s.workers ≡ suc n → Step s (record s { workers = n; free = s.free + 1 })
  -- gateway_destroy() clears the flag
  destroyed : Step s (record s { running = false })

pub data Steps (s : Slots) : Slots → Type 0 where
  here : Steps s s
  then_step : {t u : Slots} → Steps s t → Step t u → Steps s u

abbrev one_if : Bool → ℕ
one_if true = 1
one_if false = 0

-- No slot is lost, and a listener that has returned has none.
pub record IsValid (s : Slots) : Type 0 where
  pub all_there : s.free + s.workers + one_if s.holds ≡ max_threads
  pub returned_without : s.returned ≡ true → s.holds ≡ false

Step-IsValid : {s t : Slots} → Step s t → IsValid s → IsValid t
Step-IsValid (waited n r h f) v = record {
  all_there = ground (arith, v.all_there);
  returned_without = λ e. cc;
}
Step-IsValid (left r h e) v = record { all_there = v.all_there; returned_without = λ e'. h }
Step-IsValid (stopped r h e) v = record {
  all_there = ground (arith, v.all_there);
  returned_without = λ e'. refl;
}
Step-IsValid (refused r h) v = record {
  all_there = ground (arith, v.all_there);
  returned_without = λ e'. refl;
}
Step-IsValid (spawned r h) v = record {
  all_there = ground (arith, v.all_there);
  returned_without = λ e'. refl;
}
Step-IsValid (finished n w) v = record {
  all_there = omega (arith, v.all_there, w);
  returned_without = v.returned_without;
}
Step-IsValid destroyed v = record { all_there = v.all_there; returned_without = v.returned_without }

started-IsValid : IsValid started
started-IsValid = record { all_there = omega arith; returned_without = λ e. refl }

valid : {s : Slots} → Steps started s → IsValid s
valid here = started-IsValid
valid (then_step r st) = Step-IsValid st (valid r)

-- In every state that the gateway reaches, the free slots, the threads and the slot of the listener
-- are eight together, so at most eight connections are served at a time, and a listener that has
-- returned keeps no slot.
pub threads_bounded : {s : Slots} → Steps started s → IsValid s × (s.workers ≤ max_threads)
threads_bounded r = let v = valid r in (v, omega (arith, v.all_there))
