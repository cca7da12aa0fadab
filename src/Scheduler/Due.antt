-- ===== src/Scheduler/Due.antt =====
-- tools/scheduler/scheduler.c: which commands a round of the thread starts.
use vajra_ai.Prelude.{
  ℕ, ◌+◌, ◌≡◌, refl, ap, ◌∙◌, inl, inr, Bool, true, not, ◌&&◌, List, [], ◌∷◌, map, arith, leb,
  if◌then◌else◌, Bool-cases,
}
use vajra_ai.Scheduler.{Task, Scheduler, is_due, restarted, run_due, scheduler_tick}

-- The elements that pass a test, in order.
abbrev pub select {ℓ} : {A : Type ℓ} → (A → Bool) → List A → List A
select p [] = []
select p (x ∷ xs) = if p x then x ∷ select p xs else select p xs

run_due-started :
    (now : ℕ) (ts : List Task)
    → (run_due now ts).1 ≡ map (λ (t : Task). t.command) (select (is_due now) ts)
unfolding run_due
run_due-started now [] = refl
run_due-started now (t ∷ ts) = elim (Bool-cases (is_due now t)) [
  | inl e ↦ rw (e, run_due) (ap (◌∷◌ t.command) (run_due-started now ts))
  | inr e ↦ rw (e, run_due) (run_due-started now ts)
]

after : ℕ → Task → Task
unfolding is_due
after now t = if is_due now t then restarted now t else t

run_due-kept : (now : ℕ) (ts : List Task) → (run_due now ts).0 ≡ map (after now) ts
unfolding run_due after
run_due-kept now [] = refl
run_due-kept now (t ∷ ts) = elim (Bool-cases (is_due now t)) [
  | inl e ↦ rw (e, run_due) (ap (◌∷◌ (restarted now t)) (run_due-kept now ts))
  | inr e ↦ rw (e, run_due) (ap (◌∷◌ t) (run_due-kept now ts))
]

-- A round of the thread starts exactly the commands of the tasks that are active, not paused, and
-- whose interval has passed since their last run, in the order of the table. It sets the time of
-- the last run of those to now, changes no other task, and keeps the next id.
pub scheduler_tick-due :
    (now : ℕ) (s : Scheduler)
    → ((scheduler_tick now s).1 ≡ map (λ (t : Task). t.command) (select (is_due now) s.tasks))
      × ((scheduler_tick now s).0 ≡ record s {
        tasks = map (λ (t : Task). if is_due now t then restarted now t else t) s.tasks;
      })
unfolding scheduler_tick after
scheduler_tick-due now s = (
  run_due-started now s.tasks,
  ap (λ (ts : List Task). record s { tasks = ts }) (run_due-kept now s.tasks),
)

-- The test of a later round, on a task as an earlier one found it.
abbrev pub due_again : ℕ → ℕ → Task → Bool
due_again now later t = if is_due now t then leb (now + t.interval_sec) later else is_due later t

and-split : (a b c : Bool) → (a && b) ≡ true → (a && c) ≡ c
and-split a b c h = ground arith

is_due-restarted :
    (now later : ℕ) (t : Task)
    → is_due now t ≡ true
    → is_due later (restarted now t) ≡ leb (now + t.interval_sec) later
unfolding is_due
is_due-restarted now later t h =
    and-split (t.active && not t.paused) (leb (t.last_run + t.interval_sec) now)
      (leb (now + t.interval_sec) later) h

is_due-after : (now later : ℕ) (t : Task) → is_due later (after now t) ≡ due_again now later t
unfolding after
is_due-after now later t = elim (Bool-cases (is_due now t)) [
  | inl e ↦ rw e (is_due-restarted now later t e)
  | inr e ↦ rw e refl
]

command-after : (now : ℕ) (t : Task) → (after now t).command ≡ t.command
unfolding after
command-after now t = elim (Bool-cases (is_due now t)) [ inl e ↦ rw e refl | inr e ↦ rw e refl ]

select-after :
    (now later : ℕ) (ts : List Task)
    → map (λ (t : Task). t.command) (select (is_due later) (map (after now) ts))
      ≡ map (λ (t : Task). t.command) (select (due_again now later) ts)
select-after now later [] = refl
select-after now later (t ∷ ts) = elim (Bool-cases (due_again now later t)) [
  | inl e ↦
      rw (is_due-after now later t, e, command-after now t)
        (ap (◌∷◌ t.command) (select-after now later ts))
  | inr e ↦ rw (is_due-after now later t, e) (select-after now later ts)
]

-- A later round starts again what an earlier round started only if the whole interval of the task
-- has passed since the earlier one; of the other tasks it starts those that are due by then.
pub scheduler_tick-again :
    (now later : ℕ) (s : Scheduler)
    → (scheduler_tick later (scheduler_tick now s).0).1
      ≡ map (λ (t : Task). t.command) (select (due_again now later) s.tasks)
unfolding scheduler_tick
scheduler_tick-again now later s =
    ap (λ (ts : List Task). (run_due later ts).1) (run_due-kept now s.tasks)
    ∙ run_due-started later (map (after now) s.tasks)
    ∙ select-after now later s.tasks
