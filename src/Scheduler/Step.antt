-- ===== src/Scheduler/Step.antt =====
-- tools/scheduler/scheduler.c: the steps that the tools and the thread take, one at a time under
-- the mutex, and what they keep.
use vajra_ai.Prelude.{
  ℕ, suc, ◌+◌, ◌≤◌, ◌<◌, ◌≡◌, refl, sym, ap, ◌∙◌, inl, inr, Bool, true, false, not, ◌&&◌, ◌||◌,
  Option, none, some, List, [], ◌∷◌, ◌++◌, arith, length, length-append, Bool-cases,
}
use vajra_ai.Prelude.Int.{ℤ}
use vajra_ai.CString.{Bytes, codes, equal}
use vajra_ai.Scheduler.{
  max_tasks, Task, Scheduler, is_due, run_due, scheduler_tick, new_task, add_task, apply_action,
  is_target, cons_task, control_task,
}

abbrev pub is_some : Option Bytes → Bool
is_some none = false
is_some (some _) = true

-- An active task has its name and its command.
abbrev pub has_texts : Task → Bool
has_texts t = not t.active || (is_some t.name && is_some t.command)

-- The task at position `i` of the table has the id `i`, counted from `k`.
abbrev pub IsNumbered : ℕ → List Task → Type 0
IsNumbered k [] = Unit {0}
IsNumbered k (t ∷ ts) =
    (t.id ≡ k) × (0 < t.interval_sec) × (has_texts t ≡ true) × IsNumbered (suc k) ts

pub record IsValid (s : Scheduler) : Type 0 where
  pub numbered : IsNumbered 1 s.tasks
  pub next : s.next_id ≡ suc (length s.tasks)
  pub bounded : length s.tasks ≤ max_tasks

IsNumbered-append :
    (k : ℕ) (ts : List Task) (t : Task)
    → IsNumbered k ts
    → t.id ≡ k + length ts
    → 0 < t.interval_sec
    → has_texts t ≡ true
    → IsNumbered k (ts ++ t ∷ [])
IsNumbered-append k [] t h e p texts = (omega arith, p, texts, tt)
IsNumbered-append k (u ∷ ts) t (i, q, x, h) e p texts =
    (i, q, x, IsNumbered-append (suc k) ts t h (omega arith) p texts)

-- What a step does to the table: it keeps the numbers and the length.
abbrev pub Keeps : ℕ → List Task → List Task → Type 0
Keeps k ts us = IsNumbered k us × (length us ≡ length ts)

pub run_due-Keeps : (now k : ℕ) (ts : List Task) → IsNumbered k ts → Keeps k ts (run_due now ts).0
unfolding run_due
run_due-Keeps now k [] h = (tt, refl)
run_due-Keeps now k (t ∷ ts) (i, p, x, h) =
    let (numbered, same) = run_due-Keeps now (suc k) ts h in
    elim (Bool-cases (is_due now t)) [
      | inl e ↦ rw (e, run_due) ((i, p, x, numbered), ap suc same)
      | inr e ↦ rw (e, run_due) ((i, p, x, numbered), ap suc same)
    ]

apply_action-Keeps :
    (action : Bytes) (t : Task)
    → has_texts t ≡ true
    → ((apply_action action t).id ≡ t.id)
      × ((apply_action action t).interval_sec ≡ t.interval_sec)
      × (has_texts (apply_action action t) ≡ true)
unfolding apply_action
apply_action-Keeps action t h = elim (Bool-cases (equal action (codes "pause"))) [
  | inl e ↦ rw e (refl, refl, h)
  | inr e ↦ elim (Bool-cases (equal action (codes "resume"))) [
    | inl f ↦ rw (e, f) (refl, refl, h)
    | inr f ↦ elim (Bool-cases (equal action (codes "delete"))) [
      | inl g ↦ rw (e, f, g) (refl, refl, refl)
      | inr g ↦ rw (e, f, g) (refl, refl, h)
    ]
  ]
]

abbrev pub KeepsOption : ℕ → List Task → Option (List Task) → Type 0
KeepsOption k ts none = Unit {0}
KeepsOption k ts (some us) = Keeps k ts us

cons_task-Keeps :
    (k : ℕ) (t : Task) (ts : List Task) (o : Option (List Task))
    → t.id ≡ k
    → 0 < t.interval_sec
    → has_texts t ≡ true
    → KeepsOption (suc k) ts o
    → KeepsOption k (t ∷ ts) (cons_task t o)
unfolding cons_task
cons_task-Keeps k t ts none i p x h = tt
cons_task-Keeps k t ts (some us) i p x (h, e) = ((i, p, x, h), ap suc e)

pub control_task-Keeps :
    (task_id : ℤ) (action : Bytes) (k : ℕ) (ts : List Task)
    → IsNumbered k ts
    → KeepsOption k ts (control_task task_id action ts)
unfolding control_task
control_task-Keeps task_id action k [] h = tt
control_task-Keeps task_id action k (t ∷ ts) (i, p, x, h) =
    elim (Bool-cases (is_target task_id t)) [
      | inl e ↦
          let (same, time, texts) = apply_action-Keeps action t x in
          rw (e, control_task) ((same ∙ i, rw time p, texts, h), refl)
      | inr e ↦
          rw (e, control_task)
            (cons_task-Keeps k t ts _ i p x (control_task-Keeps task_id action (suc k) ts h))
    ]

pub IsValid-tick : (now : ℕ) (s : Scheduler) → IsValid s → IsValid (scheduler_tick now s).0
unfolding scheduler_tick
IsValid-tick now s v =
    let (numbered, same) = run_due-Keeps now 1 s.tasks v.numbered in
    record { numbered = numbered; next = v.next ∙ ap suc (sym same); bounded = rw same v.bounded }

pub IsValid-add_task :
    (now : ℕ) (name command : Bytes) (n : ℕ) (s : Scheduler)
    → length s.tasks < max_tasks
    → IsValid s
    → IsValid (add_task now name command (suc n) s)
unfolding add_task
IsValid-add_task now name command n s room v = record {
  numbered = IsNumbered-append 1 s.tasks _ v.numbered (v.next ∙ omega arith) (omega arith) refl;
  next =
      omega
        (arith, v.next, length-append s.tasks (new_task s.next_id now name command (suc n) ∷ []));
  bounded = omega (arith, length-append s.tasks (new_task s.next_id now name command (suc n) ∷ []));
}
