-- ===== src/Scheduler/Control.antt =====
-- tools/scheduler/scheduler.c, `tool_schedule_control`: which task it changes, and how its actions
-- undo each other.
use vajra_ai.Prelude.{
  ℕ, suc, ◌<◌, ◌≡◌, refl, sym, ap, ◌∙◌, inl, inr, Bool, true, false, ◌&&◌, ◌||◌, none, some, List,
  [], ◌∷◌, map, arith, ◌==◌, if◌then◌else◌, Bool-cases,
}
use vajra_ai.Prelude.Int.{pos}
use vajra_ai.CString.{Bytes, codes, equal}
use vajra_ai.Scheduler.{Task, is_due, apply_action, is_target, cons_task, control_task}
use vajra_ai.Scheduler.Step.{IsNumbered}

-- Is there an active task of the id?
abbrev pub has_target : ℕ → List Task → Bool
has_target i [] = false
has_target i (t ∷ ts) = is_target (pos i) t || has_target i ts

abbrev pub on_target : ℕ → Bytes → Task → Task
on_target i action t = if is_target (pos i) t then apply_action action t else t

-- Behind the task of an id, every id is larger.
no_target : (i k : ℕ) (ts : List Task) → i < k → IsNumbered k ts → has_target i ts ≡ false
no_target i k [] h n = refl
no_target i k (t ∷ ts) h (e, p, x, n) =
    let other : is_target (pos i) t ≡ false = unfold is_target in ground arith in
    rw other (no_target i (suc k) ts (omega arith) n)

on_target-none :
    (i : ℕ) (action : Bytes) (ts : List Task)
    → has_target i ts ≡ false
    → map (on_target i action) ts ≡ ts
on_target-none i action [] h = refl
on_target-none i action (t ∷ ts) h = elim (Bool-cases (is_target (pos i) t)) [
  | inl e ↦ absurd (grind arith)
  | inr e ↦ rw e (ap (◌∷◌ t) (on_target-none i action ts (rw e at h)))
]

is_target-id : (i : ℕ) (t : Task) → is_target (pos i) t ≡ true → t.id ≡ i
unfolding is_target
is_target-id i t h = ground arith

cons_if :
    (t : Task) (b : Bool) (ts : List Task)
    → cons_task t (if b then some ts else none) ≡ (if b then some (t ∷ ts) else none)
unfolding cons_task
cons_if t true ts = refl
cons_if t false ts = refl

-- In a table whose tasks are numbered from `k`, the tool changes exactly the active task of the id,
-- and leaves every other task as it is; it finds nothing exactly if no active task has the id.
pub control_task-on_target :
    (i : ℕ) (action : Bytes) (k : ℕ) (ts : List Task)
    → IsNumbered k ts
    → control_task (pos i) action ts
      ≡ (if has_target i ts then some (map (on_target i action) ts) else none)
unfolding control_task
control_task-on_target i action k [] h = refl
control_task-on_target i action k (t ∷ ts) (e, p, x, h) = elim (Bool-cases (is_target (pos i) t)) [
  | inl hit ↦
      let rest = no_target i (suc k) ts (omega (arith, is_target-id i t hit)) h in
      rw (hit, control_task)
        (ap (λ (us : List Task). some (apply_action action t ∷ us))
          (sym (on_target-none i action ts rest)))
  | inr miss ↦
      rw (miss, control_task)
        (ap (cons_task t) (control_task-on_target i action (suc k) ts h)
          ∙ cons_if t (has_target i ts) (map (on_target i action) ts))
]

-- What is left of a successful call.
from_target :
    (i k : ℕ) (action : Bytes) (ts us : List Task)
    → IsNumbered k ts
    → control_task (pos i) action ts ≡ some us
    → us ≡ map (on_target i action) ts
from_target i k action ts us h e = elim (Bool-cases (has_target i ts)) [
  | inl hit ↦
      let found : control_task (pos i) action ts ≡ some (map (on_target i action) ts) =
        control_task-on_target i action k ts h ∙ rw hit refl in
      cc
  | inr miss ↦
      let lost : control_task (pos i) action ts ≡ none =
        control_task-on_target i action k ts h ∙ rw miss refl in
      absurd cc
]

delete_lem : (i : ℕ) (t : Task) → is_target (pos i) (on_target i (codes "delete") t) ≡ false
delete_lem i t = elim (Bool-cases (is_target (pos i) t)) [
  | inl e ↦ rw e (unfold apply_action equal is_target in ground arith)
  | inr e ↦ rw (e, e) refl
]

has_target-delete :
    (i : ℕ) (ts : List Task) → has_target i (map (on_target i (codes "delete")) ts) ≡ false
has_target-delete i [] = refl
has_target-delete i (t ∷ ts) = rw (delete_lem i t) (has_target-delete i ts)

not_found :
    (i : ℕ) (action : Bytes) (ts : List Task)
    → has_target i ts ≡ false
    → control_task (pos i) action ts ≡ none
unfolding control_task
not_found i action [] h = refl
not_found i action (t ∷ ts) h = elim (Bool-cases (is_target (pos i) t)) [
  | inl e ↦ absurd (grind arith)
  | inr e ↦ rw (e, control_task) (ap (cons_task t) (not_found i action ts (rw e at h)))
]

-- A task that is deleted is not found again, whatever the action.
pub control_task-delete :
    (i k : ℕ) (action : Bytes) (ts us : List Task)
    → IsNumbered k ts
    → control_task (pos i) (codes "delete") ts ≡ some us
    → control_task (pos i) action us ≡ none
control_task-delete i k action ts us h e =
    ap (control_task (pos i) action) (from_target i k (codes "delete") ts us h e)
    ∙ not_found i action _ (has_target-delete i ts)

-- Is a task of the id due?
abbrev pub has_due : ℕ → ℕ → List Task → Bool
has_due now i [] = false
has_due now i (t ∷ ts) = (t.id == i && is_due now t) || has_due now i ts

not_due : (now i : ℕ) (t : Task) → is_target (pos i) t ≡ false → (t.id == i && is_due now t) ≡ false
unfolding is_target is_due
not_due now i t e = ground arith

pause_lem :
    (now i : ℕ) (t : Task)
    → ((on_target i (codes "pause") t).id == i && is_due now (on_target i (codes "pause") t))
      ≡ false
pause_lem now i t = elim (Bool-cases (is_target (pos i) t)) [
  | inl e ↦ rw e (unfold apply_action equal is_due in ground arith)
  | inr e ↦ rw e (not_due now i t e)
]

has_due-pause :
    (now i : ℕ) (ts : List Task) → has_due now i (map (on_target i (codes "pause")) ts) ≡ false
has_due-pause now i [] = refl
has_due-pause now i (t ∷ ts) = rw (pause_lem now i t) (has_due-pause now i ts)

-- Behind a successful pause, no task of the id is due at any time.
pub control_task-pause :
    (now i k : ℕ) (ts us : List Task)
    → IsNumbered k ts
    → control_task (pos i) (codes "pause") ts ≡ some us
    → has_due now i us ≡ false
control_task-pause now i k ts us h e =
    ap (has_due now i) (from_target i k (codes "pause") ts us h e) ∙ has_due-pause now i ts
