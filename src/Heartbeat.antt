-- ===== src/Heartbeat.antt =====
-- heartbeat/heartbeat.c: the table of checks and one round of the thread. A check is a function on a
-- world, as is the notification.
pub mod Rounds
use vajra_ai.Prelude.{
  ℕ, zero, suc, Bool, true, false, Option, none, some, List, [], ◌∷◌, ◌++◌, leb, if◌then◌else◌,
  length,
}
use vajra_ai.Prelude.Int.{ℤ, pos, negsuc}
use vajra_ai.CString.{Bytes}

abbrev pub max_checks : ℕ
max_checks = 16

-- `heartbeat_check_t`, its function applied to its data.
pub record Check (W : Type 0) : Type 0 where
  pub name : Bytes
  pub fn : W → Option Bytes × W

-- `struct heartbeat`
pub record Heartbeat (W : Type 0) : Type 0 where
  pub interval_sec : ℤ
  pub checks : List (Check W)
  pub running : Bool
  pub notify : Option (Bytes → W → W)

abbrev seconds_or : ℤ → ℤ → ℤ
seconds_or (pos (suc n)) default = pos (suc n)
seconds_or _ default = default

module _ {W : Type 0} where
  unfoldable pub heartbeat_create : ℤ → Heartbeat W
  heartbeat_create interval_sec = record {
    interval_sec = seconds_or interval_sec (pos 60);
    checks = [];
    running = false;
    notify = none;
  }

  unfoldable pub heartbeat_add_check : Heartbeat W → Bytes → (W → Option Bytes × W) → Heartbeat W
  heartbeat_add_check hb name fn =
      if leb max_checks (length hb.checks)
      then hb
      else record hb { checks = hb.checks ++ (record { name = name; fn = fn }) ∷ [] }

  unfoldable pub heartbeat_set_notify : Heartbeat W → Option (Bytes → W → W) → Heartbeat W
  heartbeat_set_notify hb notify = record hb { notify = notify }

  -- The flag; the thread is started where it was not set.
  unfoldable pub heartbeat_start : Heartbeat W → Heartbeat W × Bool
  heartbeat_start hb = if hb.running then (hb, false) else (record hb { running = true }, true)

  unfoldable pub notified : Option (Bytes → W → W) → Option Bytes → W → W
  notified none msg w = w
  notified (some notify) none w = w
  notified (some notify) (some msg) w = notify msg w

  -- One check after the other, each behind the notification of the one before.
  unfoldable pub run_checks : Option (Bytes → W → W) → List (Check W) → W → W
  unfolding notified
  run_checks notify [] w = w
  run_checks notify (check ∷ checks) w =
      let (msg, w') = check.fn w in run_checks notify checks (notified notify msg w')

  -- The loop of the thread: the flag as it is read before and behind each sleep. The list ends with the
  -- process.
  unfoldable pub heartbeat_thread : Heartbeat W → List (Bool × Bool) → W → W
  unfolding run_checks
  heartbeat_thread hb [] w = w
  heartbeat_thread hb ((before, behind) ∷ flags) w =
      let more = heartbeat_thread hb flags (run_checks hb.notify hb.checks w) in
      if before then if behind then more else w else w
