-- ===== src/Heartbeat/Rounds.antt =====
-- heartbeat/heartbeat.c: which checks a round runs.
use mathlib.Core.Path.{subst}
use vajra_ai.Prelude.{
  ◌≡◌, refl, sym, ap, ◌∙◌, inl, inr, ◌≤◌, Option, none, some, List, [], ◌∷◌, ◌++◌, arith, leb,
  length, take, length-append, take-eq_of_le, take-append_left, Bool-cases, leb→le, leb-false→lt,
  append_assoc, append-nil,
}
use vajra_ai.Prelude.Int.{ℤ}
use vajra_ai.CString.{Bytes}
use vajra_ai.Heartbeat.{
  max_checks, Check, Heartbeat, heartbeat_create, heartbeat_add_check, notified, run_checks,
}

module _ {W : Type 0} where
  -- Any checks, added in their order.
  unfoldable pub add_checks : Heartbeat W → List (Check W) → Heartbeat W
  unfolding heartbeat_add_check
  add_checks hb [] = hb
  add_checks hb (c ∷ cs) = add_checks (heartbeat_add_check hb c.name c.fn) cs

  checks-add_checks :
      (hb : Heartbeat W) (cs : List (Check W))
      → length hb.checks ≤ max_checks
      → (add_checks hb cs).checks ≡ take max_checks (hb.checks ++ cs)
  unfolding add_checks heartbeat_add_check
  checks-add_checks hb [] h =
      sym (ap (take max_checks) (append-nil hb.checks) ∙ take-eq_of_le max_checks hb.checks h)
  checks-add_checks hb (c ∷ cs) h = elim (Bool-cases (leb max_checks (length hb.checks))) [
    | inl full ↦
        let long = leb→le max_checks (length hb.checks) full in
        rw (full, add_checks)
          (checks-add_checks hb cs h
            ∙ take-append_left max_checks hb.checks cs long
            ∙ sym (take-append_left max_checks hb.checks (c ∷ cs) long))
    | inr room ↦
        rw (room, add_checks)
          (checks-add_checks (record hb { checks = hb.checks ++ c ∷ [] }) cs
              (omega (
                arith,
                length-append hb.checks (c ∷ []),
                leb-false→lt max_checks (length hb.checks) room,
              ))
            ∙ ap (take max_checks) (append_assoc hb.checks (c ∷ []) cs))
  ]

  -- The message of a check, passed on where there is one and a notification is set.
  abbrev pub passed_on : Option (Bytes → W → W) → Option Bytes → W → W
  passed_on (some notify) (some msg) w = notify msg w
  passed_on _ _ w = w

  -- A round: each check is called on what the one before has left, once its message is passed on.
  pub data RoundOf (notify : Option (Bytes → W → W)) : List (Check W) → W → W → Type 0 where
    ended : {w : W} → RoundOf notify [] w w
    called :
        {check : Check W} {checks : List (Check W)} {w w' left : W} {msg : Option Bytes}
        → check.fn w ≡ (msg, w')
        → RoundOf notify checks (passed_on notify msg w') left
        → RoundOf notify (check ∷ checks) w left

  passed_on_lem :
      (notify : Option (Bytes → W → W)) (msg : Option Bytes) (w : W)
      → notified notify msg w ≡ passed_on notify msg w
  unfolding notified
  passed_on_lem none none w = refl
  passed_on_lem none (some msg) w = refl
  passed_on_lem (some notify) none w = refl
  passed_on_lem (some notify) (some msg) w = refl

  run_checks-RoundOf :
      (notify : Option (Bytes → W → W)) (checks : List (Check W)) (w : W)
      → RoundOf notify checks w (run_checks notify checks w)
  unfolding run_checks
  run_checks-RoundOf notify [] w = ended
  run_checks-RoundOf notify (check ∷ checks) w = called refl (
      subst
        (λ (v : W).
          RoundOf notify checks v
            (run_checks notify checks (notified notify (check.fn w).0 (check.fn w).1)))
        (passed_on_lem notify (check.fn w).0 (check.fn w).1)
        (run_checks-RoundOf notify checks (notified notify (check.fn w).0 (check.fn w).1)))

  -- Of any checks that are added to a new heartbeat, a round calls the first sixteen, in their order,
  -- each on what the one before and its notification have left, and passes over the rest without a
  -- word.
  pub run_checks-add_checks :
      (interval_sec : ℤ) (cs : List (Check W)) (notify : Option (Bytes → W → W)) (w : W)
      → RoundOf notify
          (take max_checks cs)
          w
          (run_checks notify (add_checks (heartbeat_create interval_sec) cs).checks w)
  unfolding heartbeat_create
  run_checks-add_checks interval_sec cs notify w =
      subst
        (λ (ks : List (Check W)).
          RoundOf notify ks w
            (run_checks notify (add_checks (heartbeat_create interval_sec) cs).checks w))
        (checks-add_checks (heartbeat_create interval_sec) cs (omega arith))
        (run_checks-RoundOf notify (add_checks (heartbeat_create interval_sec) cs).checks w)
