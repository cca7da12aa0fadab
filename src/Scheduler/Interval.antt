-- ===== src/Scheduler/Interval.antt =====
-- tools/scheduler/scheduler.c, `parse_interval`: the period of a task in seconds.
use vajra_ai.Prelude.{
  ℕ, zero, suc, ◌*◌, ◌^◌, ◌<◌, ◌≡◌, refl, ap, ◌∙◌, Bool, true, false, Option, none, some, [], ◌∷◌,
  ◌++◌, ltb, if◌then◌else◌, drop, lt→ltb,
}
use vajra_ai.Prelude.Int.{ℤ, pos, negsuc, scaled}
use vajra_ai.CString.{Bytes, codes, is_space, has_prefix, strstr, skip_space}
use vajra_ai.CString.Number.{digits_onto, scan_int, scan_int-decimal, int_result}
use vajra_ai.Memory.{Outcome, done, fault, signed_overflow, ◌>>=◌}

-- The conversion `%31s` behind its white space: at least one byte, at most `room`.
unfoldable pub scan_word : ℕ → Bytes → Bytes
unfolding is_space
scan_word zero s = []
scan_word (suc room) [] = []
scan_word (suc room) (c ∷ cs) = let rest = scan_word room cs in if is_space c then [] else c ∷ rest

unfoldable pub with_word : ℤ → Bytes → Option (ℤ × Bytes)
with_word n [] = none
with_word n (c ∷ cs) = some (n, c ∷ cs)

unfoldable pub scan_unit : Option (ℤ × Bytes) → Option (ℤ × Bytes)
unfolding with_word scan_word skip_space
scan_unit none = none
scan_unit (some (n, rest)) = with_word n (scan_word 31 (skip_space rest))

-- sscanf(spec, "every %d %31s", &n, unit) == 2
unfoldable pub scan_every : Bytes → Option (ℤ × Bytes)
unfolding scan_unit scan_int skip_space has_prefix
scan_every spec =
    if has_prefix spec (codes "every") then scan_unit (scan_int (drop 5 spec)) else none

abbrev contains : Bytes → Bytes → Bool
contains s p = elim (strstr s p) [ none ↦ false | some _ ↦ true ]

-- The seconds in the unit that the word names.
unfoldable pub unit_seconds : Bytes → Option ℕ
unfolding strstr
unit_seconds unit =
    if contains unit (codes "sec")
    then some 1
    else if contains unit (codes "min")
    then some 60
    else if contains unit (codes "hour")
    then some 3600
    else if contains unit (codes "day")
    then some 86400
    else none

-- The second format: just a number above 0.
unfoldable pub only_positive : ℤ → Outcome ℤ
only_positive (pos (suc n)) = done (pos (suc n))
only_positive _ = done (negsuc 0)

unfoldable pub plain_seconds : Bytes → Outcome ℤ
unfolding only_positive scan_int int_result
plain_seconds spec = elim (scan_int spec) [
  | none ↦ done (negsuc 0)
  | some (n, _) ↦ int_result n >>= only_positive
]

unfoldable pub in_seconds : ℤ → Option ℕ → Outcome ℤ → Outcome ℤ
unfolding int_result
in_seconds n none otherwise = int_result n >>= λ _. otherwise
in_seconds n (some seconds) otherwise = int_result n >>= λ m. int_result (scaled m seconds)

-- What follows the first sscanf.
unfoldable pub interval_from : Bytes → Option (ℤ × Bytes) → Outcome ℤ
unfolding unit_seconds plain_seconds in_seconds
interval_from spec none = plain_seconds spec
interval_from spec (some (n, unit)) = in_seconds n (unit_seconds unit) (plain_seconds spec)

unfoldable pub parse_interval : Bytes → Outcome ℤ
unfolding scan_every interval_from
parse_interval spec = interval_from spec (scan_every spec)

-- The units that the documentation of the tool names, as they are written in an interval.
pub data TimeUnit : Type 0 where
  seconds minutes hours days : TimeUnit

abbrev pub unit_text : TimeUnit → Bytes
unit_text seconds = codes "seconds"
unit_text minutes = codes "minutes"
unit_text hours = codes "hours"
unit_text days = codes "days"

abbrev pub length_of : TimeUnit → ℕ
length_of seconds = 1
length_of minutes = 60
length_of hours = 3600
length_of days = 86400

abbrev pub every_text : ℕ → TimeUnit → Bytes
every_text n u = codes "every " ++ digits_onto 9 n (b' ' ∷ unit_text u)

scan_unit-unit_text :
    (n : ℕ) (u : TimeUnit)
    → scan_unit (some (pos n, b' ' ∷ unit_text u)) ≡ some (pos n, unit_text u)
unfolding scan_unit scan_word with_word skip_space
scan_unit-unit_text n seconds = refl
scan_unit-unit_text n minutes = refl
scan_unit-unit_text n hours = refl
scan_unit-unit_text n days = refl

scan_every-every_text :
    (n : ℕ) (u : TimeUnit) → n < 2 ^ 31 → scan_every (every_text n u) ≡ some (pos n, unit_text u)
unfolding scan_every scan_int skip_space has_prefix
scan_every-every_text n u h =
    ap scan_unit (scan_int-decimal n (b' ' ∷ unit_text u) h) ∙ scan_unit-unit_text n u

unit_seconds-unit_text : (u : TimeUnit) → unit_seconds (unit_text u) ≡ some (length_of u)
unfolding unit_seconds strstr has_prefix
unit_seconds-unit_text seconds = refl
unit_seconds-unit_text minutes = refl
unit_seconds-unit_text hours = refl
unit_seconds-unit_text days = refl

-- An interval written as "every N seconds", "minutes", "hours" or "days", with N an int that is not
-- negative, is N times the seconds of the unit, if that fits an int; if it does not, the
-- multiplication leaves the range of an int, where C defines no result.
pub parse_interval-every_text :
    (n : ℕ) (u : TimeUnit)
    → n < 2 ^ 31
    → parse_interval (every_text n u) ≡ (
        if ltb (n * length_of u) (2 ^ 31)
        then done (pos (n * length_of u))
        else fault signed_overflow)
unfolding parse_interval interval_from in_seconds int_result
parse_interval-every_text n u h =
    ap (interval_from (every_text n u)) (scan_every-every_text n u h)
    ∙ rw (unit_seconds-unit_text u, lt→ltb n (2 ^ 31) h) refl
