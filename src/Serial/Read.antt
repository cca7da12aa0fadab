-- ===== src/Serial/Read.antt =====
-- tools/serial/serial_tool.c, `read_until`: what comes from the port up to the deadline is a list of
-- events, one for each turn of the loop.
use vajra_ai.Prelude.{
  ◌≡◌, refl, inl, inr, ℕ, suc, ◌+◌, ◌-◌, ◌≤◌, Bool, true, false, Option, none, some, List, [], ◌∷◌,
  ◌++◌, arith, ltb, if◌then◌else◌, length, take, length-append, length-take, get_elem?, Bool-cases,
  ltb-false→le,
}
use vajra_ai.CString.{Bytes, strstr, until_nul}
use vajra_ai.Serial.Ansi.{strip_ansi}

-- SERIAL_MAX_OUTPUT_BYTES and SERIAL_READ_CHUNK
abbrev pub max_output : ℕ
max_output = 262144

abbrev pub read_chunk : ℕ
read_chunk = 512

-- select() fails, by a signal or otherwise; it finds nothing; or there is something to read, of which
-- nothing may come.
pub data Event : Type 0 where
  interrupted broken quiet : Event
  came : Bytes → Event

abbrev occurs : Option (Bytes × Bytes) → Bool
occurs none = false
occurs (some _) = true

unfoldable pub is_match : Bytes → Bytes → Bool
unfolding strstr
is_match text [] = false
is_match text (c ∷ cs) = occurs (strstr text (c ∷ cs))

abbrev pub next_index : Option ℕ → Option ℕ
next_index none = none
next_index (some p) = some (suc p)

-- The index of the first pattern that is in the text.
unfoldable pub find_pattern : Bytes → List Bytes → Option ℕ
unfolding is_match
find_pattern text [] = none
find_pattern text (p ∷ ps) =
    let later = next_index (find_pattern text ps) in if is_match text p then some 0 else later

-- The stripped bytes, as far as the cap allows.
unfoldable pub append_capped : Bytes → Bytes → Bytes
append_capped sb stripped =
    if ltb (length sb) max_output
    then if ltb max_output (length sb + length stripped)
      then sb ++ take (max_output - length sb) stripped
      else sb ++ stripped
    else sb

-- The buffer, if something was read in the turn.
unfoldable pub received : Bytes → Bytes → Bytes
unfolding append_capped strip_ansi
received sb raw = append_capped sb (strip_ansi (take read_chunk raw))

-- The index that was found, or `none` at the deadline or a failure; the buffer; and the events behind.
unfoldable pub read_until : List Bytes → List Event → Bytes → Option ℕ × Bytes × List Event
unfolding find_pattern received until_nul
read_until patterns [] sb = (none, sb, [])
read_until patterns (interrupted ∷ events) sb = read_until patterns events sb
read_until patterns (broken ∷ events) sb = (none, sb, events)
read_until patterns (quiet ∷ events) sb = read_until patterns events sb
read_until patterns (came [] ∷ events) sb = read_until patterns events sb
read_until patterns (came (c ∷ cs) ∷ events) sb =
    elim (find_pattern (until_nul (received sb (c ∷ cs))) patterns) [
      | some p ↦ (some p, received sb (c ∷ cs), events)
      | none ↦ read_until patterns events (received sb (c ∷ cs))
    ]

append_capped-fits :
    (sb stripped : Bytes) → length sb ≤ max_output → length (append_capped sb stripped) ≤ max_output
unfolding append_capped
append_capped-fits sb stripped h = elim (Bool-cases (ltb (length sb) max_output)) [
  | inr full ↦ rw full h
  | inl room ↦ elim (Bool-cases (ltb max_output (length sb + length stripped))) [
    | inl over ↦
        rw (room, over)
          (omega (
            arith,
            h,
            length-append sb (take (max_output - length sb) stripped),
            length-take (max_output - length sb) stripped,
          ))
    | inr fits ↦
        rw (room, fits)
          (omega (
            arith,
            ltb-false→le max_output (length sb + length stripped) fits,
            length-append sb stripped,
          ))
  ]
]

-- The pattern at an index is there, and is in the text.
pub data IsFound (text : Bytes) (patterns : List Bytes) (p : ℕ) : Type 0 where
  found :
      (pattern : Bytes)
      → get_elem? patterns p ≡ some pattern
      → is_match text pattern ≡ true
      → IsFound text patterns p

pub data Agrees (text : Bytes) (patterns : List Bytes) : Option ℕ → Type 0 where
  nowhere : Agrees text patterns none
  at_index : {p : ℕ} → IsFound text patterns p → Agrees text patterns (some p)

next_index-Agrees :
    (text first : Bytes) (patterns : List Bytes) (r : Option ℕ)
    → Agrees text patterns r
    → Agrees text (first ∷ patterns) (next_index r)
next_index-Agrees text first patterns none nowhere = nowhere
next_index-Agrees text first patterns (some p) (at_index (found pattern e m)) =
    at_index (found pattern e m)

find_pattern-Agrees :
    (text : Bytes) (patterns : List Bytes) → Agrees text patterns (find_pattern text patterns)
unfolding find_pattern
find_pattern-Agrees text [] = nowhere
find_pattern-Agrees text (p ∷ ps) = elim (Bool-cases (is_match text p)) [
  | inl e ↦ rw e (at_index (found p refl e))
  | inr e ↦ rw e (next_index-Agrees text p ps _ (find_pattern-Agrees text ps))
]

-- What a read leaves: the buffer within the cap, and the pattern of the index in it.
pub record IsRead (patterns : List Bytes) (r : Option ℕ × Bytes × List Event) : Type 0 where
  pub fits : length r.1 ≤ max_output
  pub agrees : Agrees (until_nul r.1) patterns r.0

at_pattern :
    (patterns : List Bytes) (out : Bytes) (events : List Event)
    (again : Option ℕ × Bytes × List Event) (r : Option ℕ)
    → length out ≤ max_output
    → Agrees (until_nul out) patterns r
    → IsRead patterns again
    → IsRead patterns (elim r [ some p ↦ (some p, out, events) | none ↦ again ])
at_pattern patterns out events again none h a k = k
at_pattern patterns out events again (some p) h a k = record { fits = h; agrees = a }

-- However the bytes come, the buffer keeps within 256 KB, and where an index is returned, the pattern
-- of that index is not empty and occurs in the buffer.
pub read_until-IsRead :
    (patterns : List Bytes) (events : List Event) (sb : Bytes)
    → length sb ≤ max_output
    → IsRead patterns (read_until patterns events sb)
unfolding read_until received
read_until-IsRead patterns [] sb h = record { fits = h; agrees = nowhere }
read_until-IsRead patterns (interrupted ∷ events) sb h = read_until-IsRead patterns events sb h
read_until-IsRead patterns (broken ∷ events) sb h = record { fits = h; agrees = nowhere }
read_until-IsRead patterns (quiet ∷ events) sb h = read_until-IsRead patterns events sb h
read_until-IsRead patterns (came [] ∷ events) sb h = read_until-IsRead patterns events sb h
read_until-IsRead patterns (came (c ∷ cs) ∷ events) sb h =
    let out : Bytes = append_capped sb (strip_ansi (take read_chunk (c ∷ cs))) in
    let fits : length out ≤ max_output = append_capped-fits sb _ h in
    at_pattern patterns out events (read_until patterns events out) _ fits
      (find_pattern-Agrees (until_nul out) patterns) (read_until-IsRead patterns events out fits)
