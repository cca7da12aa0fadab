-- ===== src/Config/Table.antt =====
-- `config_get` against `config_set`.
use mathlib.Core.Path.{ap₂}
use vajra_ai.Prelude.{
  leb→le, le→ltb-false, ◌≤◌, ◌<◌, ◌≡◌, inl, inr, refl, sym, ap, ◌∙◌, Bool, true, false, ◌&&◌,
  Option, none, some, [], ◌∷◌, ◌++◌, arith, ltb, leb, leb-false→lt, lt→ltb, if◌then◌else◌, length,
  length-append, take-eq_of_le, Bool-cases,
}
use vajra_ai.CString.{Bytes, equal}
use vajra_ai.CString.Laws.{equal_iff, equal_refl}
use vajra_ai.Config.{
  max_entries, max_name, Entry, Config, is_entry, config_get, cons_update, update_entry, new_entry,
  or_append, config_set,
}

-- What an update does to every lookup, and that without one there was no such entry.
abbrev Updates : Config → Bytes → Bytes → Bytes → Option Config → Type 0
Updates cfg s k v none = (d : Option Bytes) → config_get cfg s k d ≡ d
Updates cfg s k v (some cfg') =
    ((s' k' : Bytes) (d : Option Bytes)
      → config_get cfg' s' k' d
        ≡ (if equal s s' && equal k k' then some v else config_get cfg s' k' d))
    × (length cfg' ≡ length cfg)

both_true : (a b : Bool) → (a && b) ≡ true → (a ≡ true) × (b ≡ true)
both_true a b h = ground arith

-- One entry has one section and one key.
is_entry-same :
    (e : Entry) (s k s' k' : Bytes)
    → is_entry s' k' e ≡ true
    → (equal s s' && equal k k') ≡ true
    → is_entry s k e ≡ true
is_entry-same e s k s' k' h same =
    let (a, b) = both_true _ _ h in
    let (c, d) = both_true _ _ same in
    let es : e.section ≡ s = (equal_iff e.section s').0 a ∙ sym ((equal_iff s s').0 c) in
    let ek : e.key ≡ k = (equal_iff e.key k').0 b ∙ sym ((equal_iff k k').0 d) in
    ap (λ (t : Bytes). equal t s && equal e.key k) es
    ∙ ap (λ (t : Bytes). equal s s && equal t k) ek
    ∙ ap₂ (λ (a b : Bool). a && b) (equal_refl s) (equal_refl k)

Updates-cons :
    (e : Entry) (es : Config) (s k v : Bytes) (o : Option Config)
    → is_entry s k e ≡ false
    → Updates es s k v o
    → Updates (e ∷ es) s k v (cons_update e o)
unfolding cons_update config_get
Updates-cons e es s k v none other u = λ d. rw other (u d)
Updates-cons e es s k v (some es') other u = (
  (λ s' k' d. elim (Bool-cases (is_entry s' k' e)) [
    | inr miss ↦ rw miss (u.0 s' k' d)
    | inl hit ↦ elim (Bool-cases (equal s s' && equal k k')) [
      | inl same ↦ cc (is_entry-same e s k s' k' hit same, other)
      | inr differs ↦ rw (hit, differs) refl
    ]
  ]),
  omega (arith, u.1),
)

by_test :
    (b : Bool) (v w x : Option Bytes) → (if b then v else x) ≡ (if b then v else if b then w else x)
by_test true v w x = refl
by_test false v w x = refl

entry-value :
    (e : Entry) (es : Config) (s k v s' k' : Bytes) (d : Option Bytes)
    → is_entry s k e ≡ true
    → config_get (record e { value = v } ∷ es) s' k' d
      ≡ (if equal s s' && equal k k' then some v else config_get (e ∷ es) s' k' d)
unfolding config_get
entry-value e es s k v s' k' d hit =
    let (a, b) = both_true _ _ hit in
    rw ((equal_iff e.section s).0 a) (
      rw ((equal_iff e.key k).0 b)
        (by_test (equal s s' && equal k k') (some v) (some e.value) (config_get es s' k' d)))

Updates-update_entry : (cfg : Config) (s k v : Bytes) → Updates cfg s k v (update_entry cfg s k v)
unfolding update_entry
Updates-update_entry [] s k v = λ d. unfold config_get in refl
Updates-update_entry (e ∷ es) s k v = elim (Bool-cases (is_entry s k e)) [
  | inl hit ↦ rw hit ((λ s' k' d. entry-value e es s k v s' k' d hit), refl)
  | inr miss ↦ rw miss (Updates-cons e es s k v _ miss (Updates-update_entry es s k v))
]

config_get-append :
    (cfg : Config) (e : Entry) (s k : Bytes) (d : Option Bytes)
    → config_get (cfg ++ e ∷ []) s k d
      ≡ config_get cfg s k (if is_entry s k e then some e.value else d)
unfolding config_get
config_get-append [] e s k d = refl
config_get-append (x ∷ cfg) e s k d = ground (arith, config_get-append cfg e s k d)

new_get :
    (cfg : Config) (s k v s' k' : Bytes) (d : Option Bytes)
    → length s ≤ max_name
    → length k ≤ max_name
    → ((d : Option Bytes) → config_get cfg s k d ≡ d)
    → config_get cfg s' k' (if is_entry s' k' (new_entry s k v) then some v else d)
      ≡ (if equal s s' && equal k k' then some v else config_get cfg s' k' d)
unfolding new_entry
new_get cfg s k v s' k' d hs hk absent =
    rw (take-eq_of_le max_name s hs, take-eq_of_le max_name k hk)
      (elim (Bool-cases (equal s s' && equal k k')) [
        | inr differs ↦ rw differs refl
        | inl same ↦
            let (a, b) = both_true _ _ same in
            rw same (
              ap₂ (λ (x y : Bytes). config_get cfg x y (some v)) (sym ((equal_iff s s').0 a))
                (sym ((equal_iff k k').0 b))
              ∙ absent (some v))
      ])

or_append-get :
    (cfg : Config) (s k v : Bytes) (o : Option Config)
    → length s ≤ max_name
    → length k ≤ max_name
    → Updates cfg s k v o
    → (s' k' : Bytes) (d : Option Bytes)
    → config_get (or_append cfg (new_entry s k v) o) s' k' d
      ≡ (if equal s s' && equal k k' then some v else config_get cfg s' k' d)
unfolding or_append new_entry
or_append-get cfg s k v (some cfg') hs hk u s' k' d = u.0 s' k' d
or_append-get cfg s k v none hs hk u s' k' d =
    config_get-append cfg (new_entry s k v) s' k' d ∙ new_get cfg s k v s' k' d hs hk u

length-or_append :
    (cfg : Config) (s k v : Bytes) (o : Option Config)
    → length cfg < max_entries
    → Updates cfg s k v o
    → length (or_append cfg (new_entry s k v) o) ≤ max_entries
unfolding or_append new_entry
length-or_append cfg s k v none h u = omega (arith, length-append cfg (new_entry s k v ∷ []))
length-or_append cfg s k v (some cfg') h u = omega (arith, u.1)

-- `config_get` returns what `config_set` stored for the section and the key, and what it returned
-- before for any other, unless all 256 entries are in use: then `config_set` changes nothing, not
-- even the value of a key that is there. Section and key are at most 127 bytes long.
pub config_get-config_set :
    (cfg : Config) (s k v s' k' : Bytes) (d : Option Bytes)
    → length s ≤ max_name
    → length k ≤ max_name
    → config_get (config_set cfg s k v) s' k' d ≡ (
        if ltb (length cfg) max_entries && (equal s s' && equal k k')
        then some v
        else config_get cfg s' k' d)
unfolding config_set
config_get-config_set cfg s k v s' k' d hs hk = elim (Bool-cases (leb max_entries (length cfg))) [
  | inl full ↦ rw (full, le→ltb-false max_entries (length cfg) (leb→le _ _ full)) refl
  | inr room ↦
      rw (room, lt→ltb (length cfg) max_entries (leb-false→lt _ _ room))
        (or_append-get cfg s k v (update_entry cfg s k v) hs hk (Updates-update_entry cfg s k v) s'
          k' d)
]

-- Setting never overruns the array.
pub length-config_set :
    (cfg : Config) (s k v : Bytes)
    → length cfg ≤ max_entries
    → length (config_set cfg s k v) ≤ max_entries
unfolding config_set
length-config_set cfg s k v h = elim (Bool-cases (leb max_entries (length cfg))) [
  | inl full ↦ rw full h
  | inr room ↦
      rw room
        (length-or_append cfg s k v _ (leb-false→lt _ _ room) (Updates-update_entry cfg s k v))
]
