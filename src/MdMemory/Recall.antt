-- ===== src/MdMemory/Recall.antt =====
-- memory_recall of memory/md_memory.c: what the loop does at each kind of line.
use vajra_ai.Prelude.{
  if◌then◌else◌, ◌&&◌, ◌≡◌, ◌≢◌, refl, ap, ◌∙◌, inl, inr, ℕ, ◌+◌, ◌≤◌, ◌<◌, Bool, true, false,
  Option, none, some, List, [], ◌∷◌, ◌++◌, arith, length, take, Bool-cases, append_assoc,
  take-eq_of_le, length-append, lt→ltb,
}
use vajra_ai.CString.{
  Bytes, codes, equal, has_prefix, strchr, is_space, skip_space, strip_cons, strip_end,
}
use vajra_ai.CString.Laws.{equal_refl, equal_iff}
use vajra_ai.Memory.{Outcome, done, ◌>>=◌}
use vajra_ai.Types.{str_trim, trim_tail}
use vajra_ai.Types.Trim.{StartsTight, EndsTight, str_trim-tight}
use vajra_ai.MdMemory.{
  line_buffer, is_heading, is_bullet, bullet_parts, fitting_key, existing_key, is_key_line,
  recall_heading, recall_bullet, or_rest, recall_lines,
}
use vajra_ai.MdMemory.Lines.{Lacks, line_of, strchr-append, Lacks-append}

-- A key and a value that a bullet can hold: one line, a key without a colon, neither with white
-- space at its ends, and no longer than the buffers of the loops.
pub record IsFact (key value : Bytes) : Type 0 where
  pub key_there : key ≢ []
  pub key_starts : StartsTight key
  pub key_ends : EndsTight key
  pub key_short : length key < 512
  pub key_line : Lacks b'\n' key
  pub key_colon : Lacks b':' key
  pub key_nul : Lacks 0 key
  pub value_starts : StartsTight value
  pub value_ends : EndsTight value
  pub value_short : length value ≤ 509
  pub value_line : Lacks b'\n' value
  pub value_nul : Lacks 0 value

-- The bullet whole.
abbrev pub fact_line : Bytes → Bytes → Bytes
fact_line key value = codes "- " ++ (key ++ (codes ": " ++ value))

strip_end-newline : (v : Bytes) → strip_end (v ++ b'\n' ∷ []) ≡ strip_end v
unfolding strip_end strip_cons is_space
strip_end-newline [] = refl
strip_end-newline (c ∷ v) = ap (strip_cons c) (strip_end-newline v)

trim_newline : (v : Bytes) → StartsTight v → str_trim (v ++ b'\n' ∷ []) ≡ str_trim v
unfolding str_trim skip_space trim_tail is_space
trim_newline [] h = refl
trim_newline (c ∷ v) h = rw h (ap (◌∷◌ c) (strip_end-newline v))

-- The text behind the colon is trimmed to the value.
trim_value : (v : Bytes) → StartsTight v → EndsTight v → str_trim (0x20 ∷ (v ++ b'\n' ∷ [])) ≡ v
unfolding str_trim skip_space is_space
trim_value v h e = trim_newline v h ∙ str_trim-tight v h e

pub length-fact_line :
    (key value : Bytes) → length (line_of (fact_line key value)) ≡ length key + length value + 5
length-fact_line key value = omega (
  arith,
  length-append (fact_line key value) (b'\n' ∷ []),
  length-append key (codes ": " ++ value),
)

recall_bullet-eq :
    (key k rest v : Bytes)
    → str_trim (fitting_key k) ≡ key
    → str_trim (take 511 rest) ≡ v
    → recall_bullet (some key) (some (k, rest)) ≡ done (some v)
unfolding recall_bullet
recall_bullet-eq key k rest v a b = rw (a, equal_refl key, b) refl

module _ {key value : Bytes} (f : IsFact key value) where
  pub fact_line_fits : length (line_of (fact_line key value)) ≤ 2047
  fact_line_fits = omega (arith, length-fact_line key value, f.key_short, f.value_short)

  pub Lacks-fact_line :
      (c : ℕ)
      → Lacks c (codes "- ")
      → Lacks c (codes ": ")
      → Lacks c key
      → Lacks c value
      → Lacks c (fact_line key value)
  Lacks-fact_line c a b k v =
      Lacks-append c (codes "- ") (key ++ (codes ": " ++ value)) a
        (Lacks-append c key (codes ": " ++ value) k (Lacks-append c (codes ": ") value b v))

  fact_parts :
      bullet_parts (line_of (fact_line key value)) ≡ some (key, 0x20 ∷ (value ++ b'\n' ∷ []))
  fact_parts =
      ap (λ (t : Bytes). strchr t b':') (append_assoc key (codes ": " ++ value) (b'\n' ∷ []))
      ∙ strchr-append b':' key (0x20 ∷ (value ++ b'\n' ∷ [])) f.key_colon

  key_trimmed : str_trim (fitting_key key) ≡ key
  key_trimmed =
      rw (lt→ltb (length key) 512 f.key_short) (str_trim-tight key f.key_starts f.key_ends)

  fact_buffer : line_buffer (line_of (fact_line key value)) ≡ line_of (fact_line key value)
  fact_buffer = take-eq_of_le 2047 (line_of (fact_line key value)) fact_line_fits

  value_whole : take 511 (0x20 ∷ (value ++ b'\n' ∷ [])) ≡ 0x20 ∷ (value ++ b'\n' ∷ [])
  value_whole =
      take-eq_of_le 511 (0x20 ∷ (value ++ b'\n' ∷ []))
        (omega (arith, length-append value (b'\n' ∷ []), f.value_short))

  fact_recalled :
      recall_bullet (some key) (bullet_parts (line_of (fact_line key value))) ≡ done (some value)
  fact_recalled =
      ap (recall_bullet (some key)) fact_parts
      ∙ recall_bullet-eq key key (0x20 ∷ (value ++ b'\n' ∷ [])) value key_trimmed
          (ap str_trim value_whole ∙ trim_value value f.value_starts f.value_ends)

  -- The line of the fact, in its section and for its key.
  pub recall_lines-fact :
      (section : Bytes) (rest : List Bytes)
      → recall_lines section (some key) (line_of (fact_line key value) ∷ rest) true
        ≡ done (some value)
  unfolding recall_lines has_prefix
  recall_lines-fact section rest = rw (fact_buffer, fact_recalled) refl

  -- It says nothing of another key.
  pub recall_lines-other :
      (section other : Bytes) (rest : List Bytes) (in_target : Bool)
      → equal key other ≡ false
      → recall_lines section (some other) (line_of (fact_line key value) ∷ rest) in_target
        ≡ recall_lines section (some other) rest in_target
  unfolding recall_lines recall_bullet has_prefix
  recall_lines-other section other rest false e = refl
  recall_lines-other section other rest true e =
      rw fact_buffer (rw fact_parts (rw key_trimmed (rw e refl)))

pub recall_lines-heading :
    (section : Bytes) (key : Option Bytes) (line : Bytes) (rest : List Bytes) (in_target : Bool)
    → is_heading (line_buffer line) ≡ true
    → recall_lines section key (line ∷ rest) in_target
      ≡ recall_lines section key rest (equal (recall_heading (line_buffer line)) section)
unfolding recall_lines
recall_lines-heading section key line rest in_target h = rw h refl

-- Behind a line that is no heading the section is the same.
pub recall_lines_cong_plain :
    (section : Bytes) (key : Option Bytes) (line : Bytes) (rest rest' : List Bytes)
    (in_target : Bool)
    → is_heading (line_buffer line) ≡ false
    → recall_lines section key rest in_target ≡ recall_lines section key rest' in_target
    → recall_lines section key (line ∷ rest) in_target
      ≡ recall_lines section key (line ∷ rest') in_target
unfolding recall_lines
recall_lines_cong_plain section key line rest rest' in_target h e = rw h (
    ap
      (λ (r : Outcome (Option Bytes)).
        if in_target && is_bullet (line_buffer line)
        then recall_bullet key (bullet_parts (line_buffer line)) >>= or_rest r
        else r)
      e)

-- The lines behind a line count only by what is recalled from them.
pub recall_lines_cong :
    (section : Bytes) (key : Option Bytes) (line : Bytes) (rest rest' : List Bytes)
    → ((t : Bool) → recall_lines section key rest t ≡ recall_lines section key rest' t)
    → (in_target : Bool)
    → recall_lines section key (line ∷ rest) in_target
      ≡ recall_lines section key (line ∷ rest') in_target
unfolding recall_lines
recall_lines_cong section key line rest rest' h in_target =
    rw (h in_target, h (equal (recall_heading (line_buffer line)) section)) refl

recall_bullet-other :
    (key : Bytes) (parts : Option (Bytes × Bytes)) (rest : Outcome (Option Bytes))
    → equal (existing_key parts) key ≡ false
    → (recall_bullet (some key) parts >>= or_rest rest) ≡ rest
unfolding recall_bullet existing_key
recall_bullet-other key none rest h = refl
recall_bullet-other key (some (k, v)) rest h = rw h refl

-- A line that is neither a heading nor the key's.
pub recall_lines-skip :
    (section key line : Bytes) (rest : List Bytes) (in_target : Bool)
    → is_heading (line_buffer line) ≡ false
    → is_key_line key (line_buffer line) in_target ≡ false
    → recall_lines section (some key) (line ∷ rest) in_target
      ≡ recall_lines section (some key) rest in_target
unfolding recall_lines is_key_line
recall_lines-skip section key line rest false h k = rw h refl
recall_lines-skip section key line rest true h k =
    elim (Bool-cases (is_bullet (line_buffer line))) [
      | inl e ↦ rw (h, e) (recall_bullet-other key (bullet_parts (line_buffer line)) _ (rw e at k))
      | inr e ↦ rw (h, e) refl
    ]

-- Two keys cannot own one line.
pub is_key_line-other :
    (key other linebuf : Bytes) (t t' : Bool)
    → equal key other ≡ false
    → is_key_line key linebuf t ≡ true
    → is_key_line other linebuf t' ≡ false
unfolding is_key_line
is_key_line-other key other linebuf t t' e h =
    elim (Bool-cases (equal (existing_key (bullet_parts linebuf)) other)) [
      | inl same ↦
          let a = (equal_iff (existing_key (bullet_parts linebuf)) other).0 same in
          ground (arith, equal_iff (existing_key (bullet_parts linebuf)) key, a)
      | inr differ ↦ ground arith
    ]
