-- ===== src/Shell/Bounds.antt =====
-- tools/shell/shell_tool.c, `shell_run_timed`: the loop ends, and what it returns is bounded.
use vajra_ai.Prelude.{
  ℕ, ◌+◌, ◌-◌, ◌^◌, ◌≤◌, ◌<◌, ◌≡◌, refl, ap, inl, inr, Bool, true, false, ◌||◌, Option, none, some,
  List, [], ◌∷◌, arith, ltb, leb, ◌==◌, length, take, min, length-take, length-append, Bool-cases,
  ltb→lt,
}
use vajra_ai.Prelude.Int.{ℤ, negsuc}
use vajra_ai.CString.{Bytes, until_nul}
use vajra_ai.Types.StrBuf.{
  StrBuf, strbuf_init, strbuf_append, IsValid, strbuf_append_lem, strbuf_init-IsValid,
}
use vajra_ai.Shell.Run.{
  max_output_size, Round, spawned, Ended, exited, timed_out, Ran, failed, finished, timeout_note,
  truncated_note, put_chunk, drain, is_past, end_round, after_drain, poll, finish_with, finish,
  finish_drained, last_drain, shell_run_timed,
}

-- A valid buffer that has not passed the cap.
abbrev IsCapped : StrBuf → Type 0
IsCapped sb = IsValid sb × (sb.len ≤ max_output_size)

-- A result that is there.
abbrev Holds {ℓ} : {A : Type ℓ} → (A → Type 0) → Option A → Type 0
Holds P none = ⊥
Holds P (some a) = P a

length-until_nul : (s : Bytes) → length (until_nul s) ≤ length s
unfolding until_nul
length-until_nul [] = omega arith
length-until_nul (c ∷ cs) = elim (Bool-cases (c == 0)) [
  | inl e ↦ rw e (omega arith)
  | inr e ↦ rw e (omega (arith, length-until_nul cs))
]

-- Appending up to `n` bytes to a buffer.
append_lem :
    (sb : StrBuf) (text : Bytes) (bound : ℕ)
    → IsValid sb
    → sb.len + length text ≤ bound
    → bound < 2 ^ 62
    → Holds (λ b. IsValid b × (b.len ≤ bound)) (strbuf_append sb text)
append_lem sb text bound v h small =
    let (sb', done, bytes, keep, valid) = strbuf_append_lem sb text v (omega arith) in
    let size : sb'.len ≤ bound =
      omega (arith, valid.len_is, ap length bytes, length-append sb.data_bytes text, v.len_is) in
    rw done (valid, size)

IsCapped-put_chunk :
    (sb : StrBuf) (chunk : Bytes) → IsCapped sb → Holds IsCapped (put_chunk sb chunk)
unfolding put_chunk
IsCapped-put_chunk sb chunk (v, capped) = elim (Bool-cases (ltb sb.len max_output_size)) [
  | inl e ↦
      let kept = take (min (length chunk) (max_output_size - sb.len)) chunk in
      rw e (
        append_lem sb (until_nul kept) max_output_size v
          (omega (
            arith,
            ltb→lt sb.len max_output_size e,
            length-until_nul kept,
            length-take (min (length chunk) (max_output_size - sb.len)) chunk,
          ))
          (omega arith))
  | inr e ↦ rw e (v, capped)
]

IsCapped-drain :
    (chunks : List Bytes) (o : Option StrBuf) → Holds IsCapped o → Holds IsCapped (drain chunks o)
unfolding drain
IsCapped-drain chunks none h = absurd h
IsCapped-drain [] (some sb) h = h
IsCapped-drain (c ∷ cs) (some sb) h = IsCapped-drain cs (put_chunk sb c) (IsCapped-put_chunk sb c h)

-- Does a round end the loop?
abbrev has_exited : Option ℤ → Bool
has_exited none = false
has_exited (some _) = true

abbrev pub ends : ℕ → ℕ → List Round → Bool
ends sec nsec [] = false
ends sec nsec (r ∷ rs) = (has_exited r.exit_status || is_past sec nsec r) || ends sec nsec rs

abbrev CappedEnd : StrBuf × Ended → Type 0
CappedEnd r = IsCapped r.0

CappedEnd-end_round :
    (past : Bool) (status : Option ℤ) (more : StrBuf → Option (StrBuf × Ended)) (sb : StrBuf)
    → IsCapped sb
    → ((has_exited status || past) ≡ false → Holds CappedEnd (more sb))
    → Holds CappedEnd (end_round past status more sb)
unfolding end_round
CappedEnd-end_round past (some code) more sb h k = h
CappedEnd-end_round true none more sb h k = h
CappedEnd-end_round false none more sb h k = k refl

Holds-after_drain :
    (f : StrBuf → Option (StrBuf × Ended)) (o : Option StrBuf)
    → Holds IsCapped o
    → ((sb : StrBuf) → IsCapped sb → Holds CappedEnd (f sb))
    → Holds CappedEnd (after_drain f o)
unfolding after_drain
Holds-after_drain f none h k = absurd h
Holds-after_drain f (some sb) h k = k sb h

or-right : (b c : Bool) → (b || c) ≡ true → b ≡ false → c ≡ true
or-right b c h e = ground arith

CappedEnd-poll :
    (sec nsec : ℕ) (rs : List Round) (sb : StrBuf)
    → IsCapped sb
    → ends sec nsec rs ≡ true
    → Holds CappedEnd (poll sec nsec rs sb)
unfolding poll
CappedEnd-poll sec nsec [] sb h e = absurd (grind arith)
CappedEnd-poll sec nsec (r ∷ rs) sb h e =
    Holds-after_drain _ _ (IsCapped-drain r.output (some sb) h) λ sb' capped.
      CappedEnd-end_round (is_past sec nsec r) r.exit_status (poll sec nsec rs) sb' capped λ goes.
        CappedEnd-poll sec nsec rs sb' capped
          (or-right (has_exited r.exit_status || is_past sec nsec r) (ends sec nsec rs) e goes)

-- The cap and the longer note.
abbrev pub output_bound : ℕ
output_bound = max_output_size + 41

abbrev IsBounded : Ran → Type 0
IsBounded (failed text) = ⊥
IsBounded (finished output code) = length output ≤ output_bound

IsBounded-finish_with :
    (code : ℤ) (o : Option StrBuf)
    → Holds (λ b. IsValid b × (b.len ≤ output_bound)) o
    → Holds IsBounded (finish_with code o)
unfolding finish_with
IsBounded-finish_with code none h = absurd h
IsBounded-finish_with code (some sb) (v, h) = omega (arith, v.len_is)

IsBounded-finish : (e : Ended) (sb : StrBuf) → IsCapped sb → Holds IsBounded (finish e sb)
unfolding finish
IsBounded-finish timed_out sb (v, h) =
    IsBounded-finish_with (negsuc 0) _
      (append_lem sb timeout_note output_bound v (omega arith) (omega arith))
IsBounded-finish (exited code) sb (v, h) = elim (Bool-cases (leb max_output_size sb.len)) [
  | inl e ↦ rw e (
      IsBounded-finish_with code _
        (append_lem sb truncated_note output_bound v (omega arith) (omega arith)))
  | inr e ↦ rw e (IsBounded-finish_with code (some sb) (v, omega arith))
]

IsBounded-finish_drained :
    (e : Ended) (o : Option StrBuf) → Holds IsCapped o → Holds IsBounded (finish_drained e o)
unfolding finish_drained
IsBounded-finish_drained e none h = absurd h
IsBounded-finish_drained e (some sb) h = IsBounded-finish e sb h

IsBounded-last_drain :
    (rest : List Bytes) (o : Option (StrBuf × Ended))
    → Holds CappedEnd o
    → Holds IsBounded (last_drain rest o)
unfolding last_drain
IsBounded-last_drain rest none h = absurd h
IsBounded-last_drain rest (some (sb, e)) h =
    IsBounded-finish_drained e _ (IsCapped-drain rest (some sb) h)

from_Holds :
    (o : Option Ran)
    → Holds IsBounded o
    → (output : Bytes) × (code : ℤ) × (o ≡ some (finished output code))
      × (length output ≤ output_bound)
from_Holds none h = absurd h
from_Holds (some (failed text)) h = absurd h
from_Holds (some (finished output code)) h = (output, code, refl, h)

-- If the child exits in some round, or some round finds the deadline reached, and the reads of each
-- round come to an end, the command returns an output, of at most the cap of 32 KB and the 41 bytes of
-- a note, whatever the child writes.
pub shell_run_timed-bounded :
    (sec nsec timeout : ℕ) (rounds : List Round) (rest : List Bytes)
    → ends (sec + timeout) nsec rounds ≡ true
    → (output : Bytes) × (code : ℤ) × (shell_run_timed (spawned sec nsec rounds rest) timeout
        ≡ some (finished output code))
      × (length output ≤ output_bound)
unfolding shell_run_timed
shell_run_timed-bounded sec nsec timeout rounds rest h =
    let empty : IsCapped (strbuf_init 2048) =
      (strbuf_init-IsValid 2048 (omega arith), unfold strbuf_init in omega arith) in
    from_Holds _ (
      IsBounded-last_drain rest _
        (CappedEnd-poll (sec + timeout) nsec rounds (strbuf_init 2048) empty h))
