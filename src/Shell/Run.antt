-- ===== src/Shell/Run.antt =====
-- tools/shell/shell_tool.c, `shell_run_timed`: the loop that collects the output of a command until
-- it exits or its time is over.
use vajra_ai.Prelude.{
  ℕ, ◌+◌, ◌-◌, ◌*◌, Bool, true, false, ◌&&◌, ◌||◌, Option, none, some, List, [], ◌∷◌, ltb, leb,
  ◌==◌, if◌then◌else◌, length, take, min,
}
use vajra_ai.Prelude.Int.{ℤ, negsuc}
use vajra_ai.CString.{Bytes, codes, until_nul}
use vajra_ai.Types.StrBuf.{StrBuf, strbuf_init, strbuf_append}

abbrev pub max_output_size : ℕ
max_output_size = 32 * 1024

-- What one round of the loop meets: the bytes that the calls of read() return, the status of
-- waitpid() (the exit code, or -1 for a signal) if the child has ended, and the clock.
pub record Round : Type 0 where
  pub output : List Bytes
  pub exit_status : Option ℤ
  pub now_sec : ℕ
  pub now_nsec : ℕ

-- What pipe() and fork() lead to: an error text, or a child with the time of its start, its rounds,
-- and the output that is read after the loop.
pub data Child : Type 0 where
  not_spawned : Bytes → Child
  spawned : ℕ → ℕ → List Round → List Bytes → Child

pub data Ended : Type 0 where
  exited : ℤ → Ended
  timed_out : Ended

-- The result, the output, and the exit code.
pub data Ran : Type 0 where
  failed : Bytes → Ran
  finished : Bytes → ℤ → Ran

-- One call of read(): what exceeds the cap is dropped, and strbuf_append stops at a NUL.
unfoldable pub put_chunk : StrBuf → Bytes → Option StrBuf
unfolding strbuf_append until_nul
put_chunk sb chunk =
    if ltb sb.len max_output_size
    then strbuf_append sb (until_nul (take (min (length chunk) (max_output_size - sb.len)) chunk))
    else some sb

-- The inner loop over read().
unfoldable pub drain : List Bytes → Option StrBuf → Option StrBuf
unfolding put_chunk
drain chunks none = none
drain [] (some sb) = some sb
drain (c ∷ cs) (some sb) = drain cs (put_chunk sb c)

unfoldable pub is_past : ℕ → ℕ → Round → Bool
is_past sec nsec r = ltb sec r.now_sec || (r.now_sec == sec && leb nsec r.now_nsec)

-- The end of a round: the child has exited, its time is over, or the loop goes on.
unfoldable pub end_round :
    Bool → Option ℤ → (StrBuf → Option (StrBuf × Ended)) → StrBuf → Option (StrBuf × Ended)
end_round past (some code) more sb = some (sb, exited code)
end_round true none more sb = some (sb, timed_out)
end_round false none more sb = more sb

unfoldable pub after_drain :
    (StrBuf → Option (StrBuf × Ended)) → Option StrBuf → Option (StrBuf × Ended)
after_drain f none = none
after_drain f (some sb) = f sb

-- The loop, with the deadline; `none` where the child is still running at the end of the list.
unfoldable pub poll : ℕ → ℕ → List Round → StrBuf → Option (StrBuf × Ended)
unfolding drain is_past end_round after_drain
poll sec nsec [] sb = none
poll sec nsec (r ∷ rs) sb =
    after_drain (end_round (is_past sec nsec r) r.exit_status (poll sec nsec rs))
      (drain r.output (some sb))

unfoldable pub finish_with : ℤ → Option StrBuf → Option Ran
finish_with code none = none
finish_with code (some sb) = some (finished sb.data_bytes code)

abbrev pub timeout_note : Bytes
timeout_note = b'\n' ∷ codes "[aham: command timed out and was killed]"

abbrev pub truncated_note : Bytes
truncated_note = b'\n' ∷ codes "[aham: output truncated]"

-- The note behind the output.
unfoldable pub finish : Ended → StrBuf → Option Ran
unfolding strbuf_append finish_with
finish timed_out sb = finish_with (negsuc 0) (strbuf_append sb timeout_note)
finish (exited code) sb =
    finish_with code
      (if leb max_output_size sb.len then strbuf_append sb truncated_note else some sb)

unfoldable pub finish_drained : Ended → Option StrBuf → Option Ran
unfolding finish
finish_drained ended none = none
finish_drained ended (some sb) = finish ended sb

unfoldable pub last_drain : List Bytes → Option (StrBuf × Ended) → Option Ran
unfolding drain finish_drained
last_drain rest none = none
last_drain rest (some (sb, ended)) = finish_drained ended (drain rest (some sb))

unfoldable pub shell_run_timed : Child → ℕ → Option Ran
unfolding poll last_drain strbuf_init
shell_run_timed (not_spawned text) timeout = some (failed text)
shell_run_timed (spawned sec nsec rounds rest) timeout =
    last_drain rest (poll (sec + timeout) nsec rounds (strbuf_init 2048))
