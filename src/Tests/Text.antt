-- ===== src/Tests/Text.antt =====
-- core/types.c
use vajra_ai.Prelude.{◌≡◌, ◌≤◌, refl, true, some, ◌∷◌, ◌++◌, all, arith}
use vajra_ai.CString.{codes}
use vajra_ai.Types.{str_trim, sanitize_output}
use vajra_ai.Types.Trim.{IsTrimOf, str_trim-IsTrimOf}
use vajra_ai.Types.Sanitize.{
  is_kept, sanitize_output-kept, sanitize_output_idempotent, sanitize_output-csi,
}
use vajra_ai.Types.StrBuf.{
  StrBuf, IsValid, strbuf_init, strbuf_init-IsValid, strbuf_append, strbuf_append_lem,
}

trim_runs : str_trim (codes " \t a b \n") ≡ codes "a b"
unfolding str_trim
trim_runs = refl

sanitize_runs :
    sanitize_output (some (0x1b ∷ codes "[31mred" ++ (0x1b ∷ codes "[0m\r\n"))) ≡ codes "red\n"
unfolding sanitize_output
sanitize_runs = refl

str_trim-IsTrimOf_example : IsTrimOf (codes "  a ") (str_trim (codes "  a "))
str_trim-IsTrimOf_example = str_trim-IsTrimOf (codes "  a ")

sanitize_output-kept_example : all is_kept (sanitize_output (some (7 ∷ codes "ok"))) ≡ true
sanitize_output-kept_example = sanitize_output-kept (some (7 ∷ codes "ok"))

sanitize_output_idempotent_example :
    sanitize_output (some (sanitize_output (some (7 ∷ codes "ok"))))
    ≡ sanitize_output (some (7 ∷ codes "ok"))
sanitize_output_idempotent_example = sanitize_output_idempotent (some (7 ∷ codes "ok"))

sanitize_output-csi_example :
    sanitize_output (some (codes "a" ++ (0x1b ∷ b'[' ∷ (codes "1;31" ++ b'm' ∷ codes "b"))))
    ≡ codes "a" ++ sanitize_output (some (codes "b"))
sanitize_output-csi_example =
    sanitize_output-csi (codes "a") (codes "1;31") b'm' (codes "b") refl refl refl

abbrev fresh : StrBuf
fresh = strbuf_init 4

fresh-len : fresh.len ≡ 0
unfolding strbuf_init
fresh-len = refl

strbuf_append_lem_example :
    (sb' : StrBuf) × (strbuf_append fresh (codes "hello") ≡ some sb')
    × (sb'.data_bytes ≡ fresh.data_bytes ++ codes "hello")
    × (fresh.cap ≤ sb'.cap)
    × IsValid sb'
strbuf_append_lem_example =
    strbuf_append_lem fresh (codes "hello") (strbuf_init-IsValid 4 (omega arith))
      (omega (arith, fresh-len))
