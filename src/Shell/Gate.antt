-- ===== src/Shell/Gate.antt =====
-- tools/shell/shell_tool.c, `shell_execute`: what may be started, and for how long.
use vajra_ai.Prelude.{
  ℕ, ◌≤◌, ◌≡◌, ◌≢◌, ◌⊎◌, refl, inl, inr, Bool, true, false, Option, none, some, [], ◌∷◌, arith,
  Bool-cases,
}
use vajra_ai.Prelude.Int.{ℤ, pos, negsuc}
use vajra_ai.CString.{Bytes, codes}
use vajra_ai.Cjson.{Cjson}
use vajra_ai.Allowlist.{Allowlist, acl_command, allowlist_is_enabled, allowlist_check}
use vajra_ai.Shell.{
  Spawn, in_range, json_error, timeout_arg, is_blocked, run_command, execute_with, shell_execute,
}
use vajra_ai.Cjson.{string_arg}

-- The allowlist, if there is one, allows the command.
abbrev pub permitted : (Bytes → Bytes → Bool) → Option Allowlist → Bytes → Bool
permitted fnmatch none command = true
permitted fnmatch (some al) command = allowlist_check fnmatch al acl_command command

permitted-is_blocked :
    (fnmatch : Bytes → Bytes → Bool) (al : Option Allowlist) (command : Bytes)
    → is_blocked fnmatch al command ≡ false
    → permitted fnmatch al command ≡ true
unfolding is_blocked allowlist_is_enabled allowlist_check
permitted-is_blocked fnmatch none command h = refl
permitted-is_blocked fnmatch (some al) command h = ground arith

in_range_lem : (n : ℤ) → (1 ≤ in_range n) × (in_range n ≤ 300)
unfolding in_range
in_range_lem (negsuc n) = omega arith
in_range_lem (pos n) = ground arith

timeout_arg_lem :
    {J : Type 0} (cj : Cjson J) (tv : Option J)
    → (1 ≤ timeout_arg cj tv) × (timeout_arg cj tv ≤ 300)
unfolding timeout_arg
timeout_arg_lem cj none = omega arith
timeout_arg_lem cj (some tv) = elim (Bool-cases (cj.is_number tv)) [
  | inl e ↦ rw e (in_range_lem (cj.int_value tv))
  | inr e ↦ rw e (omega arith)
]

-- A call that starts a command: the command is there and permitted, and the call does what running
-- this one command under a timeout of 1 to 300 seconds does.
pub record Started {J W : Type 0} (cj : Cjson J) (fnmatch : Bytes → Bytes → Bool)
    (al : Option Allowlist) (spawn : Spawn W) (command : Option Bytes) (w : W)
    (result : Option (Option Bytes × W)) : Type 0 where
  pub text : Bytes
  pub timeout : ℕ
  pub is_there : command ≡ some text
  pub is_text : text ≢ []
  pub is_permitted : permitted fnmatch al text ≡ true
  pub low : 1 ≤ timeout
  pub high : timeout ≤ 300
  pub runs : result ≡ run_command cj spawn text timeout w

-- A call that starts nothing: it answers, and leaves the world as it is.
abbrev pub Refused : {W : Type 0} → W → Option (Option Bytes × W) → Type 0
Refused w result = (reply : Option Bytes) × (result ≡ some (reply, w))

module _ {J W : Type 0} (cj : Cjson J) where
  execute_with_lem :
      (fnmatch : Bytes → Bytes → Bool) (al : Option Allowlist) (spawn : Spawn W) (tv : Option J)
      (command : Option Bytes) (w : W)
      → Refused w (execute_with cj fnmatch al spawn tv command w)
        ⊎ Started cj fnmatch al spawn command w (execute_with cj fnmatch al spawn tv command w)
  unfolding execute_with
  execute_with_lem fnmatch al spawn tv none w = inl (_, refl)
  execute_with_lem fnmatch al spawn tv (some []) w = inl (_, refl)
  execute_with_lem fnmatch al spawn tv (some (c ∷ cs)) w =
      elim (Bool-cases (is_blocked fnmatch al (c ∷ cs))) [
        | inl e ↦
            inl (
              json_error cj (codes "Command not permitted by allowlist") (some (c ∷ cs)),
              rw e refl,
            )
        | inr e ↦ inr record {
          text = c ∷ cs;
          timeout = timeout_arg cj tv;
          is_there = refl;
          is_text = λ p. cc;
          is_permitted = permitted-is_blocked fnmatch al (c ∷ cs) e;
          low = (timeout_arg_lem cj tv).0;
          high = (timeout_arg_lem cj tv).1;
          runs = rw e refl;
        }
      ]

  -- Whatever the arguments, a call of the tool either starts nothing and leaves the world as it is,
  -- or it runs exactly the command of the arguments, which is not empty and which the allowlist, if
  -- there is one, allows, under a timeout of 1 to 300 seconds.
  pub shell_execute-Started :
      (fnmatch : Bytes → Bytes → Bool) (al : Option Allowlist) (spawn : Spawn W) (args : J) (w : W)
      → Refused w (shell_execute cj fnmatch al spawn args w)
        ⊎ Started cj fnmatch al spawn
            (string_arg cj args (codes "command"))
            w
            (shell_execute cj fnmatch al spawn args w)
  unfolding shell_execute
  shell_execute-Started fnmatch al spawn args w =
      execute_with_lem fnmatch al spawn (cj.object_item args (codes "timeout"))
        (string_arg cj args (codes "command")) w
