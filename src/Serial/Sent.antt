-- ===== src/Serial/Sent.antt =====
-- tools/serial/serial_tool.c, `serial_login`: which lines are sent, and when the password is.
use mathlib.Core.Path.{subst}
use vajra_ai.Prelude.{
  ◌≡◌, ◌≢◌, refl, sym, ap, ◌∙◌, not, inl, inr, ℕ, suc, Bool, true, false, ◌||◌, Option, none, some,
  List, [], ◌∷◌, arith, ◌==◌, length, Bool-cases,
}
use vajra_ai.CString.{Bytes, codes, until_nul}
use vajra_ai.Serial.{Device}
use vajra_ai.Serial.Read.{Event, read_until, IsFound, Agrees, at_index, IsRead, read_until-IsRead}
use vajra_ai.Serial.Login.{
  Login, skipped, login_patterns, at_shell, await_shell, at_password, with_password, await_password,
  at_login, serial_login,
}

abbrev pub password_prompts : List Bytes
password_prompts = codes "password:" ∷ codes "Password:" ∷ []

-- What the login reads first: up to one of the login prompts or the shell prompt.
abbrev pub first_read : Device → List Event → Option ℕ × Bytes × List Event
first_read dev events = read_until (login_patterns dev) events []

-- What it reads behind that, up to a prompt for the password.
abbrev pub second_read : Device → List Event → Option ℕ × Bytes × List Event
second_read dev events = read_until password_prompts (first_read dev events).2 []

-- A login prompt has been found: a pattern, and not the shell prompt, which is the last one.
abbrev pub asks_name : Device → Option ℕ → Bool
asks_name dev none = false
asks_name dev (some p) = not (suc p == length (login_patterns dev))

-- The lines of a login: none where it is skipped; an empty one; the user name behind it, if the text
-- of the first read ends at a login prompt; and the password behind both, if there is one and the
-- text of the second read holds a prompt for it.
pub data Sent (dev : Device) (events : List Event) : Login × List Bytes → Type 0 where
  silent : (dev.no_login || length dev.username == 0) ≡ true → Sent dev events (skipped, [])
  tickled :
      {r : Login}
      → (dev.no_login || length dev.username == 0) ≡ false
      → asks_name dev (first_read dev events).0 ≡ false
      → Sent dev events (r, [] ∷ [])
  named :
      {r : Login}
      → (dev.no_login || length dev.username == 0) ≡ false
      → asks_name dev (first_read dev events).0 ≡ true
      → dev.password ≡ []
      → Sent dev events (r, [] ∷ dev.username ∷ [])
  not_asked :
      {r : Login}
      → (dev.no_login || length dev.username == 0) ≡ false
      → asks_name dev (first_read dev events).0 ≡ true
      → (second_read dev events).0 ≡ none
      → Sent dev events (r, [] ∷ dev.username ∷ [])
  answered :
      {r : Login} {p : ℕ}
      → (dev.no_login || length dev.username == 0) ≡ false
      → asks_name dev (first_read dev events).0 ≡ true
      → dev.password ≢ []
      → (second_read dev events).0 ≡ some p
      → IsFound (until_nul (second_read dev events).1) password_prompts p
      → Sent dev events (r, [] ∷ dev.username ∷ dev.password ∷ [])

module _ (dev : Device) (events : List Event) where
  at_shell-Sent :
      (sent : List Bytes) (r : Option ℕ × Bytes × List Event)
      → ((login : Login) → Sent dev events (login, sent))
      → Sent dev events (at_shell dev sent r)
  at_shell-Sent sent (some p, buf, left) f = f _
  at_shell-Sent sent (none, buf, left) f = f _

  await_shell-Sent :
      (sent : List Bytes) (left : List Event)
      → ((login : Login) → Sent dev events (login, sent))
      → Sent dev events (await_shell dev sent left)
  unfolding await_shell
  await_shell-Sent sent left f = at_shell-Sent sent (read_until (dev.prompt ∷ []) left []) f

  at_index-IsFound :
      {text : Bytes} {p : ℕ}
      → Agrees text password_prompts (some p)
      → IsFound text password_prompts p
  at_index-IsFound (at_index f) = f

  module _ (known : (dev.no_login || length dev.username == 0) ≡ false)
      (prompted : asks_name dev (first_read dev events).0 ≡ true) where
    at_password-Sent :
        (r : Option ℕ × Bytes × List Event)
        → dev.password ≢ []
        → second_read dev events ≡ r
        → IsRead password_prompts r
        → Sent dev events (at_password dev ([] ∷ dev.username ∷ []) r)
    at_password-Sent (none, buf, left) there e h =
        not_asked known prompted (ap (λ (x : Option ℕ × Bytes × List Event). x.0) e)
    at_password-Sent (some p, buf, left) there e h =
        await_shell-Sent ([] ∷ dev.username ∷ dev.password ∷ []) left (λ login.
          answered known prompted there (ap (λ (x : Option ℕ × Bytes × List Event). x.0) e) (
            subst
              (λ (x : Option ℕ × Bytes × List Event). IsFound (until_nul x.1) password_prompts p)
              (sym e) (at_index-IsFound h.agrees)))

    with_password-Sent :
        (password : Bytes)
        → dev.password ≡ password
        → Sent dev events
            (with_password dev ([] ∷ dev.username ∷ []) (first_read dev events).2 password)
    with_password-Sent [] e =
        await_shell-Sent ([] ∷ dev.username ∷ []) (first_read dev events).2
          (λ login. named known prompted e)
    with_password-Sent (c ∷ cs) e =
        at_password-Sent (second_read dev events) (λ f. cc) refl
          (read_until-IsRead password_prompts (first_read dev events).2 [] (omega arith))

    await_password-Sent :
        Sent dev events (await_password dev ([] ∷ dev.username ∷ []) (first_read dev events).2)
    unfolding await_password
    await_password-Sent = with_password-Sent dev.password refl

  at_login-Sent :
      (r : Option ℕ × Bytes × List Event)
      → (dev.no_login || length dev.username == 0) ≡ false
      → first_read dev events ≡ r
      → Sent dev events (at_login dev r)
  at_login-Sent (none, buf, left) known e =
      tickled known (ap (λ (x : Option ℕ × Bytes × List Event). asks_name dev x.0) e)
  at_login-Sent (some p, buf, left) known e =
      let asks : asks_name dev (first_read dev events).0
          ≡ not (suc p == length (login_patterns dev)) =
        ap (λ (x : Option ℕ × Bytes × List Event). asks_name dev x.0) e in
      let same : (first_read dev events).2 ≡ left =
        ap (λ (x : Option ℕ × Bytes × List Event). x.2) e in
      elim (Bool-cases (suc p == length (login_patterns dev))) [
        | inl shell ↦ rw shell (tickled known (asks ∙ ap not shell))
        | inr other ↦ rw other (
            subst
              (λ (l : List Event). Sent dev events (await_password dev ([] ∷ dev.username ∷ []) l))
              same (await_password-Sent known (asks ∙ ap not other)))
      ]

  -- Whatever comes from the device, a login sends nothing where it is skipped, and else an empty line.
  -- The user name follows just where what is read next ends at a login prompt, and the password, if
  -- there is one, follows just where what is read behind the user name has a prompt for it.
  pub serial_login-Sent : Sent dev events (serial_login dev events)
  unfolding serial_login
  serial_login-Sent = elim (Bool-cases (dev.no_login || length dev.username == 0)) [
    | inl e ↦ rw e (silent e)
    | inr e ↦ rw e (at_login-Sent (first_read dev events) e refl)
  ]
