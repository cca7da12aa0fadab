-- ===== src/ToolRegistry/Lookup.antt =====
-- What `tool_register` and `tool_find` promise each other.
use vajra_ai.Prelude.{
  ◌≤◌, ◌≡◌, ◌≢◌, ◌<◌, ◌⊎◌, inl, inr, Bool-cases, Option-cases, leb, refl, ap, ◌∙◌, Option, none,
  some, [], ◌∷◌, ◌++◌, arith, if◌then◌else◌, length, length-append,
}
use vajra_ai.CString.{Bytes, equal}
use vajra_ai.Types.{Result, result_ok, err_generic}
use vajra_ai.Memory.{Outcome, done, fault}
use vajra_ai.ToolRegistry.{Tool, Registry, max_tools, tool_register, tool_find}

module _ {J W : Type 0} where
  -- Every registered tool has a name.
  abbrev pub AllNamed : Registry J W → Type 0
  AllNamed [] = Unit {0}
  AllNamed (t ∷ ts) = ((n : Bytes) × (t.name ≡ some n)) × AllNamed ts

  pub record IsValid (tools : Registry J W) : Type 0 where
    pub named : AllNamed tools
    pub fits : length tools ≤ max_tools

  -- The first lookup if it found a tool, else the second.
  abbrev pub or_else :
      Outcome (Option (Tool J W)) → Outcome (Option (Tool J W)) → Outcome (Option (Tool J W))
  or_else (done none) b = b
  or_else (done (some t)) b = done (some t)
  or_else (fault e) b = fault e

  tool_find-append :
      (ts us : Registry J W) (name : Option Bytes)
      → tool_find (ts ++ us) name ≡ or_else (tool_find ts name) (tool_find us name)
  unfolding tool_find
  tool_find-append [] us name = refl
  tool_find-append (t ∷ ts) us name = ground (arith, tool_find-append ts us name)

  append_tool-cases :
      (tools : Registry J W) (t : Tool J W)
      → (((tool_register tools t).1 ≡ tools) × ((tool_register tools t).0.status ≡ err_generic))
        ⊎ (((tool_register tools t).1 ≡ tools ++ t ∷ [])
            × ((tool_register tools t).0 ≡ result_ok)
            × ((n : Bytes) × (t.name ≡ some n))
            × (t.execute ≢ none)
            × (length tools < max_tools))
  unfolding tool_register
  append_tool-cases tools t = elim (Bool-cases (leb max_tools (length tools))) [
    | inl full ↦ rw full (inl (refl, refl))
    | inr room ↦ rw room (elim (Option-cases t.name) [
      | inl no_name ↦ rw no_name (inl (refl, refl))
      | inr (n, named) ↦ rw named (elim (Option-cases t.execute) [
        | inl no_fn ↦ rw no_fn (inl (refl, refl))
        | inr (f, fn) ↦ rw fn (inr (refl, refl, (n, refl), (λ e. cc), ground arith))
      ])
    ])
  ]

  AllNamed-append :
      (ts : Registry J W) (t : Tool J W) (n : Bytes)
      → AllNamed ts
      → t.name ≡ some n
      → AllNamed (ts ++ t ∷ [])
  AllNamed-append [] t n h e = ((n, e), tt)
  AllNamed-append (x ∷ ts) t n h e = (h.0, AllNamed-append ts t n h.1 e)

  -- Registering keeps the registry valid, whatever the tool: every entry has a name and the array
  -- of 64 is never overrun.
  pub tool_register-IsValid :
      (tools : Registry J W) (t : Tool J W) → IsValid tools → IsValid (tool_register tools t).1
  tool_register-IsValid tools t v = elim (append_tool-cases tools t) [
    | inl (same, _) ↦ rw same v
    | inr (grown, _, (n, named), _, room) ↦ rw grown (record {
      named = AllNamed-append tools t n v.named named;
      fits = omega (arith, length-append tools (t ∷ []));
    })
  ]

  -- In a registry whose tools are named, a lookup by a name that is not NULL returns.
  tool_find-returns :
      (ts : Registry J W) (n : Bytes)
      → AllNamed ts
      → (o : Option (Tool J W)) × (tool_find ts (some n) ≡ done o)
  unfolding tool_find
  tool_find-returns [] n h = (none, refl)
  tool_find-returns (t ∷ ts) n h =
      let (m, e) = h.0 in
      let (o, f) = tool_find-returns ts n h.1 in
      elim (Bool-cases (equal m n)) [
        | inl same ↦ (some t, rw e (rw same refl))
        | inr other ↦ (o, rw e (rw other f))
      ]

  -- Looking one entry up.
  tool_find-one :
      (t : Tool J W) (n m : Bytes)
      → t.name ≡ some m
      → tool_find (t ∷ []) (some n) ≡ done (if equal m n then some t else none)
  unfolding tool_find
  tool_find-one t n m e =
      rw e (elim (Bool-cases (equal m n)) [ inl same ↦ rw same refl | inr other ↦ rw other refl ])

  -- After a tool named `m` is registered with success, a lookup returns what it returned before if
  -- that was a tool (the first registration of a name wins), and else the new tool if the name is
  -- `m`, and NULL if it is not.
  pub tool_find-tool_register :
      (tools : Registry J W) (t : Tool J W) (n m : Bytes)
      → t.name ≡ some m
      → (tool_register tools t).0 ≡ result_ok
      → tool_find (tool_register tools t).1 (some n)
        ≡ or_else (tool_find tools (some n)) (done (if equal m n then some t else none))
  tool_find-tool_register tools t n m named good = elim (append_tool-cases tools t) [
    | inl (_, bad) ↦ cc (ap (λ (r : Result). r.status) good)
    | inr (grown, _, _, _, _) ↦
        rw grown (tool_find-append tools (t ∷ []) (some n) ∙ rw (tool_find-one t n m named) refl)
  ]
