-- ===== src/Openai/Recover.antt =====
-- providers/openai/openai.c: the recovery of tool calls from `failed_generation`.
use mathlib.Core.Path.{subst}
use vajra_ai.Prelude.{
  ◌≡◌, refl, ap, ◌∙◌, inl, inr, ℕ, zero, suc, ◌+◌, ◌<◌, Bool, true, false, ◌&&◌, Option, none, some,
  [], ◌∷◌, ◌++◌, arith, ltb, ◌==◌, Bool-cases, Option-cases, ltb→lt, lt→ltb,
}
use vajra_ai.CString.{Bytes}
use vajra_ai.Memory.{Fault, double_free, Outcome, fault, Ensures}
use vajra_ai.Cjson.{Cjson}
use vajra_ai.Cjson.Laws.{Laws, Items, Items-create_array, Items-add_to_array}
use vajra_ai.MdMemory.Lines.{Lacks, Lacks-head, Lacks-tail}
use vajra_ai.Ollama.{next_counter}
use vajra_ai.Ollama.Calls.{IsNormCall, IsNormCall-norm_call}
use vajra_ai.Openai.{
  fg_id, recovered_args, named_entry, entry_name, recover_entry, recover_entries, recovered,
  try_array, recover_from,
}

module _ {J : Type 0} (cj : Cjson J) where
  -- A recovered call has an id of the form fg_N, a name and arguments.
  pub record IsRecovered (tc : Option J) : Type 0 where
    pub number : ℕ
    pub name : Bytes
    pub args : Bytes
    pub norm : IsNormCall cj (fg_id number) name args tc

  -- What a recovery may yield: nothing, or an array of such calls that is not empty.
  abbrev pub GoodRecovery : Option J × ℕ → Type 0
  GoodRecovery (none, counter) = Unit {0}
  GoodRecovery (some calls, counter) =
      Items cj (λ i tc. IsRecovered tc) calls × (0 < cj.array_size calls)

abbrev pub IsDoubleFree : Fault → Type 0
IsDoubleFree e = e ≡ double_free

and_right : (a b : Bool) → (a && b) ≡ true → b ≡ true
and_right a b h = ground arith

module _ {J : Type 0} (cj : Cjson J) (laws : Laws cj) where
  abbrev Calls : J → Type 0
  Calls arr = Items cj (λ i tc. IsRecovered cj tc) arr

  abbrev CallsOption : Option (J × ℕ) → Type 0
  CallsOption none = Unit {0}
  CallsOption (some (arr, counter)) = Calls arr

  Calls-named_entry :
      (name : Option Bytes) (args : Option J) (arr : J) (counter : ℕ)
      → Calls arr
      → CallsOption (named_entry cj name args (arr, counter))
  unfolding named_entry
  Calls-named_entry none args arr counter h = tt
  Calls-named_entry (some name) args arr counter h =
      Items-add_to_array cj laws (λ i tc. IsRecovered cj tc) arr _ h
        (record {
          number = next_counter counter;
          name = name;
          args = recovered_args cj args;
          norm =
              IsNormCall-norm_call cj laws (fg_id (next_counter counter)) name
                (recovered_args cj args);
        })

  Calls-recover_entry :
      (entry : Option J) (arr : J) (counter : ℕ)
      → Calls arr
      → CallsOption (recover_entry cj entry (arr, counter))
  unfolding recover_entry
  Calls-recover_entry entry arr counter h = Calls-named_entry (entry_name cj entry) _ arr counter h

  Calls-recover_entries :
      (parsed : J) (n i : ℕ) (s : J × ℕ) → Calls s.0 → Calls (recover_entries cj parsed n i s).1.0
  unfolding recover_entries
  Calls-recover_entries parsed zero i s h = h
  Calls-recover_entries parsed (suc n) i (arr, counter) h =
      elim (Option-cases (recover_entry cj (cj.array_item parsed i) (arr, counter))) [
        | inl e ↦ rw e h
        | inr (s', e) ↦
            let good =
              subst CallsOption e (Calls-recover_entry (cj.array_item parsed i) arr counter h) in
            rw e (Calls-recover_entries parsed n (i + 1) s' good)
      ]

  Good-recovered :
      (r : Bool × (J × ℕ)) → Calls r.1.0 → Ensures IsDoubleFree (GoodRecovery cj) (recovered cj r)
  unfolding recovered
  Good-recovered (good, (arr, counter)) h = elim (Bool-cases (good && ltb 0 (cj.array_size arr))) [
    | inl e ↦ rw e (h, ltb→lt 0 (cj.array_size arr) (and_right good _ e))
    | inr e ↦ rw e refl
  ]

  Good-try_array :
      (o : Option J) (rest : ℕ → Outcome (Option J × ℕ)) (counter : ℕ)
      → ((n : ℕ) → Ensures IsDoubleFree (GoodRecovery cj) (rest n))
      → Ensures IsDoubleFree (GoodRecovery cj) (try_array cj o rest counter)
  unfolding try_array
  Good-try_array none rest counter h = h counter
  Good-try_array (some parsed) rest counter h =
      elim (Bool-cases (cj.is_array parsed && ltb 0 (cj.array_size parsed))) [
        | inl e ↦ rw e (
            Good-recovered
              (recover_entries cj parsed (cj.array_size parsed) 0 (cj.create_array, counter))
              (Calls-recover_entries parsed (cj.array_size parsed) 0 (cj.create_array, counter)
                (Items-create_array cj laws (λ i tc. IsRecovered cj tc))))
        | inr e ↦ rw e (h counter)
      ]

  -- The recovery from any text yields nothing, or an array of calls that is not empty and each of
  -- whose items has an id, a name and arguments, or frees the parsed array twice.
  pub recover_from-GoodRecovery :
      (text : Bytes) (counter : ℕ)
      → Ensures IsDoubleFree (GoodRecovery cj) (recover_from cj text counter)
  unfolding recover_from
  recover_from-GoodRecovery [] counter = tt
  recover_from-GoodRecovery (c ∷ cs) counter = elim (Bool-cases (c == b'[')) [
    | inl e ↦ rw e (
        Good-try_array (cj.parse (c ∷ cs)) (λ n. recover_from cj cs n) counter
          (λ n. recover_from-GoodRecovery cs n))
    | inr e ↦ rw e (recover_from-GoodRecovery cs counter)
  ]

-- One entry without a name clears the flag.
module _ {J : Type 0} (cj : Cjson J) where
  no_entry :
      (entry : Option J) (s : J × ℕ) → entry_name cj entry ≡ none → recover_entry cj entry s ≡ none
  unfolding recover_entry
  no_entry entry s e = rw e refl

  recover_entries-fails :
      (parsed : J) (n i k : ℕ) (s : J × ℕ)
      → k < n
      → entry_name cj (cj.array_item parsed (i + k)) ≡ none
      → (recover_entries cj parsed n i s).0 ≡ false
  unfolding recover_entries
  recover_entries-fails parsed zero i k s lt e = absurd (omega arith)
  recover_entries-fails parsed (suc n) i zero s lt e =
      rw
        (no_entry (cj.array_item parsed i) s
          (ap (λ (m : ℕ). entry_name cj (cj.array_item parsed m)) (omega arith) ∙ e))
        refl
  recover_entries-fails parsed (suc n) i (suc k) s lt e =
      elim (Option-cases (recover_entry cj (cj.array_item parsed i) s)) [
        | inl none_is ↦ rw none_is refl
        | inr (s', some_is) ↦ rw some_is (
            recover_entries-fails parsed n (i + 1) k s' (omega arith)
              (ap (λ (m : ℕ). entry_name cj (cj.array_item parsed m)) (omega arith) ∙ e))
      ]

  -- A generation with an array that is not empty, before which no bracket stands, and that has an
  -- entry without a name, makes the recovery free the array twice.
  pub recover_from-frees_twice :
      (pre rest : Bytes) (counter k : ℕ) (parsed : J)
      → Lacks b'[' pre
      → cj.parse (b'[' ∷ rest) ≡ some parsed
      → cj.is_array parsed ≡ true
      → k < cj.array_size parsed
      → entry_name cj (cj.array_item parsed k) ≡ none
      → recover_from cj (pre ++ b'[' ∷ rest) counter ≡ fault double_free
  unfolding recover_from try_array recovered
  recover_from-frees_twice [] rest counter k parsed lacks p is_array lt e =
      rw (p, is_array, lt→ltb 0 (cj.array_size parsed) (omega arith))
        (rw
          (recover_entries-fails parsed (cj.array_size parsed) 0 k (cj.create_array, counter) lt
            (ap (λ (m : ℕ). entry_name cj (cj.array_item parsed m)) (omega arith) ∙ e))
          refl)
  recover_from-frees_twice (c ∷ pre) rest counter k parsed lacks p is_array lt e =
      rw (Lacks-head b'[' c pre lacks) (
        recover_from-frees_twice pre rest counter k parsed (Lacks-tail b'[' c pre lacks) p is_array
          lt e)
