-- ===== src/MdMemory/Store/Loop.antt =====
-- memory_store of memory/md_memory.c: the loop over all lines.
use vajra_ai.Prelude.{
  ◌≡◌, refl, sym, ap, ◌∙◌, inl, inr, ◌≤◌, true, false, not, ◌&&◌, some, List, [], ◌∷◌, ◌++◌, arith,
  length, Bool-cases, append_assoc,
}
use vajra_ai.CString.{Bytes, equal}
use vajra_ai.MdMemory.{
  line_buffer, is_heading, is_key_line, recall_heading, store_heading, StoreLoop, put_bullet,
  end_section, enter_section, recall_lines, content_lines,
}
use vajra_ai.MdMemory.Lines.{Lacks, Lacks-append, line_of, FullLines, no_lines, full_line}
use vajra_ai.MdMemory.Recall.{
  IsFact, fact_line, recall_lines-heading, recall_lines-skip, is_key_line-other,
}
use vajra_ai.MdMemory.Store.{
  HeadingsAgree, IsSection, buffer_whole, key_line-in_target, key_line-not-heading, entered,
  store_line-heading, store_line-key, store_line-keep,
}
use vajra_ai.MdMemory.Store.Front.{
  recall_front, keeps-line, keeps-plain, keeps-heading, equal_apart,
}
use vajra_ai.MdMemory.Store.Tail.{
  Stored, Stored-cons, Stored-nil, bullet_nul, hits-bullet, keeps-bullet, outside-bullet,
}

module _ (section : Bytes) {key value : Bytes} (f : IsFact key value) (p : Bytes) (ls : List Bytes)
    (one : Lacks b'\n' p) (nul : Lacks 0 p) (fits : length (line_of p) ≤ 2047) where
  line_nul : Lacks 0 (line_of p)
  line_nul = Lacks-append 0 p (b'\n' ∷ []) nul refl

  -- The line of the key is replaced.
  Stored-key :
      (s : StoreLoop)
      → is_key_line key (line_of p) s.in_target ≡ true
      → Stored section f ls (put_bullet (fact_line key value) s)
      → Stored section f (line_of p ∷ ls) s
  Stored-key s k rest =
      let plain = key_line-not-heading key (line_of p) s.in_target k in
      let whole = buffer_whole section key (fact_line key value) (line_of p) fits in
      Stored-cons section f (line_of p) (line_of (fact_line key value)) ls s _
        (store_line-key section key (fact_line key value) (line_of p) fits s plain k) refl
        (bullet_nul section f) rest
        (λ n g.
          rw (key_line-in_target key (line_of p) s.in_target k) (hits-bullet section f rest.tail))
        (λ section' key' e t.
          keeps-bullet section f section' key' rest.tail t e
          ∙ rest.keeps section' key' e t
          ∙ sym (
              recall_lines-skip section' key' (line_of p) ls t (rw whole plain)
                (rw whole (is_key_line-other key key' (line_of p) s.in_target t e k))))
        (λ section' key' e t out is.
          let inside = key_line-in_target key (line_of p) s.in_target k in
          elim (Bool-cases t) [
            | inl reads ↦ absurd (let a = out reads in cc)
            | inr outside ↦ rw outside (
                outside-bullet section f section' key' rest.tail
                ∙ rest.keeps_section section' key' e false (λ g. absurd (cc)) (λ g. absurd (cc))
                ∙ sym (
                    recall_lines-skip section' key' (line_of p) ls false (rw whole plain)
                      (unfold is_key_line in refl)))
          ])

  -- Any other line is copied.
  Stored-keep :
      (s : StoreLoop)
      → is_heading (line_of p) ≡ false
      → is_key_line key (line_of p) s.in_target ≡ false
      → Stored section f ls (record s { out = s.out ++ line_of p })
      → Stored section f (line_of p ∷ ls) s
  Stored-keep s plain k rest =
      let whole = buffer_whole section key (fact_line key value) (line_of p) fits in
      Stored-cons section f (line_of p) (line_of p) ls s _
        (store_line-keep section key (fact_line key value) (line_of p) fits s plain k) refl line_nul
        rest
        (λ n g.
          recall_front section (some key) p rest.tail s.in_target one
          ∙ recall_lines-skip section key (line_of p) (content_lines rest.tail) s.in_target
              (rw whole plain) (rw whole k)
          ∙ rest.hits n g)
        (λ section' key' e t.
          keeps-line section' key' p ls rest.tail t one (rest.keeps section' key' e))
        (λ section' key' e t out is.
          keeps-plain section' key' p ls rest.tail t one (rw whole plain)
            (rest.keeps_section section' key' e t out is))

  abbrev Agrees : Type 0
  Agrees =
      is_heading (line_of p) ≡ true
      → equal (store_heading (line_of p)) section ≡ equal (recall_heading (line_of p)) section

  abbrev at_line : StoreLoop → StoreLoop
  at_line s =
      let s' = entered section key (fact_line key value) (line_of p) fits s in
      record s' { out = s'.out ++ line_of p }

  -- A heading is not that of two sections.
  outside_next :
      (section' : Bytes)
      → is_heading (line_of p) ≡ true
      → Agrees
      → equal section section' ≡ false
      → equal (recall_heading (line_buffer (line_of p))) section' ≡ true
      → equal (store_heading (line_of p)) section ≡ false
  outside_next section' h same e reads =
      let whole = buffer_whole section key (fact_line key value) (line_of p) fits in
      elim (Bool-cases (equal (recall_heading (line_of p)) section)) [
        | inl bad ↦ absurd (
            let apart = equal_apart (recall_heading (line_of p)) section section' bad e in
            let there = ap (λ (l : Bytes). equal (recall_heading l) section') (sym whole) ∙ reads in
            cc)
        | inr other ↦ same h ∙ other
      ]

  -- A heading of a section behind which nothing is owed.
  Stored-heading :
      (s : StoreLoop)
      → is_heading (line_of p) ≡ true
      → Agrees
      → s.in_target && not s.key_written ≡ false
      → Stored section f ls (at_line s)
      → Stored section f (line_of p ∷ ls) s
  unfolding end_section enter_section
  Stored-heading s h same owed rest =
      let whole = buffer_whole section key (fact_line key value) (line_of p) fits in
      Stored-cons section f (line_of p) (line_of p) ls s _
        (store_line-heading section key (fact_line key value) (line_of p) fits s h) (rw owed refl)
        line_nul rest
        (λ n g.
          let outside : s.in_target ≡ false = ground arith in
          recall_front section (some key) p rest.tail s.in_target one
          ∙ recall_lines-heading section (some key) (line_of p) (content_lines rest.tail)
              s.in_target (rw whole h)
          ∙ ap (recall_lines section (some key) (content_lines rest.tail))
              (ap (λ (l : Bytes). equal (recall_heading l) section) whole ∙ sym (same h))
          ∙ rest.hits (rw owed n) (rw (owed, g ∙ outside) refl))
        (λ section' key' e t.
          keeps-line section' key' p ls rest.tail t one (rest.keeps section' key' e))
        (λ section' key' e t out is. keeps-heading section' key' p ls rest.tail t one (rw whole h) (
          rest.keeps_section section' key' e _ (λ reads. outside_next section' h same e reads)
            (λ n.
              let k = (rw owed at n) in
              let g = is k in
              let outside : s.in_target ≡ false = ground arith in rw (owed, g ∙ outside) refl)))

  -- A heading at the end of the section, behind which the fact is written first.
  Stored-owed :
      (s : StoreLoop)
      → is_heading (line_of p) ≡ true
      → Agrees
      → s.in_target && not s.key_written ≡ true
      → Stored section f ls (at_line s)
      → Stored section f (line_of p ∷ ls) s
  unfolding end_section enter_section
  Stored-owed s h same owed rest =
      let whole = buffer_whole section key (fact_line key value) (line_of p) fits in
      let bullet = fact_line key value in
      let split : (tail : Bytes)
          → content_lines ((line_of bullet ++ line_of p) ++ tail)
            ≡ content_lines (line_of bullet ++ (line_of p ++ tail)) =
        λ tail. ap content_lines (append_assoc (line_of bullet) (line_of p) tail) in
      let inside : s.in_target ≡ true = ground arith in
      Stored-cons section f (line_of p) (line_of bullet ++ line_of p) ls s _
        (store_line-heading section key bullet (line_of p) fits s h)
        (rw owed (append_assoc s.out (line_of bullet) (line_of p)))
        (Lacks-append 0 (line_of bullet) (line_of p) (bullet_nul section f) line_nul) rest
        (λ n g. rw (split rest.tail, inside) (hits-bullet section f (line_of p ++ rest.tail)))
        (λ section' key' e t. rw (split rest.tail) (
          keeps-bullet section f section' key' (line_of p ++ rest.tail) t e
          ∙ keeps-line section' key' p ls rest.tail t one (rest.keeps section' key' e)))
        (λ section' key' e t out is. elim (Bool-cases t) [
          | inl reads ↦ absurd (let a = out reads in cc)
          | inr outside ↦
              rw (split rest.tail, outside)
                (outside-bullet section f section' key' (line_of p ++ rest.tail)
                  ∙ keeps-heading section' key' p ls rest.tail false one (rw whole h) (
                      rest.keeps_section section' key' e _
                        (λ reads. outside_next section' h same e reads)
                        (λ n. absurd (let bad = (rw owed at n) in cc))))
        ])

  -- Any line.
  Stored-line :
      (s : StoreLoop)
      → Agrees
      → ((s' : StoreLoop) → Stored section f ls s')
      → Stored section f (line_of p ∷ ls) s
  Stored-line s same rest = elim (Bool-cases (is_heading (line_of p))) [
    | inl h ↦ elim (Bool-cases (s.in_target && not s.key_written)) [
      | inl owed ↦ Stored-owed s h same owed (rest (at_line s))
      | inr owed ↦ Stored-heading s h same owed (rest (at_line s))
    ]
    | inr plain ↦ elim (Bool-cases (is_key_line key (line_of p) s.in_target)) [
      | inl k ↦ Stored-key s k (rest (put_bullet (fact_line key value) s))
      | inr k ↦ Stored-keep s plain k (rest (record s { out = s.out ++ line_of p }))
    ]
  ]

module _ (section : Bytes) {key value : Bytes} (f : IsFact key value)
    (sec : IsSection section) where
  pub Stored-lines :
      (ls : List Bytes)
      → FullLines ls
      → HeadingsAgree section ls
      → (s : StoreLoop) → Stored section f ls s
  Stored-lines [] no_lines h s = Stored-nil section f sec s
  Stored-lines _ (full_line p ls one nul fits full) (same, h) s =
      Stored-line section f p ls one nul fits s same (Stored-lines ls full h)
