-- ===== src/MdMemory/Limits.antt =====
-- memory/md_memory.c at its limits: the line buffer of 2048 bytes, and the cap of 256 KB.
use vajra_ai.Prelude.{
  ◌≡◌, refl, ap, ◌∙◌, inl, inr, ℕ, zero, suc, ◌≤◌, ◌<◌, true, false, Option, none, some, List, [],
  ◌∷◌, ◌++◌, arith, leb, ◌==◌, length, take, Bool-cases, lt→ltb, lt→leb-false, leb-false→lt,
}
use vajra_ai.CString.{Bytes, codes, contains_nocase, until_nul}
use vajra_ai.Memory.{out_of_bounds, Outcome, done, fault, ◌>>=◌}
use vajra_ai.Types.{result_ok}
use vajra_ai.Templates.{FileTable, content_at}
use vajra_ai.MdMemory.{
  max_file_size, canonicalise_section, read_memory_file, Rights, write_memory_file, content_lines,
  line_buffer, is_bullet, is_key_line, copied, StoreLoop, at_heading, put_line, keep_or_replace,
  store_line, store_lines, store_rest, before_lines, stored_text, bullet_of, MdMemory, memory_store,
  memory_search, search_lines, capped_content,
}
use vajra_ai.MdMemory.Lines.{line_of}
use vajra_ai.MdMemory.Store.{not-key_line}
use vajra_ai.MdMemory.Write.{written, content_at-set_content, write_memory_file_lem}

-- Every line fits with its NUL, or is one byte longer.
abbrev pub ShortLines : List Bytes → Type 0
ShortLines [] = Unit {0}
ShortLines (l ∷ ls) = (length l ≤ 2048) × ShortLines ls

-- The outcome is a value.
abbrev pub Returns {ℓ} : {A : Type ℓ} → Outcome A → Type 0
Returns (done a) = Unit {0}
Returns (fault e) = ⊥

Returns-bind {ℓ κ} :
    {A : Type ℓ} {B : Type κ} (m : Outcome A) (f : A → Outcome B)
    → Returns m
    → ((a : A) → Returns (f a))
    → Returns (m >>= f)
Returns-bind (done a) f h k = k a
Returns-bind (fault e) f h k = absurd h

pub from_Returns {ℓ} : {A : Type ℓ} (m : Outcome A) → Returns m → (a : A) × (m ≡ done a)
from_Returns (done a) h = (a, refl)
from_Returns (fault e) h = absurd h

Returns-copied : (l : Bytes) → length l ≤ 2048 → Returns (copied l)
unfolding copied
Returns-copied l h = elim (Bool-cases (leb (length l) 2047)) [
  | inl e ↦ rw e tt
  | inr e ↦ rw e (
      let full : (length l == 2048) ≡ true = ground (arith, leb-false→lt (length l) 2047 e) in
      rw full tt)
]

Returns-store_line :
    (section key bullet l : Bytes) (s : StoreLoop)
    → length l ≤ 2048
    → Returns (store_line section key bullet l s)
unfolding store_line keep_or_replace put_line
Returns-store_line section key bullet l s h =
    let s' = at_heading section bullet (line_buffer l) s in
    elim (Bool-cases (is_key_line key (line_buffer l) s'.in_target)) [
      | inl e ↦ rw e tt
      | inr e ↦ rw e (Returns-bind (copied l) _ (Returns-copied l h) (λ bytes. tt))
    ]

Returns-store_lines :
    (section key bullet : Bytes) (ls : List Bytes) (s : StoreLoop)
    → ShortLines ls
    → Returns (store_lines section key bullet ls s)
unfolding store_lines
Returns-store_lines section key bullet [] s h = tt
Returns-store_lines section key bullet (l ∷ ls) s (h, hs) =
    Returns-bind (store_line section key bullet l s) _ (Returns-store_line section key bullet l s h)
      (λ s'. Returns-store_lines section key bullet ls s' hs)

Returns-search_lines :
    (query : Bytes) (ls : List Bytes) (n : ℕ) → ShortLines ls → Returns (search_lines query ls n)
unfolding search_lines
Returns-search_lines query [] zero h = tt
Returns-search_lines query [] (suc n) h = tt
Returns-search_lines query (l ∷ ls) n (h, hs) =
    elim (Bool-cases (contains_nocase (line_buffer l) query)) [
      | inl e ↦ rw e (
          Returns-bind (copied l) _ (Returns-copied l h) (λ bytes.
            Returns-bind (search_lines query ls (suc n)) _
              (Returns-search_lines query ls (suc n) hs) (λ later. tt)))
      | inr e ↦ rw e (Returns-search_lines query ls n hs)
    ]

pub Returns-stored_text :
    (section key bullet content : Bytes)
    → ShortLines (content_lines content)
    → Returns (stored_text section key bullet content)
unfolding stored_text
Returns-stored_text section key bullet content h =
    Returns-bind (store_lines section key bullet (content_lines content) before_lines) _
      (Returns-store_lines section key bullet (content_lines content) before_lines h) (λ s. tt)

Returns-memory_store :
    (rights : Rights) (mem : MdMemory) (category key value : Option Bytes) (files : FileTable)
    → ShortLines (content_lines (read_memory_file mem.path files))
    → Returns (memory_store rights mem category key value files)
unfolding memory_store
Returns-memory_store rights mem category none v files h = tt
Returns-memory_store rights mem category (some []) v files h = tt
Returns-memory_store rights mem category (some (c ∷ cs)) none files h = tt
Returns-memory_store rights mem category (some (c ∷ cs)) (some v) files h =
    Returns-bind
      (stored_text (canonicalise_section category) (c ∷ cs) (bullet_of (c ∷ cs) v)
        (read_memory_file mem.path files))
      _
      (Returns-stored_text (canonicalise_section category) (c ∷ cs) (bullet_of (c ∷ cs) v)
        (read_memory_file mem.path files) h)
      (λ out. tt)

-- Where no line of the file is longer than 2048 bytes, memory_store and memory_search return for
-- every category, key, value and query.
pub memory_store-Returns :
    (rights : Rights) (mem : MdMemory) (category key value : Option Bytes) (query : Bytes)
    (files : FileTable)
    → ShortLines (content_lines (read_memory_file mem.path files))
    → Returns (memory_store rights mem category key value files)
      × Returns (memory_search mem query files)
unfolding memory_search
memory_store-Returns rights mem category key value query files h =
    let ls = content_lines (read_memory_file mem.path files) in
    (
      Returns-memory_store rights mem category key value files h,
      Returns-bind (search_lines query ls 0) _ (Returns-search_lines query ls 0 h) (λ text. tt),
    )

lt→==-false : (a b : ℕ) → b < a → (a == b) ≡ false
lt→==-false a b h = ground arith

copied-long : (l : Bytes) → 2048 < length l → copied l ≡ fault out_of_bounds
unfolding copied
copied-long l h =
    rw (lt→leb-false 2047 (length l) (omega arith), lt→==-false (length l) 2048 h) refl

store_line-long :
    (section key bullet l : Bytes) (s : StoreLoop)
    → 2048 < length l
    → is_bullet (line_buffer l) ≡ false
    → store_line section key bullet l s ≡ fault out_of_bounds
unfolding store_line keep_or_replace put_line
store_line-long section key bullet l s h plain =
    let s' = at_heading section bullet (line_buffer l) s in
    rw (not-key_line key (line_buffer l) s'.in_target plain) (
      ap (λ (o : Outcome Bytes). o >>= λ bytes. done (record s' { out = s'.out ++ bytes }))
        (copied-long l h))

store_lines-long :
    (section key bullet l : Bytes) (pre post : List Bytes) (s : StoreLoop)
    → ShortLines pre
    → 2048 < length l
    → is_bullet (line_buffer l) ≡ false
    → store_lines section key bullet (pre ++ l ∷ post) s ≡ fault out_of_bounds
unfolding store_lines
store_lines-long section key bullet l [] post s h long plain =
    rw (store_line-long section key bullet l s long plain) refl
store_lines-long section key bullet l (p ∷ pre) post s (h, hs) long plain =
    let (s', runs) =
      from_Returns (store_line section key bullet p s)
        (Returns-store_line section key bullet p s h) in
    rw runs (store_lines-long section key bullet l pre post s' hs long plain)

-- A line of more than 2048 bytes that is no bullet, behind lines that are shorter, makes memory_store
-- read past its line buffer, for every key that is not empty and every value.
pub memory_store-overruns :
    (rights : Rights) (mem : MdMemory) (category : Option Bytes) (c : ℕ) (cs value : Bytes)
    (files : FileTable) (pre : List Bytes) (l : Bytes) (post : List Bytes)
    → content_lines (read_memory_file mem.path files) ≡ pre ++ l ∷ post
    → ShortLines pre
    → 2048 < length l
    → is_bullet (line_buffer l) ≡ false
    → memory_store rights mem category (some (c ∷ cs)) (some value) files ≡ fault out_of_bounds
unfolding memory_store stored_text
memory_store-overruns rights mem category c cs value files pre l post e h long plain =
    rw
      (
        e,
        store_lines-long (canonicalise_section category) (c ∷ cs) (bullet_of (c ∷ cs) value) l pre
            post before_lines h long plain,
      )
      refl

module _ (rights : Rights) (mem : MdMemory) (category : Option Bytes) (c : ℕ) (cs value : Bytes)
    (files : FileTable) where
  abbrev only_section : Bytes
  only_section =
      b'\n'
      ∷ (codes "## "
          ++ (canonicalise_section category ++ b'\n' ∷ b'\n' ∷ line_of (bullet_of (c ∷ cs) value)))

  read_too_long :
      (content : Bytes)
      → content_at files mem.path ≡ some content
      → max_file_size < length content
      → read_memory_file mem.path files ≡ []
  unfolding read_memory_file capped_content
  read_too_long content there long = rw (there, lt→ltb max_file_size (length content) long) refl

  stored_in_nothing :
      stored_text (canonicalise_section category) (c ∷ cs) (bullet_of (c ∷ cs) value) []
      ≡ done only_section
  unfolding stored_text store_lines store_rest content_lines
  stored_in_nothing = refl

  store_lem :
      read_memory_file mem.path files ≡ []
      → memory_store rights mem category (some (c ∷ cs)) (some value) files
        ≡ done (write_memory_file rights mem.path only_section files)
  unfolding memory_store
  store_lem e =
      ap (λ (o : Outcome Bytes). o >>= λ out. done (write_memory_file rights mem.path out files))
        (ap (stored_text (canonicalise_section category) (c ∷ cs) (bullet_of (c ∷ cs) value)) e
          ∙ stored_in_nothing)

  -- Storing into a file that is longer than 256 KB drops all that the file held: if the file can be
  -- written, it holds afterwards a blank line, the one section, and the one bullet.
  pub memory_store_drops :
      (content : Bytes)
      → rights.can_create (take 519 (mem.path ++ codes ".tmp")) ≡ true
      → rights.can_rename mem.path ≡ true
      → content_at files mem.path ≡ some content
      → max_file_size < length content
      → (files' : FileTable) × (memory_store rights mem category (some (c ∷ cs)) (some value) files
          ≡ done (result_ok, files'))
        × (content_at files' mem.path ≡ some (until_nul only_section))
  memory_store_drops content creates renames there long = (
    written rights mem.path only_section files creates renames,
    store_lem (read_too_long content there long)
        ∙ ap done (write_memory_file_lem rights mem.path only_section files creates renames),
    content_at-set_content _ mem.path (until_nul only_section),
  )
