-- ===== src/Types/StrBuf.antt =====
-- The growing string buffer of core/types.c. `size_t` is 64 bits wide and wraps. A failed
-- allocation ends the process (`abort`), so every state here is one behind a successful one.
use native.Mathlib.Nat.{pow-suc, mul_assoc, mul_comm}
use mathlib.Core.Option
use vajra_ai.Prelude.{
  inl, inr, ltb→lt, ◌≡◌, refl, ap, ◌∙◌, ℕ, zero, suc, ◌+◌, ◌*◌, ◌%◌, ◌^◌, ◌≤◌, ◌<◌, Option, none,
  some, [], ◌++◌, arith, ltb, ◌==◌, if◌then◌else◌, length, take, length-append, Bool-cases,
}
use vajra_ai.CString.{Bytes}

-- `strbuf_t`: the bytes of `data` up to its NUL, the length field and the allocated size.
pub record StrBuf : Type 0 where
  pub data_bytes : Bytes
  pub len : ℕ
  pub cap : ℕ

abbrev pub size_mod : ℕ
size_mod = 2 ^ 64

unfoldable pub strbuf_init : ℕ → StrBuf
strbuf_init initial_cap = record {
  data_bytes = [];
  len = 0;
  cap = if ltb 0 initial_cap then initial_cap else 256;
}

-- `while (need > cap) cap *= 2`; `none` means that the fuel ran out.
unfoldable pub grow : ℕ → ℕ → ℕ → Option ℕ
grow zero need cap = none
grow (suc fuel) need cap =
    let rest = grow fuel need ((cap * 2) % size_mod) in if ltb cap need then rest else some cap

-- The doublings of a `size_t` above 0 that reach any size which fits: 64, and one last test.
abbrev pub grow_fuel : ℕ
grow_fuel = 65

-- The common end of `strbuf_append` and `strbuf_append_len`: room, `memcpy`, and the NUL.
abbrev stored : StrBuf → Bytes → ℕ → ℕ → StrBuf
stored sb bytes n cap = record {
  data_bytes = sb.data_bytes ++ bytes;
  len = (sb.len + n) % size_mod;
  cap = cap;
}

unfoldable pub put_bytes : StrBuf → Bytes → ℕ → Option StrBuf
put_bytes sb bytes n =
    Option.map (stored sb bytes n) (grow grow_fuel ((sb.len + n + 1) % size_mod) sb.cap)

unfoldable pub strbuf_append : StrBuf → Bytes → Option StrBuf
unfolding put_bytes
strbuf_append sb str = put_bytes sb str (length str)

-- `str` may be NULL; it has at least `len` bytes.
unfoldable pub strbuf_append_len : StrBuf → Option Bytes → ℕ → Option StrBuf
unfolding put_bytes
strbuf_append_len sb none len = some sb
strbuf_append_len sb (some str) len = if len == 0 then some sb else put_bytes sb (take len str) len

unfoldable pub strbuf_clear : StrBuf → StrBuf
strbuf_clear sb = record sb { data_bytes = []; len = 0 }

-- The buffer holds its text and the NUL behind it.
pub record IsValid (sb : StrBuf) : Type 0 where
  pub len_is : sb.len ≡ length sb.data_bytes
  pub room : sb.len < sb.cap
  pub fits : sb.cap < size_mod

pub strbuf_init-IsValid : (n : ℕ) → n < size_mod → IsValid (strbuf_init n)
unfolding strbuf_init
strbuf_init-IsValid n h = ground arith

double_pow : (need cap fuel : ℕ) → need ≤ cap * 2 ^ suc fuel → need ≤ cap * 2 * 2 ^ fuel
double_pow need cap fuel h = omega (
  arith,
  h,
  ap (λ (t : ℕ). cap * t) (pow-suc 2 fuel),
  mul_assoc cap 2 (2 ^ fuel),
  mul_comm (2 ^ fuel) 2,
)

-- The result of the loop: enough room, in a `size_t`.
abbrev Grown : ℕ → ℕ → Option ℕ → Type 0
Grown need cap none = ⊥
Grown need cap (some c) = (need ≤ c) × (cap ≤ c) × (c < size_mod)

Grown-weaken :
    (need cap cap' : ℕ) (o : Option ℕ) → cap ≤ cap' → Grown need cap' o → Grown need cap o
Grown-weaken need cap cap' none h g = g
Grown-weaken need cap cap' (some c) h g = omega arith

from_Grown :
    (need cap : ℕ) (o : Option ℕ)
    → Grown need cap o
    → (c : ℕ) × (o ≡ some c) × (need ≤ c) × (cap ≤ c) × (c < size_mod)
from_Grown need cap none g = absurd g
from_Grown need cap (some c) g = (c, refl, g.0, g.1, g.2)

Grown-grow :
    (fuel need cap : ℕ)
    → 0 < cap
    → cap < size_mod
    → need ≤ 2 ^ 63
    → need ≤ cap * 2 ^ fuel
    → Grown need cap (grow (suc fuel) need cap)
unfolding grow
Grown-grow zero need cap p f h r = elim (Bool-cases (ltb cap need)) [
  | inl e ↦ absurd (omega (arith, ltb→lt cap need e))
  | inr e ↦ rw e (ground arith)
]
Grown-grow (suc fuel) need cap p f h r = elim (Bool-cases (ltb cap need)) [
  | inl e ↦
      let small : cap * 2 < size_mod = omega (arith, ltb→lt cap need e) in
      let same : (cap * 2) % size_mod ≡ cap * 2 = omega arith in
      rw e (
        rw same (
          Grown-weaken need cap (cap * 2) _ (omega arith)
            (Grown-grow fuel need (cap * 2) (omega arith) small h (double_pow need cap fuel r))))
  | inr e ↦ rw e (ground arith)
]

-- The doubling loop ends within its fuel, with the room that is asked for.
pub grow_total :
    (need cap : ℕ)
    → 0 < cap
    → cap < size_mod
    → need ≤ 2 ^ 63
    → (c : ℕ) × (grow grow_fuel need cap ≡ some c) × (need ≤ c) × (cap ≤ c) × (c < size_mod)
grow_total need cap p f h = from_Grown need cap _ (Grown-grow 64 need cap p f h (grind arith))

stored_lem :
    (sb : StrBuf) (bytes : Bytes) (n c : ℕ)
    → n ≡ length bytes
    → IsValid sb
    → sb.len + n + 1 ≤ c
    → c < size_mod
    → IsValid (stored sb bytes n c)
stored_lem sb bytes n c e v room fits = record {
  len_is = omega (arith, length-append sb.data_bytes bytes, v.len_is);
  room = omega arith;
  fits = fits;
}

put_bytes_lem :
    (sb : StrBuf) (bytes : Bytes) (n : ℕ)
    → n ≡ length bytes
    → IsValid sb
    → sb.len + n + 1 ≤ 2 ^ 63
    → (sb' : StrBuf) × (put_bytes sb bytes n ≡ some sb')
      × (sb'.data_bytes ≡ sb.data_bytes ++ bytes)
      × (sb.cap ≤ sb'.cap)
      × IsValid sb'
unfolding put_bytes
put_bytes_lem sb bytes n e v h =
    let need : (sb.len + n + 1) % size_mod ≡ sb.len + n + 1 = omega arith in
    let (c, g, room, keep, fits) =
      grow_total (sb.len + n + 1) sb.cap (omega (arith, v.room)) v.fits h in
    (
      stored sb bytes n c,
      ap (λ (t : ℕ). Option.map (stored sb bytes n) (grow grow_fuel t sb.cap)) need
          ∙ ap (Option.map (stored sb bytes n)) g,
      refl,
      keep,
      stored_lem sb bytes n c e v room fits,
    )

-- Appending to a valid buffer succeeds for every text that leaves the size within 2^63 bytes. The
-- loop ends, the new text is the old one followed by the argument, the allocation never shrinks,
-- and the buffer stays valid: the length field is the text's length, and the NUL has its place.
pub strbuf_append_lem :
    (sb : StrBuf) (str : Bytes)
    → IsValid sb
    → sb.len + length str + 1 ≤ 2 ^ 63
    → (sb' : StrBuf) × (strbuf_append sb str ≡ some sb')
      × (sb'.data_bytes ≡ sb.data_bytes ++ str)
      × (sb.cap ≤ sb'.cap)
      × IsValid sb'
unfolding strbuf_append
strbuf_append_lem sb str v h = put_bytes_lem sb str (length str) refl v h
