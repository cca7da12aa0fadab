-- ===== src/Gateway/Request.antt =====
-- gateway/gateway.c: reading a request. What stands in the buffer behind the bytes that are read is
-- what malloc() has left there: an argument, up to its first NUL.
use vajra_ai.Prelude.{
  ◌≡◌, refl, sym, ap, ◌∙◌, inl, inr, ℕ, zero, suc, ◌+◌, ◌-◌, ◌^◌, ◌%◌, ◌≤◌, Bool, true, false, ◌||◌,
  Option, none, some, List, [], ◌∷◌, ◌++◌, arith, ltb, leb, ◌==◌, if◌then◌else◌, length, take, drop,
  length-append, length-take, Bool-cases, le→leb, leb→le, leb-false→lt, take-append-drop,
  take-eq_of_le, append_assoc,
}
use vajra_ai.Prelude.Int.{ℤ, pos, negsuc}
use vajra_ai.CString.{Bytes, codes, is_space, strstr, until_nul, has_prefix_nocase, skip_space}
use vajra_ai.CString.Number.{scan_int}
use vajra_ai.MdMemory.{cut_at}

-- GATEWAY_RECV_BUF - 1 and GATEWAY_BODY_LIMIT
abbrev pub recv_room : ℕ
recv_room = 65535

abbrev pub body_limit : ℕ
body_limit = 32768

-- strcasestr(s, p): the text from the first occurrence on.
unfoldable pub strcasestr : Bytes → Bytes → Option Bytes
unfolding has_prefix_nocase
strcasestr [] p = if has_prefix_nocase [] p then some [] else none
strcasestr (c ∷ cs) p = if has_prefix_nocase (c ∷ cs) p then some (c ∷ cs) else strcasestr cs p

-- strtol(s, NULL, 10), without the bounds of long, which lie outside those of the two tests.
abbrev strtol : Option (ℤ × Bytes) → ℤ
strtol none = pos 0
strtol (some (n, _)) = n

-- Is the body there that the header announces? `total - hdr_bytes` is a size_t.
unfoldable pub has_body : ℕ → ℕ → ℤ → Bool
has_body total hdr_bytes (negsuc n) = true
has_body total hdr_bytes (pos n) =
    n == 0 || ltb body_limit n || leb n ((total + 2 ^ 64 - hdr_bytes) % 2 ^ 64)

unfoldable pub length_reached : ℕ → ℕ → Option Bytes → Bool
unfolding has_body scan_int
length_reached total hdr_bytes none = true
length_reached total hdr_bytes (some field) =
    has_body total hdr_bytes (strtol (scan_int (drop 15 field)))

unfoldable pub header_reached : ℕ → Bytes → Option (Bytes × Bytes) → Bool
unfolding length_reached strcasestr
header_reached total text none = false
header_reached total text (some (head, _)) =
    length_reached total (length head + 4) (strcasestr text (codes "Content-Length:"))

-- The tests behind a read, on what strstr() sees.
unfoldable pub is_complete : (ℕ → Bytes) → Bytes → Bool
unfolding header_reached until_nul strstr
is_complete behind received =
    let text = until_nul (received ++ behind (length received)) in
    header_reached (length received) text (strstr text (codes "\r\n\r\n"))

-- The loop over the pieces that read() yields, each cut to the room that is left; the last one is
-- followed by the end of the stream.
unfoldable pub read_loop : (ℕ → Bytes) → List Bytes → Bytes → Bytes
unfolding is_complete
read_loop behind [] received = received
read_loop behind (piece ∷ pieces) received =
    let received' = received ++ take (recv_room - length received) piece in
    let more = read_loop behind pieces received' in
    if leb recv_room (length received)
    then received
    else if length piece == 0
    then received
    else if is_complete behind received'
    then received'
    else more

-- The request as a C string; NULL if nothing came.
unfoldable pub read_request : (ℕ → Bytes) → List Bytes → Option Bytes
unfolding read_loop until_nul
read_request behind pieces =
    let received = read_loop behind pieces [] in
    if length received == 0 then none else some (until_nul received)

abbrev behind_separator : Option (Bytes × Bytes) → Option Bytes
behind_separator none = none
behind_separator (some (_, sep)) = some (drop 4 sep)

unfoldable pub request_body : Bytes → Option Bytes
unfolding strstr
request_body buf = behind_separator (strstr buf (codes "\r\n\r\n"))

-- `%15s` behind the white space: at most so many bytes that are no white space, and the rest.
unfoldable pub scan_token : ℕ → Bytes → Bytes × Bytes
unfolding is_space
scan_token zero s = ([], s)
scan_token (suc room) [] = ([], [])
scan_token (suc room) (c ∷ cs) =
    let (token, rest) = scan_token room cs in if is_space c then ([], c ∷ cs) else (c ∷ token, rest)

-- The method and the path, up to its question mark.
unfoldable pub request_line : Bytes → Bytes × Bytes
unfolding scan_token skip_space cut_at
request_line raw =
    let (method, rest) = scan_token 15 (skip_space raw) in
    let (path, _) = scan_token 255 (skip_space rest) in (method, cut_at b'?' path)

-- All that came.
pub joined_pieces : List Bytes → Bytes
joined_pieces [] = []
joined_pieces (p ∷ ps) = p ++ joined_pieces ps

-- A start of a text that fits the buffer with its NUL.
pub record FitsStart (whole s : Bytes) : Type 0 where
  pub rest : Bytes
  pub splits : whole ≡ s ++ rest
  pub fits : length s ≤ recv_room

read_loop-full :
    (behind : ℕ → Bytes) (pieces : List Bytes) (received : Bytes)
    → recv_room ≤ length received
    → read_loop behind pieces received ≡ received
unfolding read_loop
read_loop-full behind [] received h = refl
read_loop-full behind (piece ∷ pieces) received h = rw (le→leb recv_room (length received) h) refl

length-cut :
    (received piece : Bytes)
    → length received ≤ recv_room
    → length (received ++ take (recv_room - length received) piece) ≤ recv_room
length-cut received piece h = omega (
  arith,
  length-append received (take (recv_room - length received) piece),
  length-take (recv_room - length received) piece,
)

cut_splits :
    (received piece rest : Bytes) (k : ℕ)
    → received ++ (piece ++ rest) ≡ (received ++ take k piece) ++ (drop k piece ++ rest)
cut_splits received piece rest k =
    ap (λ (t : Bytes). received ++ (t ++ rest)) (sym (take-append-drop k piece))
    ∙ ap (λ (t : Bytes). received ++ t) (append_assoc (take k piece) (drop k piece) rest)
    ∙ sym (append_assoc received (take k piece) (drop k piece ++ rest))

-- Where a piece is cut, the buffer is full and the loop ends.
goes_on :
    (behind : ℕ → Bytes) (pieces : List Bytes) (received piece : Bytes)
    → length received ≤ recv_room
    → FitsStart
        (received ++ (piece ++ joined_pieces pieces))
        (received ++ take (recv_room - length received) piece)
    → FitsStart
        ((received ++ take (recv_room - length received) piece) ++ joined_pieces pieces)
        (read_loop behind pieces (received ++ take (recv_room - length received) piece))
    → FitsStart
        (received ++ (piece ++ joined_pieces pieces))
        (read_loop behind pieces (received ++ take (recv_room - length received) piece))
goes_on behind pieces received piece h cut more =
    let k = recv_room - length received in
    elim (Bool-cases (leb recv_room (length (received ++ take k piece)))) [
      | inl full ↦
          rw
            (read_loop-full behind pieces (received ++ take k piece)
              (leb→le recv_room (length (received ++ take k piece)) full))
            cut
      | inr room ↦
          let whole : take k piece ≡ piece = take-eq_of_le k piece (
            omega (
              arith,
              leb-false→lt recv_room (length (received ++ take k piece)) room,
              length-append received (take k piece),
              length-take k piece,
            )) in
          record {
            rest = more.rest;
            splits =
                sym (append_assoc received piece (joined_pieces pieces))
                ∙ ap (λ (t : Bytes). (received ++ t) ++ joined_pieces pieces) (sym whole)
                ∙ more.splits;
            fits = more.fits;
          }
    ]

read_loop-FitsStart :
    (behind : ℕ → Bytes) (pieces : List Bytes) (received : Bytes)
    → length received ≤ recv_room
    → FitsStart (received ++ joined_pieces pieces) (read_loop behind pieces received)
unfolding read_loop joined_pieces
read_loop-FitsStart behind [] received h = record { rest = []; splits = refl; fits = h }
read_loop-FitsStart behind (piece ∷ pieces) received h =
    let k = recv_room - length received in
    let rest = joined_pieces pieces in
    let received' = received ++ take k piece in
    let cut : FitsStart (received ++ (piece ++ rest)) received' = record {
      rest = drop k piece ++ rest;
      splits = cut_splits received piece rest k;
      fits = length-cut received piece h;
    } in
    let same : FitsStart (received ++ (piece ++ rest)) received = record {
      rest = piece ++ rest;
      splits = refl;
      fits = h;
    } in
    elim (Bool-cases (leb recv_room (length received))) [
      | inl full ↦ rw full same
      | inr room ↦ elim (Bool-cases (length piece == 0)) [
        | inl none_left ↦ rw (room, none_left) same
        | inr there ↦ elim (Bool-cases (is_complete behind received')) [
          | inl whole ↦ rw (room, there, whole) cut
          | inr part ↦
              rw (room, there, part)
                (goes_on behind pieces received piece h cut
                  (read_loop-FitsStart behind pieces received' (length-cut received piece h)))
        ]
      ]
    ]

of_some : (b : Bool) (s raw : Bytes) → (if b then none else some s) ≡ some raw → raw ≡ s
of_some true s raw h = cc
of_some false s raw h = cc

-- The request that is read is a start of what the connection sends, up to its first NUL, and fits the
-- buffer, whatever stood in the buffer before.
pub read_request-FitsStart :
    (behind : ℕ → Bytes) (pieces : List Bytes) (raw : Bytes)
    → read_request behind pieces ≡ some raw
    → (received : Bytes) × (raw ≡ until_nul received) × FitsStart (joined_pieces pieces) received
unfolding read_request
read_request-FitsStart behind pieces raw h =
    let received = read_loop behind pieces [] in
    (received, of_some _ _ raw h, read_loop-FitsStart behind pieces [] (omega arith))
