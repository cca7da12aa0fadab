-- ===== src/Http/Body.antt =====
-- providers/http_client.c: the body of a response is what has arrived.
use vajra_ai.Prelude.{
  ℕ, ◌+◌, ◌%◌, ◌^◌, ◌≤◌, ◌<◌, ◌≡◌, refl, sym, ap, ◌∙◌, Option, none, some, List, [], ◌∷◌, ◌++◌,
  arith, length, length-append, append_assoc, append-nil,
}
use vajra_ai.Prelude.Int.{ℤ}
use vajra_ai.CString.{Bytes}
use vajra_ai.Types.StrBuf.{size_mod, grow, grow_fuel, grow_total}
use vajra_ai.Http.{
  WriteBuf, request_buf, start_cap, stored_piece, write_callback, write_or_none, write_all, Request,
  Transfer, delivered, HttpResponse, stored_status, with_body, respond_to, perform,
  http_post_json_auth_ex,
}

-- The buffer holds its bytes and the NUL behind them.
pub record IsValid (buf : WriteBuf) : Type 0 where
  pub len_is : buf.len ≡ length buf.data_bytes
  pub room : buf.len < buf.cap
  pub fits : buf.cap < size_mod

abbrev pub concat : List Bytes → Bytes
concat [] = []
concat (p ∷ ps) = p ++ concat ps

write_callback_lem :
    (buf : WriteBuf) (piece : Bytes)
    → IsValid buf
    → buf.len + length piece + 1 ≤ 2 ^ 63
    → (buf' : WriteBuf) × (write_callback buf piece ≡ some buf')
      × (buf'.data_bytes ≡ buf.data_bytes ++ piece)
      × IsValid buf'
unfolding write_callback stored_piece
write_callback_lem buf piece v h =
    let need : (buf.len + length piece + 1) % size_mod ≡ buf.len + length piece + 1 = omega arith in
    let start : start_cap buf ≡ buf.cap = ground (arith, v.room) in
    let (c, g, room, keep, fits) =
      grow_total (buf.len + length piece + 1) buf.cap (omega (arith, v.room)) v.fits h in
    (
      record {
        data_bytes = buf.data_bytes ++ piece;
        len = (buf.len + length piece) % size_mod;
        cap = c;
      },
      ap (λ (t : ℕ). stored_piece buf piece (grow grow_fuel t (start_cap buf))) need
          ∙ ap (λ (t : ℕ). stored_piece buf piece (grow grow_fuel (buf.len + length piece + 1) t))
              start
          ∙ ap (stored_piece buf piece) g,
      refl,
      record {
        len_is = omega (arith, length-append buf.data_bytes piece, v.len_is);
        room = omega arith;
        fits = fits;
      },
    )

write_all_lem :
    (buf : WriteBuf) (pieces : List Bytes)
    → IsValid buf
    → length buf.data_bytes + length (concat pieces) + 1 ≤ 2 ^ 63
    → (buf' : WriteBuf) × (write_all (some buf) pieces ≡ some buf')
      × (buf'.data_bytes ≡ buf.data_bytes ++ concat pieces)
      × IsValid buf'
unfolding write_all write_or_none
write_all_lem buf [] v h = (buf, refl, sym (append-nil buf.data_bytes), v)
write_all_lem buf (p ∷ ps) v h =
    let total = length-append p (concat ps) in
    let (next, e, bytes, valid) = write_callback_lem buf p v (omega (arith, v.len_is, total)) in
    let longer : length next.data_bytes ≡ length buf.data_bytes + length p =
      ap length bytes ∙ length-append buf.data_bytes p in
    let (final, f, rest, valid') = write_all_lem next ps valid (omega (arith, longer, total)) in
    (
      final,
      ap (λ (o : Option WriteBuf). write_all o ps) e ∙ f,
      rest ∙ ap (λ (t : Bytes). t ++ concat ps) bytes ∙ append_assoc buf.data_bytes p (concat ps),
      valid',
    )

write_all-concat :
    (pieces : List Bytes)
    → length (concat pieces) + 1 ≤ 2 ^ 63
    → (buf : WriteBuf) × (write_all (some request_buf) pieces ≡ some buf)
      × (buf.data_bytes ≡ concat pieces)
      × (buf.len ≡ length (concat pieces))
      × (buf.len < buf.cap)
write_all-concat pieces h =
    let (buf, e, bytes, valid) =
      write_all_lem request_buf pieces
        (record { len_is = refl; room = omega arith; fits = omega arith }) (omega arith) in
    (buf, e, bytes, valid.len_is ∙ ap length bytes, valid.room)

-- The response to a transfer that delivers pieces below 2^63 bytes in all.
abbrev pub whole_response : ℕ → List Bytes → HttpResponse
whole_response status pieces = record {
  status_code = status;
  body = some (concat pieces);
  body_len = length (concat pieces);
  error = none;
}

stored_status_lem : (status : ℕ) → status < 2 ^ 31 → stored_status status ≡ status
unfolding stored_status
stored_status_lem status h = omega (arith, h)

-- If libcurl delivers a body in pieces of below 2^63 bytes in all, with a status that an int holds,
-- every callback finds room, and the response to a request has the pieces one behind the other, and
-- their length, whatever bytes they hold and however they are cut. It has the status where a long is 64
-- bits wide and stored with its low byte first, since it is stored through the address of an int.
pub http_post_json_auth_ex-whole_response :
    (curl : Request → Transfer) (url json_body : Bytes) (auth_header : Option Bytes)
    (extra_headers : Option (List Bytes)) (timeout_seconds : ℤ) (status : ℕ) (pieces : List Bytes)
    → ((r : Request) → curl r ≡ delivered pieces status)
    → length (concat pieces) + 1 ≤ 2 ^ 63
    → status < 2 ^ 31
    → http_post_json_auth_ex curl url json_body auth_header extra_headers timeout_seconds
      ≡ some (whole_response status pieces)
unfolding http_post_json_auth_ex perform respond_to with_body
http_post_json_auth_ex-whole_response curl url body auth headers timeout status pieces given h k =
    let (buf, e, bytes, size, room) = write_all-concat pieces h in
    ap respond_to (given _)
    ∙ ap (λ (n : ℕ). with_body n (write_all (some request_buf) pieces)) (stored_status_lem status k)
    ∙ ap (with_body status) e
    ∙ rw (bytes, size) refl
