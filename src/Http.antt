-- ===== src/Http.antt =====
-- providers/http_client.c: the requests, and the buffer that libcurl's write callback fills. The
-- transfer is libcurl's: it calls back once for each piece of the body.
pub mod Body
use vajra_ai.Prelude.{
  ℕ, zero, suc, ◌+◌, ◌*◌, ◌%◌, ◌^◌, ◌≤◌, ◌<◌, ◌≡◌, refl, sym, ap, ◌∙◌, inl, inr, Bool, true, false,
  Option, none, some, List, [], ◌∷◌, ◌++◌, arith, ltb, if◌then◌else◌, length, take, length-append,
  Bool-cases, append_assoc, append-nil,
}
use vajra_ai.Prelude.Int.{ℤ, pos, negsuc}
use vajra_ai.CString.{Bytes, codes}
use vajra_ai.Types.StrBuf.{size_mod, grow, grow_fuel, grow_total}

-- `write_buf_t`: the bytes that `data` holds up to `len`, the length and the allocated size.
pub record WriteBuf : Type 0 where
  pub data_bytes : Bytes
  pub len : ℕ
  pub cap : ℕ

-- The buffer of a request, as http_post_json and its variants allocate it.
abbrev pub request_buf : WriteBuf
request_buf = record { data_bytes = []; len = 0; cap = 4096 }

abbrev start_cap : WriteBuf → ℕ
start_cap buf = if ltb 0 buf.cap then buf.cap else 4096

unfoldable pub stored_piece : WriteBuf → Bytes → Option ℕ → Option WriteBuf
stored_piece buf piece none = none
stored_piece buf piece (some new_cap) = some record {
  data_bytes = buf.data_bytes ++ piece;
  len = (buf.len + length piece) % size_mod;
  cap = new_cap;
}

-- One call: `none` means that the doubling loop does not end.
unfoldable pub write_callback : WriteBuf → Bytes → Option WriteBuf
unfolding stored_piece
write_callback buf piece =
    stored_piece buf piece
      (grow grow_fuel ((buf.len + length piece + 1) % size_mod) (start_cap buf))

unfoldable pub write_or_none : Option WriteBuf → Bytes → Option WriteBuf
unfolding write_callback
write_or_none none piece = none
write_or_none (some buf) piece = write_callback buf piece

-- The calls of one transfer.
unfoldable pub write_all : Option WriteBuf → List Bytes → Option WriteBuf
unfolding write_or_none
write_all buf [] = buf
write_all buf (piece ∷ pieces) = write_all (write_or_none buf piece) pieces

-- What a curl handle is set up with.
pub record Request : Type 0 where
  pub url : Bytes
  pub json_body : Bytes
  pub headers : List Bytes
  pub timeout : ℤ

-- What libcurl answers: no handle, an error text, or the pieces of the body with the status.
pub data Transfer : Type 0 where
  no_handle : Transfer
  failed : Bytes → Transfer
  delivered : List Bytes → ℕ → Transfer

-- `http_response_t`. The status is the int of the C struct read without a sign.
pub record HttpResponse : Type 0 where
  pub status_code : ℕ
  pub body : Option Bytes
  pub body_len : ℕ
  pub error : Option Bytes

-- curl_easy_getinfo(CURLINFO_RESPONSE_CODE) stores a long, of 64 bits, through the address of the
-- int: undefined in C. With the layout of a 64-bit system that stores the low byte first, it covers the
-- int and the four bytes of padding behind it, and the int is the low half.
unfoldable pub stored_status : ℕ → ℕ
stored_status code = code % 2 ^ 32

abbrev error_response : Bytes → HttpResponse
error_response text = record { status_code = 0; body = none; body_len = 0; error = some text }

unfoldable pub with_body : ℕ → Option WriteBuf → Option HttpResponse
with_body status none = none
with_body status (some buf) =
    some
      record { status_code = status; body = some buf.data_bytes; body_len = buf.len; error = none }

unfoldable pub respond_to : Transfer → Option HttpResponse
unfolding with_body write_all stored_status
respond_to no_handle = some (error_response (codes "Failed to initialise curl handle"))
respond_to (failed text) = some (error_response text)
respond_to (delivered pieces status) =
    with_body (stored_status status) (write_all (some request_buf) pieces)

-- The part of the requests from the handle on; `none` if a callback does not end.
unfoldable pub perform : (Request → Transfer) → Request → Option HttpResponse
unfolding respond_to
perform curl request = respond_to (curl request)

-- `timeout_seconds > 0 ? timeout_seconds : 120L`
unfoldable pub timeout_or_default : ℤ → ℤ
timeout_or_default (pos (suc n)) = pos (suc n)
timeout_or_default _ = pos 120

abbrev content_type : Bytes
content_type = codes "Content-Type: application/json"

unfoldable pub http_post_json : (Request → Transfer) → Bytes → Bytes → ℤ → Option HttpResponse
unfolding perform timeout_or_default
http_post_json curl url json_body timeout_seconds = perform curl record {
  url = url;
  json_body = json_body;
  headers = content_type ∷ [];
  timeout = timeout_or_default timeout_seconds;
}

-- `hdr`, a buffer of 512 bytes that snprintf fills.
unfoldable pub auth_headers : Option Bytes → List Bytes
auth_headers (some (c ∷ cs)) = take 511 (codes "Authorization: " ++ c ∷ cs) ∷ []
auth_headers _ = []

-- `extra_headers` may be NULL.
unfoldable pub extra : Option (List Bytes) → List Bytes
extra none = []
extra (some hs) = hs

unfoldable pub http_post_json_auth_ex :
    (Request → Transfer)
    → Bytes
    → Bytes
    → Option Bytes
    → Option (List Bytes)
    → ℤ
    → Option HttpResponse
unfolding perform timeout_or_default auth_headers extra
http_post_json_auth_ex curl url json_body auth_header extra_headers timeout_seconds =
    perform curl record {
      url = url;
      json_body = json_body;
      headers = content_type ∷ auth_headers auth_header ++ extra extra_headers;
      timeout = timeout_or_default timeout_seconds;
    }
