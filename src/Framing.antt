-- ===== src/Framing.antt =====
-- dude/net/socket_framing.py: requests and responses as frames over a stream. A socket hands out what was
-- sent in chunks of its own choice: here a list of chunks still to come, none of them empty, and `recv`
-- takes from the first at most as many bytes as it is asked for. A tag is the letter that is its value.
pub mod Stream
pub mod Cut
use dude_fs.Prelude.{
  ℕ, zero, suc, ◌+◌, ◌-◌, ◌*◌, ◌/◌, ◌%◌, ◌^◌, Bool, true, false, Option, none, some, List, [], ◌∷◌,
  ◌++◌, Bytes, Result, ok, err, ◌>>=◌, ltb, length, take, drop, if◌then◌else◌, contains, list_eq,
  nat_eq,
}
use dude_fs.Codec.{Value, CodecError, bytes}
use dude_fs.Codec.Access.{as_seq, as_bytes}
use dude_fs.Codec.Decode.{decode}
use dude_fs.Codec.Plain.{encoded, tuple}
use dude_fs.Ops.Decode.{item}
use dude_fs.Smt.{big_endian}

pub data FramingError : Type 0 where
  frame_too_large frame_truncated unknown_tag header_overflow : FramingError
  bad_body : CodecError → FramingError

abbrev pub header_size : ℕ
header_size = 4

-- `1 << 24`
abbrev pub max_frame : ℕ
max_frame = 16777216

-- The letters of `Request`
abbrev pub request_tags : List Bytes
request_tags =
    (b'g' ∷ [])
    ∷ (b'a' ∷ [])
    ∷ (b'e' ∷ [])
    ∷ (b't' ∷ [])
    ∷ (b'l' ∷ [])
    ∷ (b'y' ∷ [])
    ∷ (b's' ∷ [])
    ∷ (b'q' ∷ [])
    ∷ (b'c' ∷ [])
    ∷ (b'n' ∷ [])
    ∷ []

-- The letters of `Response`
abbrev pub response_tags : List Bytes
response_tags =
    (b'G' ∷ [])
    ∷ (b'A' ∷ [])
    ∷ (b'E' ∷ [])
    ∷ (b'T' ∷ [])
    ∷ (b'L' ∷ [])
    ∷ (b'Y' ∷ [])
    ∷ (b'S' ∷ [])
    ∷ (b'Q' ∷ [])
    ∷ (b'C' ∷ [])
    ∷ (b'K' ∷ [])
    ∷ (b'N' ∷ [])
    ∷ []

abbrev pub Chunks : Type 0
Chunks = List Bytes

-- What `recv` leaves of the first chunk.
unfoldable pub keep_rest : Bytes → Chunks → Chunks
keep_rest [] chunks = chunks
keep_rest (b ∷ bs) chunks = (b ∷ bs) ∷ chunks

-- `recv` returned nothing: an error, unless nothing was read before.
unfoldable pub ended : Bytes → Chunks → Result FramingError (Option Bytes × Chunks)
ended [] chunks = ok (none, chunks)
ended (b ∷ bs) chunks = err frame_truncated

-- The loop of `_recv_exact`, with the number of bytes that are missing and those read so far.
unfoldable pub recv_loop : ℕ → Bytes → Chunks → Result FramingError (Option Bytes × Chunks)
unfolding keep_rest ended
recv_loop zero buf chunks = ok (some buf, chunks)
recv_loop (suc n) buf [] = ended buf []
recv_loop (suc n) buf ([] ∷ chunks) = ended buf ([] ∷ chunks)
recv_loop (suc n) buf ((b ∷ bs) ∷ chunks) =
    let more = recv_loop (n - length bs) (buf ++ b ∷ bs) chunks in
    if ltb (length bs) n
    then more
    else ok (some (buf ++ b ∷ take n bs), keep_rest (drop n bs) chunks)

unfoldable pub recv_exact : ℕ → Chunks → Result FramingError (Option Bytes × Chunks)
unfolding recv_loop
recv_exact n chunks = recv_loop n [] chunks

-- `_HDR.unpack`
unfoldable pub unpack : ℕ → Bytes → ℕ
unpack n [] = n
unpack n (b ∷ bs) = unpack (n * 256 + b) bs

abbrev pub frame_value : Bytes → Bytes → Bytes → Value
frame_value tag corr payload = tuple (bytes tag ∷ bytes corr ∷ bytes payload ∷ [])

unfoldable pub frame_body : Bytes → Bytes → Bytes → Bytes
unfolding encoded
frame_body tag corr payload = encoded (frame_value tag corr payload)

-- The bytes that `_send` hands to the socket; `_HDR.pack` raises for a length of more than four bytes.
unfoldable pub send : Bytes → Bytes → Bytes → Result FramingError Bytes
unfolding frame_body big_endian
send tag corr payload =
    let body = frame_body tag corr payload in
    if ltb (length body) (2 ^ 32)
    then ok (big_endian header_size (length body) ++ body)
    else err header_overflow

abbrev pub from_codec : {A : Type 0} → Result CodecError A → Result FramingError A
from_codec (ok a) = ok a
from_codec (err e) = err (bad_body e)

-- A tag with what it carries.
abbrev pub Message : Type 0
Message = Bytes × Bytes × Bytes

-- The end of `_read`: what a body holds.
unfoldable pub parse_body : List Bytes → Bytes → Result FramingError Message
parse_body tags raw = do
  v ← from_codec (decode raw)
  parts ← from_codec (as_seq v (some 3))
  tag ← from_codec (as_bytes (item 0 parts))
  if contains tag tags
      then (from_codec (as_bytes (item 1 parts)) >>= λ corr.
          from_codec (as_bytes (item 2 parts)) >>= λ payload. ok (tag, corr, payload))
      else err unknown_tag

-- `_read` behind the header
unfoldable pub read_body : List Bytes → ℕ → Chunks → Result FramingError (Option Message × Chunks)
unfolding recv_exact parse_body
read_body tags size chunks =
    if ltb max_frame size
    then err frame_too_large
    else (recv_exact size chunks >>= λ r. elim r.0 [
      | none ↦ err frame_truncated
      | some raw ↦ parse_body tags raw >>= λ m. ok (some m, r.1)
    ])

-- `_read`, for the letters of `lookup`
unfoldable pub read : List Bytes → Chunks → Result FramingError (Option Message × Chunks)
unfolding recv_exact read_body unpack
read tags chunks = recv_exact header_size chunks >>= λ r. elim r.0 [
  | none ↦ ok (none, r.1)
  | some raw ↦ read_body tags (unpack 0 raw) r.1
]

unfoldable pub send_request : Bytes → Bytes → Bytes → Result FramingError Bytes
unfolding send
send_request tag corr payload = send tag corr payload

unfoldable pub send_response : Bytes → Bytes → Bytes → Result FramingError Bytes
unfolding send
send_response tag corr payload = send tag corr payload

unfoldable pub read_request : Chunks → Result FramingError (Option Message × Chunks)
unfolding read
read_request chunks = read request_tags chunks

unfoldable pub read_response : Chunks → Result FramingError (Option Message × Chunks)
unfolding read
read_response chunks = read response_tags chunks
