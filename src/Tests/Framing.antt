-- ===== src/Tests/Framing.antt =====
-- A request in two chunks, and one of which the end is missing.
use dude_fs.Prelude.{
  some, [], ◌∷◌, ◌++◌, Bytes, ok, err, ◌≡◌, refl, arith, true, contains, list_discrete, ℕ_discrete,
  list_eq, nat_eq,
}
use dude_fs.Codec.{show}
use dude_fs.Codec.Encode.{encode, put_bytes}
use dude_fs.Codec.Access.{of_list}
use dude_fs.Codec.Plain.{encoded}
use dude_fs.Codec.Trip.{Fits}
use dude_fs.Smt.{big_endian}
use dude_fs.Framing.{
  Chunks, frame_truncated, frame_value, frame_body, request_tags, send, read, send_request,
}
use dude_fs.Framing.Stream.{stream, IsOpen, read-send}
use dude_fs.Framing.Cut.{read_truncated}

abbrev get_tag : Bytes
get_tag = b'g' ∷ []

abbrev corr : Bytes
corr = 1 ∷ []

abbrev payload : Bytes
payload = 2 ∷ []

abbrev frame : Bytes
frame = 0 ∷ 0 ∷ 0 ∷ 11 ∷ b'l' ∷ b'1' ∷ b':' ∷ b'g' ∷ b'1' ∷ b':' ∷ 1 ∷ b'1' ∷ b':' ∷ 2 ∷ b'e' ∷ []

send_run : send get_tag corr payload ≡ ok frame
unfolding send frame_body big_endian encoded encode put_bytes of_list show
send_run = refl

abbrev chunks : Chunks
chunks =
    (0 ∷ 0 ∷ 0 ∷ [])
    ∷ (11 ∷ b'l' ∷ b'1' ∷ b':' ∷ b'g' ∷ b'1' ∷ [])
    ∷ (b':' ∷ 1 ∷ b'1' ∷ b':' ∷ 2 ∷ b'e' ∷ 0 ∷ [])
    ∷ []

request_run : send_request get_tag corr payload ≡ ok frame
unfolding send_request
request_run = send_run

chunks-IsOpen : IsOpen chunks
chunks-IsOpen = (λ e. cc, (λ e. cc, (λ e. cc, tt)))

streamed : stream chunks ≡ frame ++ 0 ∷ []
unfolding stream
streamed = refl

frame-Fits : Fits 0 (frame_value get_tag corr payload)
unfolding Fits show of_list
frame-Fits = (
  omega arith,
  ((omega arith, omega arith), ((omega arith, omega arith), ((omega arith, omega arith), tt))),
)

known : contains get_tag request_tags ≡ true
unfolding contains list_discrete ℕ_discrete
known = refl

read-send_example :
    (left : Chunks) × (read request_tags chunks ≡ ok (some (get_tag, corr, payload), left))
    × (stream left ≡ 0 ∷ [])
    × IsOpen left
unfolding frame_body encoded encode put_bytes of_list show
read-send_example =
    read-send request_tags get_tag corr payload frame (0 ∷ []) chunks known frame-Fits (omega arith)
      send_run chunks-IsOpen streamed

abbrev half : Chunks
half = (0 ∷ 0 ∷ []) ∷ (0 ∷ 11 ∷ b'l' ∷ []) ∷ []

streamed_half :
    stream half ++ (b'1' ∷ b':' ∷ b'g' ∷ b'1' ∷ b':' ∷ 1 ∷ b'1' ∷ b':' ∷ 2 ∷ b'e' ∷ []) ≡ frame
unfolding stream
streamed_half = refl

read_truncated_example : read request_tags half ≡ err frame_truncated
unfolding frame_body encoded encode put_bytes of_list show stream
read_truncated_example =
    read_truncated request_tags get_tag corr payload frame
      (b'1' ∷ b':' ∷ b'g' ∷ b'1' ∷ b':' ∷ 1 ∷ b'1' ∷ b':' ∷ 2 ∷ b'e' ∷ []) half (omega arith)
      send_run (λ e. cc, (λ e. cc, tt)) streamed_half (λ e. cc) (λ e. cc)
