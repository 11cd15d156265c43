-- ===== src/Framing/Cut.antt =====
-- Reading from a stream that ends too early.
use dude_fs.Prelude.{
  ℕ, zero, suc, ◌-◌, ◌≤◌, ◌<◌, true, false, List, [], ◌∷◌, ◌++◌, Bytes, ok, err, ok_inj, ◌≡◌, ◌≢◌,
  refl, ap, sym, ◌∙◌, arith, ltb, length, append_assoc, append-nil, length-append, dec_lt,
}
use dude_fs.Smt.{big_endian}
use dude_fs.Framing.{
  frame_truncated, header_size, max_frame, Chunks, ended, recv_loop, recv_exact, unpack, frame_body,
  send, read_body, read,
}
use dude_fs.Framing.Stream.{
  stream, IsOpen, split_append, recv_loop_lem, unpack-big_endian, length-header, send_lem, read_lem,
}

recv_loop_short :
    (n : ℕ) (buf : Bytes) (chunks : Chunks)
    → IsOpen chunks
    → length (stream chunks) < n
    → recv_loop n buf chunks ≡ ended (buf ++ stream chunks) []
unfolding recv_loop stream
recv_loop_short zero buf chunks h lt = absurd (omega arith)
recv_loop_short (suc n) buf [] h lt = ap (λ x. ended x []) (sym (append-nil buf))
recv_loop_short (suc n) buf ([] ∷ chunks) h lt = absurd (h.0 refl)
recv_loop_short (suc n) buf ((b ∷ bs) ∷ chunks) h lt =
    let more : ltb (length bs) n ≡ true = ground (arith, lt, length-append bs (stream chunks)) in
    let rest =
      recv_loop_short (n - length bs) (buf ++ b ∷ bs) chunks h.1
        (omega (arith, lt, length-append bs (stream chunks))) in
    rw more (rest ∙ ap (λ x. ended x []) (append_assoc buf (b ∷ bs) (stream chunks)))

length-positive : (x : Bytes) → x ≢ [] → 0 < length x
length-positive [] h = absurd (h refl)
length-positive (b ∷ bs) h = omega arith

ended-cons : (x : Bytes) (chunks : Chunks) → x ≢ [] → ended x chunks ≡ err frame_truncated
unfolding ended
ended-cons [] chunks h = absurd (h refl)
ended-cons (b ∷ bs) chunks h = refl

read_cut_header :
    (tags : List Bytes) (chunks : Chunks)
    → recv_loop header_size [] chunks ≡ err frame_truncated
    → read tags chunks ≡ err frame_truncated
unfolding read recv_exact
read_cut_header tags chunks e = rw e refl

read_cut_body :
    (tags : List Bytes) (size : ℕ) (part : Bytes) (middle : Chunks)
    → size ≤ max_frame
    → recv_loop size [] middle ≡ ended part []
    → read_body tags size middle ≡ err frame_truncated
unfolding read_body recv_exact ended
read_cut_body tags size [] middle small e =
    let fits : ltb max_frame size ≡ false = ground (arith, small) in rw (fits, e) refl
read_cut_body tags size (b ∷ bs) middle small e =
    let fits : ltb max_frame size ≡ false = ground (arith, small) in rw (fits, e) refl

-- A stream that holds the beginning of a frame of a legal size, some bytes of it but not all, makes
-- `read` raise FrameTruncatedError, however the stream is cut into chunks.
pub read_truncated :
    (tags : List Bytes) (tag corr payload sent missing : Bytes) (chunks : Chunks)
    → length (frame_body tag corr payload) ≤ max_frame
    → send tag corr payload ≡ ok sent
    → IsOpen chunks
    → stream chunks ++ missing ≡ sent
    → stream chunks ≢ []
    → missing ≢ []
    → read tags chunks ≡ err frame_truncated
read_truncated tags tag corr payload sent missing chunks small wrote open_chunks e some_bytes cut =
    let body = frame_body tag corr payload in
    let header = big_endian header_size (length body) in
    let wide : length header ≡ header_size = length-header (length body) in
    let whole : stream chunks ++ missing ≡ header ++ body =
      e ∙ ok_inj (sym wrote ∙ send_lem tag corr payload small) in
    elim (dec_lt (length (stream chunks)) header_size) [
      | yes short ↦ read_cut_header tags chunks (
          recv_loop_short header_size [] chunks open_chunks short
          ∙ ended-cons (stream chunks) [] some_bytes)
      | no long ↦
          let (part, shape, behind) =
            split_append header body (stream chunks) missing (omega (arith, wide, long))
              (sym whole) in
          let (middle, got, next, open_middle) =
            recv_loop_lem header [] part chunks open_chunks shape in
          let size : unpack 0 header ≡ length body =
            unpack-big_endian (length body) (omega (arith, small)) in
          let fewer : length (stream middle) < length body = omega (
            arith,
            ap length next,
            ap length behind,
            length-append part missing,
            length-positive missing cut,
          ) in
          read_lem tags header chunks middle (ap (λ n. recv_loop n [] chunks) (sym wide) ∙ got)
          ∙ ap (λ n. read_body tags n middle) size
          ∙ read_cut_body tags (length body) (stream middle) middle small
              (recv_loop_short (length body) [] middle open_middle fewer)
    ]
