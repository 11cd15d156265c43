-- ===== src/Framing/Stream.antt =====
-- Reading a frame from a stream that arrives in chunks of any size.
use dude_fs.Prelude.{
  ℕ, ◌-◌, ◌^◌, ◌≤◌, ◌<◌, true, false, some, List, [], ◌∷◌, ◌++◌, Bytes, ok, ok_inj, ◌≡◌, ◌≢◌, refl,
  ap, sym, ◌∙◌, arith, ltb, length, take, drop, All, contains, append_assoc, append-nil,
  length-append, take-length-append, drop-length-append, Bool-cases, inl, inr, list_eq, nat_eq,
  ℕ_discrete,
}
use dude_fs.Codec.Access.{as_seq, as_bytes, of_list, to_list}
use dude_fs.Codec.Trip.{Fits}
use dude_fs.Ops.RoundTrip.{decode-encoded}
use dude_fs.Smt.{big_endian}
use dude_fs.Framing.{
  header_size, max_frame, Chunks, keep_rest, recv_loop, recv_exact, unpack, frame_value, frame_body,
  send, Message, parse_body, read_body, read,
}

-- The bytes of a stream, whatever its chunks.
unfoldable pub stream : Chunks → Bytes
stream [] = []
stream (c ∷ cs) = c ++ stream cs

-- Before the end of a stream no chunk is empty.
abbrev pub IsOpen : Chunks → Type 0
IsOpen chunks = All (λ c. c ≢ []) chunks

stream-keep_rest : (c : Bytes) (cs : Chunks) → stream (keep_rest c cs) ≡ c ++ stream cs
unfolding stream keep_rest
stream-keep_rest [] cs = refl
stream-keep_rest (b ∷ bs) cs = refl

keep_rest-IsOpen : (c : Bytes) (cs : Chunks) → IsOpen cs → IsOpen (keep_rest c cs)
unfolding keep_rest
keep_rest-IsOpen [] cs h = h
keep_rest-IsOpen (b ∷ bs) cs h = (λ e. cc, h)

-- Two ways to cut a list: the longer first part is the shorter one and what is behind it.
pub split_append :
    (xs rs ys ss : Bytes)
    → length xs ≤ length ys
    → xs ++ rs ≡ ys ++ ss
    → (tail : Bytes) × (ys ≡ xs ++ tail) × (rs ≡ tail ++ ss)
split_append [] rs ys ss h e = (ys, refl, e)
split_append (x ∷ xs) rs [] ss h e = absurd (omega arith)
split_append (x ∷ xs) rs (y ∷ ys) ss h e =
    let (tail, p, q) = split_append xs rs ys ss (omega arith) (cc) in (tail, cc, q)

-- The stream begins with some bytes: then the loop returns them behind what was read before.
pub recv_loop_lem :
    (wanted buf rest : Bytes) (chunks : Chunks)
    → IsOpen chunks
    → stream chunks ≡ wanted ++ rest
    → (left : Chunks) × (recv_loop (length wanted) buf chunks ≡ ok (some (buf ++ wanted), left))
      × (stream left ≡ rest)
      × IsOpen left
unfolding recv_loop stream
recv_loop_lem [] buf rest chunks h e =
    (chunks, ap (λ x. ok (some x, chunks)) (sym (append-nil buf)), e, h)
recv_loop_lem (w ∷ ws) buf rest [] h e = absurd (cc)
recv_loop_lem (w ∷ ws) buf rest ([] ∷ chunks) h e = absurd (h.0 refl)
recv_loop_lem (w ∷ ws) buf rest ((b ∷ bs) ∷ chunks) h e =
    let head : b ≡ w = cc in
    let behind : bs ++ stream chunks ≡ ws ++ rest = cc in
    elim (Bool-cases (ltb (length bs) (length ws))) [
      | inl t ↦
          let (tail, split, back) = split_append bs (stream chunks) ws rest (ground arith) behind in
          let missing : length ws - length bs ≡ length tail =
            omega (arith, ap length split, length-append bs tail) in
          let (left, got, next, open_left) =
            recv_loop_lem tail (buf ++ b ∷ bs) rest chunks h.1 back in
          let all_of : (buf ++ b ∷ bs) ++ tail ≡ buf ++ w ∷ ws =
            append_assoc buf (b ∷ bs) tail ∙ (λ i. buf ++ head i ∷ sym split i) in
          (left, rw (t, missing) (got ∙ ap (λ x. ok (some x, left)) all_of), next, open_left)
      | inr t ↦
          let (tail, split, back) =
            split_append ws rest bs (stream chunks) (ground arith) (sym behind) in
          let front : take (length ws) bs ≡ ws =
            ap (take (length ws)) split ∙ take-length-append ws tail in
          let end_of : drop (length ws) bs ≡ tail =
            ap (drop (length ws)) split ∙ drop-length-append ws tail in
          (
            keep_rest tail chunks,
            rw (t, front, end_of) (λ i. ok (some (buf ++ head i ∷ ws), keep_rest tail chunks)),
            stream-keep_rest tail chunks ∙ sym back,
            keep_rest-IsOpen tail chunks h.1,
          )
    ]

pub unpack-big_endian : (n : ℕ) → n < 2 ^ 32 → unpack 0 (big_endian header_size n) ≡ n
unfolding unpack big_endian
unpack-big_endian n h = omega arith

parse_body-frame_body :
    (tags : List Bytes) (tag corr payload : Bytes)
    → contains tag tags ≡ true
    → Fits 0 (frame_value tag corr payload)
    → parse_body tags (frame_body tag corr payload) ≡ ok (tag, corr, payload)
unfolding parse_body frame_body as_seq as_bytes to_list of_list ℕ_discrete
parse_body-frame_body tags tag corr payload known fits =
    rw (decode-encoded (frame_value tag corr payload) fits, known) refl

pub length-header : (size : ℕ) → length (big_endian header_size size) ≡ header_size
unfolding big_endian
length-header size = refl

pub send_lem :
    (tag corr payload : Bytes)
    → length (frame_body tag corr payload) ≤ max_frame
    → send tag corr payload
      ≡ ok (
          big_endian header_size (length (frame_body tag corr payload))
          ++ frame_body tag corr payload)
unfolding send
send_lem tag corr payload small =
    let fits : ltb (length (frame_body tag corr payload)) (2 ^ 32) ≡ true = ground (arith, small) in
    rw fits refl

pub read_lem :
    (tags : List Bytes) (header : Bytes) (chunks middle : Chunks)
    → recv_loop header_size [] chunks ≡ ok (some header, middle)
    → read tags chunks ≡ read_body tags (unpack 0 header) middle
unfolding read recv_exact
read_lem tags header chunks middle e = rw e refl

read_body_lem :
    (tags : List Bytes) (raw : Bytes) (m : Message) (size : ℕ) (middle left : Chunks)
    → size ≤ max_frame
    → recv_loop size [] middle ≡ ok (some raw, left)
    → parse_body tags raw ≡ ok m
    → read_body tags size middle ≡ ok (some m, left)
unfolding read_body recv_exact
read_body_lem tags raw m size middle left small e f =
    let fits : ltb max_frame size ≡ false = ground (arith, small) in rw (fits, e, f) refl

-- What `send` wrote to a stream is the first thing that `read` takes from it, however the stream is cut
-- into chunks, and what follows is left: for a tag that the reader knows, and a body within the limits
-- of the codec and no larger than a frame may be.
pub read-send :
    (tags : List Bytes) (tag corr payload sent rest : Bytes) (chunks : Chunks)
    → contains tag tags ≡ true
    → Fits 0 (frame_value tag corr payload)
    → length (frame_body tag corr payload) ≤ max_frame
    → send tag corr payload ≡ ok sent
    → IsOpen chunks
    → stream chunks ≡ sent ++ rest
    → (left : Chunks) × (read tags chunks ≡ ok (some (tag, corr, payload), left))
      × (stream left ≡ rest)
      × IsOpen left
read-send tags tag corr payload sent rest chunks known fits small wrote open_chunks e =
    let body = frame_body tag corr payload in
    let header = big_endian header_size (length body) in
    let whole : sent ≡ header ++ body =
      sym (ok_inj (sym (send_lem tag corr payload small) ∙ wrote)) in
    let (middle, got, next, open_middle) =
      recv_loop_lem header [] (body ++ rest) chunks open_chunks
        (e ∙ ap (λ x. x ++ rest) whole ∙ append_assoc header body rest) in
    let (left, got', next', open_left) = recv_loop_lem body [] rest middle open_middle next in
    let size : unpack 0 header ≡ length body =
      unpack-big_endian (length body) (omega (arith, small)) in
    (
      left,
      read_lem tags header chunks middle
            (ap (λ n. recv_loop n [] chunks) (sym (length-header (length body))) ∙ got)
          ∙ ap (λ n. read_body tags n middle) size
          ∙ read_body_lem tags body (tag, corr, payload) (length body) middle left small got'
              (parse_body-frame_body tags tag corr payload known fits),
      next',
      open_left,
    )
