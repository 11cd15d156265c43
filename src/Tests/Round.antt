-- ===== src/Tests/Round.antt =====
-- A round of one node: it closes, signs, and ratifies at once.
use dude_fs.Prelude.{
  pos, none, some, List, [], ◌∷◌, ◌++◌, arith, Bytes, ok, ◌≡◌, refl, list_discrete, ℕ_discrete,
  contains, map, All, select, ℤ_discrete, length, ◌≤◌, inl, list_eq, nat_eq,
}
use dude_fs.Prelude.Dict.{insert, update}
use dude_fs.Prelude.Sets.{Distinct, Within}
use dude_fs.Prelude.Order.{sort_by, insert_by}
use dude_fs.Codec.{show}
use dude_fs.Codec.Encode.{encode}
use dude_fs.Codec.Access.{of_list}
use dude_fs.Quorum.{size, intersection}
use dude_fs.Ops.{SignedTransaction, op_hash}
use dude_fs.Round.Types.{
  Held, held, Sig, Round, Block, collect, gone, slice_hash_of, sign_slice, block_slice_hash,
  everyone, sig_msg,
}
use dude_fs.Round.Machine.{start, add_local, receive}
use dude_fs.Round.Close.{tick}
use dude_fs.Round.Valid.{core, IsValid}
use dude_fs.Round.Agreement.{HasSigned}
use dude_fs.Round.Reach.{
  Reached, started, added, ticked, Reached-IsValid, Reached-agreement, gone_final,
}
use dude_fs.Codec.Tokens.{digits_of}
use dude_fs.Codec.Trip.{Fits}
use dude_fs.Round.Types.{RoundMsg}
use dude_fs.Round.Wire.{encode_msg, decode_msg, bucket_of_body}
use dude_fs.Round.RoundTrip.{decode_msg-encode_msg}
use dude_fs.Tests.Toy.{toy, toy_honest}

abbrev keep_none : List SignedTransaction → List Bytes
keep_none txs = []

abbrev keep_all : List SignedTransaction → List Bytes
keep_all = map (op_hash toy)

abbrev roster : List Bytes
roster = (7 ∷ []) ∷ []

abbrev opened : (List SignedTransaction → List Bytes) → Round
opened screen = record {
  bucket = pos 1;
  seed = 7 ∷ [];
  me = 7 ∷ [];
  roster = roster;
  prev_block = 5 ∷ [];
  screen = screen;
  quorum = 1;
  state = collect;
  now = 0;
  close_by = 1;
  abandon_by = 2;
  local_bodies = none;
  peer_holds = [];
  peer_sigs = [];
  my_sig = none;
  equivocations = [];
  divergences = [];
  gap_attempts = [];
  ratified = none;
  slice_bodies = [];
  surviving = [];
  outbox = [];
  pending_slice_hashes = [];
}

abbrev first_held : Held
first_held = record { bucket = pos 1; prev_block = 5 ∷ []; hashes = [] }

abbrev loaded : (List SignedTransaction → List Bytes) → Round
loaded screen = record (opened screen) {
  local_bodies = some [];
  outbox = (everyone, held first_held) ∷ [];
}

abbrev signature : Sig
signature = sign_slice toy (7 ∷ []) (pos 1) (5 ∷ []) (slice_hash_of toy (pos 1) [])

abbrev block : Block
block = record { bucket = pos 1; hashes = [] }

abbrev closed : (List SignedTransaction → List Bytes) → Round
closed screen = record (loaded screen) {
  state = gone;
  now = 1;
  my_sig = some signature;
  peer_sigs = (7 ∷ [], signature) ∷ [];
  outbox = (everyone, held first_held) ∷ (everyone, sig_msg signature) ∷ [];
  ratified = some block;
}

program : Unit {0}
unfolding start add_local tick receive contains list_discrete ℕ_discrete ℤ_discrete size update
    select insert encode of_list sort_by insert_by show
program = tt

module _ (screen : List SignedTransaction → List Bytes) where
  opening : start toy (pos 1) (7 ∷ []) roster (5 ∷ []) 0 1 2 screen ≡ ok (opened screen)
  unfolding program
  opening = refl

  loading : add_local toy [] (opened screen) ≡ ok (loaded screen)
  unfolding program
  loading = refl

late_message :
    receive toy (held first_held) (7 ∷ []) 3 (closed keep_none)
    ≡ ok (record (closed keep_none) { now = 3 })
unfolding program
late_message = refl

closing : tick toy 1 (loaded keep_none) ≡ ok (closed keep_none)
unfolding program
closing = refl

reached : Reached toy (closed keep_none)
reached =
    ticked 1
      (added [] (started (pos 1) (7 ∷ []) roster (5 ∷ []) 0 1 2 keep_none (opening keep_none))
        (loading keep_none))
      closing

kept_closing : tick toy 1 (loaded keep_all) ≡ ok (closed keep_all)
unfolding program
kept_closing = refl

-- The same round with a screen that keeps all it is shown.
kept_round : Reached toy (closed keep_all)
kept_round =
    ticked 1
      (added [] (started (pos 1) (7 ∷ []) roster (5 ∷ []) 0 1 2 keep_all (opening keep_all))
        (loading keep_all))
      kept_closing

Reached-IsValid_example : IsValid toy (core (closed keep_none))
Reached-IsValid_example = Reached-IsValid toy toy_honest reached

Reached-agreement_example :
    (both : List Bytes) × (1 ≤ length both)
    × Distinct both
    × Within both roster
    × All
        (λ pk.
          HasSigned toy (pos 1) (5 ∷ []) (block_slice_hash toy block) pk
          × HasSigned toy (pos 1) (5 ∷ []) (block_slice_hash toy block) pk)
        both
unfolding size intersection
Reached-agreement_example =
    Reached-agreement toy toy_honest block block 1 reached kept_round refl refl refl refl refl refl

gone_final_example : core (record (closed keep_none) { now = 3 }) ≡ core (closed keep_none)
gone_final_example =
    gone_final toy (closed keep_none) (record (closed keep_none) { now = 3 }) (held first_held)
      (7 ∷ []) 3 refl (inl late_message)

abbrev eight : Bytes
eight = 1 ∷ 2 ∷ 3 ∷ 4 ∷ 5 ∷ 6 ∷ 7 ∷ 8 ∷ []

abbrev wide : Bytes
wide = eight ++ eight ++ eight ++ eight

abbrev wide_sig : RoundMsg
wide_sig =
    sig_msg (record { bucket = pos 1; prev_block = wide; slice_hash = wide; sig = wide ++ wide })

decode_msg-encode_msg_example :
    (decode_msg (encode_msg wide_sig).0 (encode_msg wide_sig).1 ≡ ok wide_sig)
    × (bucket_of_body (encode_msg wide_sig).1 ≡ ok (pos 1))
unfolding Fits digits_of show of_list
decode_msg-encode_msg_example =
    decode_msg-encode_msg wide_sig refl (refl, refl)
      (
        omega arith,
        (
          (omega arith, omega arith),
          (
            (omega arith, omega arith),
            ((omega arith, omega arith), ((omega arith, omega arith), tt)),
          ),
        ),
      )
