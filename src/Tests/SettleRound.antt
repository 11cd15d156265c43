-- ===== src/Tests/SettleRound.antt =====
-- A settle round of one node, which settles at once.
use dude_fs.Prelude.{
  pos, true, some, List, [], ◌∷◌, ◌++◌, arith, Bytes, ok, ◌≡◌, refl, list_discrete, ℕ_discrete,
  select, contains, All, length, ◌≤◌, list_eq, nat_eq,
}
use dude_fs.Prelude.Dict.{keys, lookup}
use dude_fs.Prelude.Sets.{Distinct, Within}
use dude_fs.Prelude.Order.{sort_by}
use dude_fs.Codec.{show}
use dude_fs.Codec.Encode.{encode, put_bytes}
use dude_fs.Codec.Access.{of_list}
use dude_fs.Crypto.Bitmap.{combine, verify_multisig}
use dude_fs.Quorum.{size, intersection}
use dude_fs.Round.Types.{Block, everyone, slice_hash_of, block_slice_hash}
use dude_fs.SettleRound.Types.{
  Anchors, SettledBlock, SettleSig, SettleRound, sign_anchors, has_settled, settle_payload,
  encode_settled, identity_bytes,
}
use dude_fs.SettleRound.Machine.{start, receive}
use dude_fs.SettleRound.Valid.{IsSettled, SignedAnchors}
use dude_fs.SettleRound.Reach.{
  Reached, started, settled_is_quorum, settled_agreement, HasSignedAnchors,
}
use dude_fs.Canonical.{hashes_canonical}
use dude_fs.Codec.Tokens.{digits_of}
use dude_fs.Codec.Trip.{Fits}
use dude_fs.Codec.Plain.{encoded}
use dude_fs.SettleRound.Wire.{decode_settled}
use dude_fs.SettleRound.RoundTrip.{AnchorsHaveWidths, IsSized, decode_settled-encode_settled}
use dude_fs.SettleRound.Total.{receive_total}
use dude_fs.Tests.Toy.{toy, toy_honest}

abbrev pub one_key : List Bytes
one_key = (7 ∷ []) ∷ []

abbrev block : Block
block = record { bucket = pos 1; hashes = [] }

abbrev anchors : Anchors
anchors = record {
  block_num = pos 1;
  height = pos 0;
  prev_block = [];
  state_root = 1 ∷ [];
  acc_state = 2 ∷ [];
  acc_log = 3 ∷ [];
}

abbrev mine : SettleSig
mine = sign_anchors toy (7 ∷ []) (block_slice_hash toy block) anchors

abbrev pub final : SettledBlock
final = record {
  block = block;
  anchors = anchors;
  multisig = record { bitmap = 128 ∷ []; sigs = mine.sig ∷ [] };
}

abbrev pub finished : SettleRound
finished = record {
  block = block;
  seed = 7 ∷ [];
  me = 7 ∷ [];
  roster = one_key;
  quorum = 1;
  anchors = anchors;
  slice_hash = block_slice_hash toy block;
  abandon_by = 9;
  sigs = (7 ∷ [], mine.sig) ∷ [];
  divergences = [];
  outbox = (everyone, mine) ∷ [];
  state = has_settled;
  settled = some final;
}

settling : start toy block (7 ∷ []) one_key anchors 9 ≡ ok finished
unfolding start contains list_discrete ℕ_discrete size lookup combine
settling = refl

-- The multisig of the block verifies for the roster with the manager behind it.
accepted_by_all :
    verify_multisig toy final.multisig
      (settle_payload (block_slice_hash toy block) anchors)
      ((7 ∷ []) ∷ (8 ∷ []) ∷ [])
    ≡ true
unfolding verify_multisig ℕ_discrete select list_discrete sign_anchors encode of_list put_bytes show
    slice_hash_of sort_by
accepted_by_all = refl

pub reached : Reached toy finished
reached = started block (7 ∷ []) one_key anchors 9 settling

settled_is_quorum_example :
    IsSettled toy finished final
    × (size (length one_key) ≡ ok 1)
    × Distinct (keys finished.sigs)
    × Within (keys finished.sigs) one_key
    × All (SignedAnchors toy (block_slice_hash toy block) anchors) finished.sigs
settled_is_quorum_example = settled_is_quorum toy toy_honest final reached refl

settled_agreement_example :
    (both : List Bytes) × (1 ≤ length both)
    × Distinct both
    × Within both one_key
    × All
        (λ pk.
          HasSignedAnchors toy (block_slice_hash toy block) anchors pk
          × HasSignedAnchors toy (block_slice_hash toy block) anchors pk)
        both
unfolding size intersection
settled_agreement_example =
    settled_agreement toy toy_honest final final 1 reached reached refl refl refl refl

receive_total_example : (r : SettleRound) × (receive toy mine (7 ∷ []) finished ≡ ok r)
receive_total_example = receive_total toy mine (7 ∷ []) finished

abbrev eight : Bytes
eight = 1 ∷ 2 ∷ 3 ∷ 4 ∷ 5 ∷ 6 ∷ 7 ∷ 8 ∷ []

abbrev wide : Bytes
wide = eight ++ eight ++ eight ++ eight

abbrev wide_anchors : Anchors
wide_anchors = record anchors {
  prev_block = wide;
  state_root = wide;
  acc_state = wide;
  acc_log = wide;
}

abbrev signed : SettleSig
signed = record { slice_hash = wide; anchors = wide_anchors; sig = wide ++ wide }

wide_anchors-AnchorsHaveWidths : AnchorsHaveWidths wide_anchors
wide_anchors-AnchorsHaveWidths = record {
  prev_block = refl;
  state_root = refl;
  acc_state = refl;
  acc_log = refl;
}

abbrev wide_block : SettledBlock
wide_block = record final {
  anchors = wide_anchors;
  multisig = record { bitmap = 128 ∷ []; sigs = (wide ++ wide) ∷ [] };
}

wide_block-IsSized : IsSized wide_block
unfolding Fits digits_of show of_list identity_bytes encoded encode put_bytes hashes_canonical
    sort_by
wide_block-IsSized = record {
  hash_widths = tt;
  anchor_widths = wide_anchors-AnchorsHaveWidths;
  sig_widths = (refl, tt);
  identity_fits = (
    omega arith,
    (
      (omega arith, omega arith),
      (
        (omega arith, tt),
        (
          (omega arith, omega arith),
          (
            (omega arith, omega arith),
            (
              (omega arith, omega arith),
              (
                (omega arith, omega arith),
                ((omega arith, omega arith), ((omega arith, omega arith), tt)),
              ),
            ),
          ),
        ),
      ),
    ),
  );
  whole_fits = (
    omega arith,
    (
      (omega arith, omega arith),
      ((omega arith, omega arith), ((omega arith, ((omega arith, omega arith), tt)), tt)),
    ),
  );
}

decode_settled-encode_settled_example : decode_settled (encode_settled wide_block) ≡ ok wide_block
unfolding hashes_canonical sort_by
decode_settled-encode_settled_example = decode_settled-encode_settled wide_block wide_block-IsSized
