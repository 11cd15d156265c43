-- ===== src/Tests/Chain.antt =====
-- A walk over the settled block of a roster of one, and the bitmap of two signers.
use dude_fs.Prelude.{[], ◌∷◌, ◌++◌, Bytes, ok, ◌≡◌, ◌↔◌, refl, arith, length}
use dude_fs.Crypto.Bitmap.{bitmap_size, bitmap_set, bitmap_indices}
use dude_fs.Crypto.Indices.{bitmap_indices-bitmap_set}
use dude_fs.SettleRound.Types.{block_hash}
use dude_fs.Chain.{head_is, advance}
use dude_fs.Chain.Walk.{last, IsChain, advance_exact, advance_append}
use dude_fs.Chain.Settled.{SettledChain, advance_settled}
use dude_fs.Tests.Toy.{toy, toy_honest}
use dude_fs.Tests.SettleRound.{finished, final, one_key, reached}

abbrev manager : Bytes
manager = 8 ∷ []

abbrev trusted : Bytes
trusted = final.anchors.prev_block

settled_chain : SettledChain toy one_key trusted (final ∷ [])
settled_chain =
    (refl, record { round = finished; reached = reached; same_roster = refl; has_block = refl }, tt)

advance_settled_example :
    advance toy one_key manager trusted (final ∷ []) ≡ ok (head_is (last final []))
advance_settled_example =
    advance_settled toy toy_honest one_key manager trusted final [] settled_chain

accepted : advance toy one_key manager trusted (final ∷ []) ≡ ok (head_is final)
unfolding last
accepted = advance_settled toy toy_honest one_key manager trusted final [] settled_chain

advance_exact_example :
    (advance toy one_key manager trusted (final ∷ []) ≡ ok (head_is final))
    ↔ (IsChain toy one_key manager trusted (final ∷ []) × (final ≡ last final []))
advance_exact_example = advance_exact toy one_key manager trusted final final []

advance_append_example :
    advance toy one_key manager trusted ((final ∷ []) ++ final ∷ [])
    ≡ advance toy one_key manager (block_hash toy final) (final ∷ [])
advance_append_example = advance_append toy one_key manager trusted final final final [] [] accepted

bitmap_indices-bitmap_set_example :
    (bitmap : Bytes) × (bitmap_set (1 ∷ 3 ∷ 9 ∷ []) 11 ≡ ok bitmap)
    × (length bitmap ≡ bitmap_size 11)
    × (bitmap_indices bitmap 11 ≡ ok (1 ∷ 3 ∷ 9 ∷ []))
bitmap_indices-bitmap_set_example =
    bitmap_indices-bitmap_set (1 ∷ 3 ∷ 9 ∷ []) 11 (omega arith) (omega arith)
