-- ===== src/Lib.antt =====
-- A model of DudeFS, a replicated key-value store in Python, and theorems about it.
--
-- The nodes of a roster collect signed transactions. In a round (dude/consensus/round.py) they tell
-- each other what they hold, cut the slice that a quorum shares, and sign its hash; a quorum of equal
-- signatures ratifies a block. Settling screens the block's transactions against the store
-- (dude/store/settle.py), and in a settle round (dude/consensus/settle_round.py) the nodes sign the
-- anchors that this led to. A client walks from a trusted block over settled ones (dude/sync/chain.py)
-- and checks proofs of rows against the root that the last one names (dude/store/smt.py). All that is
-- hashed, signed or sent is written with dude/core/codec.py.
--
-- The files, and the code they are about:
--   Prelude      numbers, lists, dicts, sorting and exceptions, shared by the others
--   Codec        dude/core/codec.py: Syntax the values, Encode `encode`, Decode `decode`, Access the
--                typed accessors; Decimal, Tokens, Reading, Sorted, Plain, Trip, RoundTrip, Branches,
--                Canonical and Ends hold proofs about them
--   Quorum       dude/quorum.py, with proofs in Bounds and Overlap
--   Crypto       dude/core/crypto.py: the suite, and in Bitmap the signer bitmap and `MultiSig`; proofs in
--                Signers and Indices
--   Ops          dude/store/ops.py: Types the operations, Encode what is hashed and signed, Decode the
--                decoders, Effects what is read and written; proofs in RoundTrip
--   Layer        dude/store/layer.py: Overlay `Reader`, `Overlay` and `holds`; proofs in Delta
--   Settle       dude/store/settle.py: Evaluate `evaluate` and the row rules, Screen `apply_to`; proofs
--                in Rounds, Stable, Raised, Runs and Rows
--   Smt          dude/store/smt.py: hashes and `verify`, in Wire a proof as bytes, in Tree `Tree`; Bits,
--                Cut, Paths, Children and Range hold lemmas on paths, Found and Plain on what the tree
--                finds and hashes; proofs in Complete and Accept, Change and Current, Epoch, Binding
--                and Sound, and Forged
--   Canonical    dude/consensus/canonical.py
--   Round        dude/consensus/round.py: Types the messages and the state, Slice `_compute_slice`,
--                Machine and Close the methods of `Round`, Wire the messages as bytes; proofs in Valid,
--                Preserve, Finish, Agreement, Reach and RoundTrip
--   SettleRound  dude/consensus/settle_round.py: Types, Machine, and in Wire the decoders; proofs in
--                Valid, Reach, Total, RoundTrip, Shares and Authorized
--   Authorization  `Authorization` of dude/store/management.py
--   Chain        dude/sync/chain.py: `advance`; proofs in Walk and Settled
--   Mempool      dude/consensus/mempool.py: Machine; proofs in Admit and Evict
--   Mailbox      dude/net/mailbox.py, and of dude/net/envelope.py what it reads: Types, Machine; proofs
--                in Waiting
--   Framing      dude/net/socket_framing.py; proofs in Stream and Cut
--   Tests        runs at small inputs, and the theorems at inputs that meet their hypotheses
--
-- How the code is read. A Python int is an integer or, where it is a count or a time, a natural number.
-- bytes are lists of numbers, a dict is an association list in insertion order, and a frozenset is a
-- list of which only members, their number and a sorted copy are used. A method is a function from
-- the object's old state to its new one, an exception is an error value, and a keypair is its seed.
-- blake2b and ed25519 are fields of `Suite`, which the definitions take as a parameter; theorems that
-- need it take as a hypothesis that a signature made with a seed verifies under its public key. The
-- `screen` of a round is a function that `start` stores. The `Reader` and the `Authoriser` of settling
-- are records of functions, each of which may raise.
--
-- `decode` recurses on fuel, two more than twice the bytes of the input: each byte is passed by at most
-- one call of `_decode_at` and one turn of a loop. The limits of the codec,
-- nesting 64 deep and integers of 4096 digits, and of names, 128 bytes, are those of the code. `Tree`
-- recurses on the levels below a depth, 256 at the root: below the last the code raises.
--
-- Not modelled: threads, files and SQL, sockets but for the chunks that one hands out, and with them the store, the network, the coordinator
-- and the command line; encryption and key derivation, which are calls of a library; the sync
-- protocols. The two tables that `Tree` reads and writes are a list of rows and a dict.
pub mod Prelude
pub mod Codec
pub mod Quorum
pub mod Crypto
pub mod Ops
pub mod Layer
pub mod Settle
pub mod Smt
pub mod Canonical
pub mod Round
pub mod SettleRound
pub mod Authorization
pub mod Chain
pub mod Framing
pub mod Mailbox
pub mod Mempool
mod Tests
