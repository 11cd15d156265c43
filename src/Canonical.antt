-- ===== src/Canonical.antt =====
-- dude/consensus/canonical.py: batches in ascending order of their hashes. A frozenset of digests is
-- a list; what is made of one is sorted first or only asked for its members.
use dude_fs.Prelude.{Bytes, List, map, contains, select, list_eq, nat_eq}
use dude_fs.Prelude.Order.{sort_by}
use dude_fs.Crypto.{Suite}
use dude_fs.Ops.{SignedTransaction, op_hash}

-- The transactions of a `CanonicalBatch`: its constructor sorts them.
unfoldable pub bodies_canonical : Suite → List SignedTransaction → List SignedTransaction
bodies_canonical c txs = sort_by (op_hash c) txs

abbrev pub op_hashes : Suite → List SignedTransaction → List Bytes
op_hashes c txs = map (op_hash c) txs

-- `CanonicalBatch.filter`
unfoldable pub filter_batch : Suite → List SignedTransaction → List Bytes → List SignedTransaction
unfolding bodies_canonical
filter_batch c txs kept = bodies_canonical c (select (λ tx. contains (op_hash c tx) kept) txs)

abbrev pub digest_key : Bytes → Bytes
digest_key d = d

unfoldable pub hashes_canonical : List Bytes → List Bytes
hashes_canonical hashes = sort_by digest_key hashes
