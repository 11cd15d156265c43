-- ===== src/Round/Valid.antt =====
-- The invariant of a round: whose signatures it holds, and when it has ratified a block.
use dude_fs.Prelude.{
  ℕ, ◌≤◌, ℤ, true, Option, none, some, List, [], ◌∷◌, Bytes, ◌≡◌, refl, ap, sym, ◌∙◌, subst, map,
  arith, length, All, contains, ok, ltb, list_eq, nat_eq, Bool-cases, inl, inr,
}
use dude_fs.Prelude.Dict.{Dict, keys}
use dude_fs.Prelude.Sets.{Distinct, Within}
use dude_fs.Prelude.Order.{sort_by-sort_by}
use dude_fs.Crypto.{Suite}
use dude_fs.Codec.{int, bytes}
use dude_fs.Codec.Plain.{encoded, tuple}
use dude_fs.Canonical.{hashes_canonical, digest_key}
use dude_fs.Quorum.{size}
use dude_fs.Round.Types.{
  Sig, Round, Block, State, collect, finalize, gone, was_abandoned, sig_payload, slice_hash_of,
  block_slice_hash,
}
use dude_fs.Round.Machine.{agreeing, try_ratify, is_finalize}

-- The fields that agreement rests on.
pub record Core : Type 0 where
  pub bucket : ℤ
  pub seed : Bytes
  pub me : Bytes
  pub roster : List Bytes
  pub prev_block : Bytes
  pub quorum : ℕ
  pub state : State
  pub peer_sigs : Dict Bytes Sig
  pub my_sig : Option Sig
  pub ratified : Option Block
  pub pending : List Bytes

abbrev pub core : Round → Core
core r = record {
  bucket = r.bucket;
  seed = r.seed;
  me = r.me;
  roster = r.roster;
  prev_block = r.prev_block;
  quorum = r.quorum;
  state = r.state;
  peer_sigs = r.peer_sigs;
  my_sig = r.my_sig;
  ratified = r.ratified;
  pending = r.pending_slice_hashes;
}

module _ (c : Suite) where
  -- A signature that its sender made for this round.
  abbrev pub SignedFor : ℤ → Bytes → Bytes × Sig → Type 0
  SignedFor bucket prev e = c.verify e.0 (sig_payload bucket prev e.1.slice_hash) e.1.sig ≡ true

  -- A ratified block: the hash of its slice is the one that this node signed, and a quorum of the
  -- signatures held is for it.
  pub record IsRatified (k : Core) (b : Block) : Type 0 where
    pub mine : Sig
    pub own : k.my_sig ≡ some mine
    pub same_slice : block_slice_hash c b ≡ mine.slice_hash
    pub same_bucket : b.bucket ≡ k.bucket
    pub enough : k.quorum ≤ length (agreeing c mine.slice_hash k.peer_sigs)

  abbrev pub Outcome : State → Option Sig → Option Block → Core → Type 0
  Outcome collect sig block k = block ≡ none
  Outcome finalize sig block k =
      (block ≡ none)
      × (mine : Sig) × (sig ≡ some mine)
      × (mine.slice_hash ≡ slice_hash_of c k.bucket k.pending)
  Outcome gone sig block k = (b : Block) × (block ≡ some b) × IsRatified k b
  Outcome was_abandoned sig block k = block ≡ none

  pub record IsValid (k : Core) : Type 0 where
    pub own_key : k.me ≡ c.public k.seed
    pub member : contains k.me k.roster ≡ true
    pub quorum_size : size (length k.roster) ≡ ok k.quorum
    pub distinct : Distinct (keys k.peer_sigs)
    pub inside : Within (keys k.peer_sigs) k.roster
    pub signed : All (SignedFor k.bucket k.prev_block) k.peer_sigs
    pub outcome : Outcome k.state k.my_sig k.ratified k

  canonical_twice : (hs : List Bytes) → hashes_canonical (hashes_canonical hs) ≡ hashes_canonical hs
  unfolding hashes_canonical
  canonical_twice hs = sort_by-sort_by digest_key hs

  slice_hash_of-hashes_canonical :
      (bucket : ℤ) (hs : List Bytes)
      → slice_hash_of c bucket (hashes_canonical hs) ≡ slice_hash_of c bucket hs
  unfolding slice_hash_of
  slice_hash_of-hashes_canonical bucket hs =
      ap (λ x. c.h (encoded (tuple (int bucket ∷ tuple (map bytes x) ∷ [])))) (canonical_twice hs)

  pub finalize_of : (s : State) → is_finalize s ≡ true → s ≡ finalize
  finalize_of collect h = cc
  finalize_of finalize h = refl
  finalize_of gone h = cc
  finalize_of was_abandoned h = cc

  Outcome-finalize :
      (s : State) (sig : Option Sig) (block : Option Block) (k : Core)
      → s ≡ finalize
      → Outcome s sig block k
      → (mine : Sig) × (sig ≡ some mine) × (mine.slice_hash ≡ slice_hash_of c k.bucket k.pending)
  Outcome-finalize s sig block k e o =
      let p = subst (λ t. Outcome t sig block k) e o in (p.1, p.2, p.3)

  pub try_ratify-IsValid : (r : Round) → IsValid (core r) → IsValid (core (try_ratify c r))
  unfolding try_ratify
  try_ratify-IsValid r v = elim (Bool-cases (is_finalize r.state)) [
    | inr other ↦ rw other v
    | inl active ↦
        let (mine, own, slice) =
          Outcome-finalize r.state r.my_sig r.ratified (core r) (finalize_of r.state active)
            v.outcome in
        elim (Bool-cases (ltb (length (agreeing c mine.slice_hash r.peer_sigs)) r.quorum)) [
          | inl few ↦ rw (active, own, few) v
          | inr many ↦
              rw (active, own, many)
                (record {
                  own_key = v.own_key;
                  member = v.member;
                  quorum_size = v.quorum_size;
                  distinct = v.distinct;
                  inside = v.inside;
                  signed = v.signed;
                  outcome = (
                    record { bucket = r.bucket; hashes = hashes_canonical r.pending_slice_hashes },
                    refl,
                    record {
                      mine = mine;
                      own = own;
                      same_slice =
                          slice_hash_of-hashes_canonical r.bucket r.pending_slice_hashes
                          ∙ sym slice;
                      same_bucket = refl;
                      enough = ground arith;
                    },
                  );
                })
        ]
  ]
