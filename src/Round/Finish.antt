-- ===== src/Round/Finish.antt =====
-- The end of a round and its invariant.
use dude_fs.Prelude.{
  ℕ, true, ◌&&◌, Option, none, some, List, Bytes, ◌≡◌, refl, sym, subst, arith, ok, if◌then◌else◌,
  ltb, leb, list_eq, nat_eq, ℤ_eq, and-eq-true,
}
use dude_fs.Prelude.Dict.{insert, insert-Distinct, insert-Within, insert-All}
use dude_fs.Crypto.{Suite}
use dude_fs.Canonical.{op_hashes}
use dude_fs.Round.Types.{
  sig_msg, everyone, Round, State, collect, finalize, gone, was_abandoned, sig_payload, sign_slice,
  slice_hash_of,
}
use dude_fs.Round.Machine.{post, is_collect, is_finalize}
use dude_fs.Round.Close.{applicable, left_over, has_local, finalize_round, abandon, tick}
use dude_fs.Round.Valid.{Core, core, IsValid, Outcome, SignedFor, try_ratify-IsValid, finalize_of}
use dude_fs.Round.Preserve.{ok_value, IsValid-if}

module _ (c : Suite) where
  by_local :
      {A : Type 0} (o : Option A) (r : Round) (f : A → Round)
      → IsValid c (core r)
      → ((a : A) → IsValid c (core (f a)))
      → IsValid c (core (elim o [ none ↦ r | some a ↦ f a ]))
  by_local none r f v h = v
  by_local (some a) r f v h = h a

  -- Entering FINALIZE: this node's own signature joins the others.
  take_own :
      (honest : (seed msg : Bytes) → c.verify (c.public seed) msg (c.sign seed msg) ≡ true)
      (k : Core) (pending : List Bytes)
      → k.state ≡ collect
      → IsValid c k
      → IsValid c (record k {
        state = finalize;
        my_sig =
            some (sign_slice c k.seed k.bucket k.prev_block (slice_hash_of c k.bucket pending));
        peer_sigs =
            insert k.me
              (sign_slice c k.seed k.bucket k.prev_block (slice_hash_of c k.bucket pending))
              k.peer_sigs;
        pending = pending;
      })
  unfolding sign_slice
  take_own honest k pending collecting v =
      let mine = sign_slice c k.seed k.bucket k.prev_block (slice_hash_of c k.bucket pending) in
      record {
        own_key = v.own_key;
        member = v.member;
        quorum_size = v.quorum_size;
        distinct = insert-Distinct k.me mine k.peer_sigs v.distinct;
        inside = insert-Within k.me mine k.peer_sigs k.roster v.member v.inside;
        signed =
            insert-All (SignedFor c k.bucket k.prev_block) k.me mine k.peer_sigs
              (subst
                (λ pk.
                  c.verify pk (sig_payload k.bucket k.prev_block mine.slice_hash)
                    (c.sign k.seed (sig_payload k.bucket k.prev_block mine.slice_hash))
                  ≡ true)
                (sym v.own_key) (honest k.seed (sig_payload k.bucket k.prev_block mine.slice_hash)))
              v.signed;
        outcome =
            (subst (λ s. Outcome c s k.my_sig k.ratified k) collecting v.outcome, mine, refl, refl);
      }

module _ (c : Suite)
    (honest : (seed msg : Bytes) → c.verify (c.public seed) msg (c.sign seed msg) ≡ true) where
  finalize_round-IsValid :
      (r : Round) → r.state ≡ collect → IsValid c (core r) → IsValid c (core (finalize_round c r))
  unfolding finalize_round
  finalize_round-IsValid r collecting v = by_local c r.local_bodies r _ v λ local.
      let txs = applicable c local r in
      let mine =
        sign_slice c r.seed r.bucket r.prev_block (slice_hash_of c r.bucket (op_hashes c txs)) in
      try_ratify-IsValid c
        (post everyone (sig_msg mine) (record r {
          slice_bodies = txs;
          my_sig = some mine;
          peer_sigs = insert r.me mine r.peer_sigs;
          surviving = left_over c local (op_hashes c txs);
          pending_slice_hashes = op_hashes c txs;
          state = finalize;
        }))
        (take_own c honest (core r) (op_hashes c txs) collecting v)

  abandon-IsValid :
      (r : Round) → r.state ≡ finalize → IsValid c (core r) → IsValid c (core (abandon c r))
  unfolding abandon
  abandon-IsValid r finalizing v = by_local c r.local_bodies r _ v λ local. record {
    own_key = v.own_key;
    member = v.member;
    quorum_size = v.quorum_size;
    distinct = v.distinct;
    inside = v.inside;
    signed = v.signed;
    outcome = (subst (λ s. Outcome c s r.my_sig r.ratified (core r)) finalizing v.outcome).0;
  }

  collect_of : (s : State) → is_collect s ≡ true → s ≡ collect
  collect_of collect h = refl
  collect_of finalize h = cc
  collect_of gone h = cc
  collect_of was_abandoned h = cc

  -- The clock keeps the invariant: what `tick` signs, ratifies or abandons is accounted for.
  pub tick-IsValid :
      (now : ℕ) (r r' : Round) → tick c now r ≡ ok r' → IsValid c (core r) → IsValid c (core r')
  unfolding tick
  tick-IsValid now r r' h v =
      let r₁ = record r { now = now } in
      let ready = is_collect r₁.state && (has_local c r₁ && leb r₁.close_by now) in
      let r₂ = if ready then finalize_round c r₁ else r₁ in
      let v₂ : IsValid c (core r₂) =
        IsValid-if c ready (finalize_round c r₁) r₁
          (λ e. finalize_round-IsValid r₁ (collect_of r.state (ground arith)) v) (λ _. v) in
      subst (λ x. IsValid c (core x)) (ok_value (ltb now r.now) _ r' h)
        (IsValid-if c (is_finalize r₂.state && leb r₂.abandon_by now) (abandon c r₂) r₂
          (λ e. abandon-IsValid r₂ (finalize_of c r₂.state (and-eq-true _ _ e).0) v₂) (λ _. v₂))
