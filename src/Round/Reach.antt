-- ===== src/Round/Reach.antt =====
-- Rounds as they come about: the methods in any order, on any messages and clock readings.
use dude_fs.Prelude.{
  ℕ, ltb, ◌⊎◌, inl, inr, ◌≤◌, ℤ, Bool, true, false, not, ◌&&◌, some, List, Bytes, ◌≡◌, refl, sym,
  ap, ◌∙◌, leb, subst, arith, length, contains, select, ok, if◌then◌else◌, ◌==◌, list_eq, nat_eq,
  ℤ_eq, All,
}
use dude_fs.Prelude.Dict.{keys, update, lookup}
use dude_fs.Prelude.Sets.{Within, Distinct}
use dude_fs.Crypto.{Suite}
use dude_fs.Ops.{SignedTransaction, op_hash}
use dude_fs.Quorum.{intersection}
use dude_fs.Round.Types.{
  Bodies, RoundMsg, held, sig_msg, bodies, bucket_of, prev_block_of, verify_sig, Round, Block,
  State, collect, finalize, gone, was_abandoned, block_slice_hash,
}
use dude_fs.Round.Machine.{
  start, add_local, receive, absorb, by_hash, is_collect, is_finalize, advertise, on_sig, dispatch,
  conflicts, is_gone,
}
use dude_fs.Round.Close.{tick, drain, has_local, finalize_round, abandon}
use dude_fs.Round.Valid.{Core, core, IsValid}
use dude_fs.Round.Preserve.{
  start-IsValid, receive-IsValid, ok_value, core-on_held, core-if, core-match, core-list,
}
use dude_fs.Round.Finish.{tick-IsValid}
use dude_fs.Round.Agreement.{agreement, HasSigned}

module _ (c : Suite) where
  -- The rounds that the methods can lead to.
  pub data Reached : Round → Type 0 where
    started :
        {r : Round} (bucket : ℤ) (seed : Bytes) (roster : List Bytes) (prev : Bytes)
        (now close_by abandon_by : ℕ) (screen : List SignedTransaction → List Bytes)
        → start c bucket seed roster prev now close_by abandon_by screen ≡ ok r
        → Reached r
    added :
        {r r' : Round} (txs : List SignedTransaction)
        → Reached r
        → add_local c txs r ≡ ok r'
        → Reached r'
    received :
        {r r' : Round} (m : RoundMsg) (from : Bytes) (now : ℕ)
        → Reached r
        → receive c m from now r ≡ ok r'
        → Reached r'
    absorbed :
        {r : Round} (m : Bodies) (from : Bytes) (validated : List SignedTransaction)
        → Reached r
        → Reached (absorb c m from validated r)
    ticked : {r r' : Round} (now : ℕ) → Reached r → tick c now r ≡ ok r' → Reached r'
    drained : {r : Round} → Reached r → Reached (drain r).1

  core-add_local :
      (txs : List SignedTransaction) (r r' : Round) → add_local c txs r ≡ ok r' → core r' ≡ core r
  unfolding add_local
  core-add_local txs r r' h = ground arith

  core-absorb :
      (m : Bodies) (from : Bytes) (validated : List SignedTransaction) (r : Round)
      → core (absorb c m from validated r) ≡ core r
  unfolding absorb
  core-absorb m from validated r =
      core-if (not (m.bucket == r.bucket && contains from r.roster)) r _ r refl (
        core-if (not (m.prev_block == r.prev_block)) _ _ r refl (
          core-match r.local_bodies r _ λ local. core-if (not (is_collect r.state)) r _ r refl (
            core-list
              (by_hash c (select (λ tx. not (contains (op_hash c tx) (keys local))) validated)) r
              (λ es.
                advertise (update local es) (record r { local_bodies = some (update local es) }))
              (λ es. refl))))

module _ (c : Suite)
    (honest : (seed msg : Bytes) → c.verify (c.public seed) msg (c.sign seed msg) ≡ true) where
  -- Every round that the methods can lead to is valid: the signatures held are of distinct members of
  -- the roster and verify for its bucket and base block, the quorum is `size` of the roster, and a
  -- block is ratified exactly if the round is gone, under the slice hash that this node signed and
  -- with a quorum of the signatures held for it. What a node signs is taken to verify under its
  -- public key.
  pub Reached-IsValid : {r : Round} → Reached c r → IsValid c (core r)
  unfolding drain
  Reached-IsValid (started {r = r} bucket seed roster prev now close_by abandon_by screen h) =
      start-IsValid c bucket seed roster prev now close_by abandon_by screen r h
  Reached-IsValid (added {r = r} {r' = r'} txs s h) =
      subst (IsValid c) (sym (core-add_local c txs r r' h)) (Reached-IsValid s)
  Reached-IsValid (received {r = r} {r' = r'} m from now s h) =
      receive-IsValid c m from now r r' h (Reached-IsValid s)
  Reached-IsValid (absorbed {r = r} m from validated s) =
      subst (IsValid c) (sym (core-absorb c m from validated r)) (Reached-IsValid s)
  Reached-IsValid (ticked {r = r} {r' = r'} now s h) =
      tick-IsValid c honest now r r' h (Reached-IsValid s)
  Reached-IsValid (drained s) = Reached-IsValid s

  -- Two rounds that the methods led to, each with a screen of its own, have the same roster, bucket
  -- and base block, and each has
  -- ratified a block. Then there are at least `intersection` distinct members of the roster that have
  -- each signed the slice of the one block and that of the other, for this bucket and base block.
  -- What a node signs is taken to verify under its public key.
  pub Reached-agreement :
      {r t : Round} (x y : Block) (i : ℕ)
      → Reached c r
      → Reached c t
      → r.roster ≡ t.roster
      → r.bucket ≡ t.bucket
      → r.prev_block ≡ t.prev_block
      → r.ratified ≡ some x
      → t.ratified ≡ some y
      → intersection (length r.roster) ≡ ok i
      → (both : List Bytes) × (i ≤ length both)
        × Distinct both
        × Within both r.roster
        × All
            (λ pk.
              HasSigned c r.bucket r.prev_block (block_slice_hash c x) pk
              × HasSigned c r.bucket r.prev_block (block_slice_hash c y) pk)
            both
  Reached-agreement {r} {t} x y i p q rosters buckets bases rx ry hi =
      agreement c (core r) (core t) x y i (Reached-IsValid p) (Reached-IsValid q) rosters buckets
        bases rx ry hi

core-off : (b : Bool) (x y : Round) → b ≡ false → core (if b then x else y) ≡ core y
core-off true x y h = absurd (cc)
core-off false x y h = refl

off_collect : (s : State) (b : Bool) → s ≡ gone → (is_collect s && b) ≡ false
off_collect s b h = rw h refl

off_finalize : (s : State) (b : Bool) → s ≡ gone → (is_finalize s && b) ≡ false
off_finalize s b h = rw h refl

module _ (c : Suite) where
  gone_held :
      (m : RoundMsg) (from : Bytes) (r : Round)
      → r.state ≡ gone
      → core (dispatch c m from r) ≡ core r
  unfolding on_sig
  gone_held (held m) from r over = core-on_held c m from r
  gone_held (bodies m) from r over = refl
  gone_held (sig_msg m) from r over =
      core-if (not (verify_sig c m from)) r _ r refl
        (core-if (conflicts c (lookup from r.peer_sigs) m) _ _ r refl (when_gone r.state _ over))
    where
      when_gone : (s : State) (x : Round) → s ≡ gone → core (if is_gone s then r else x) ≡ core r
      when_gone collect x e = absurd (cc)
      when_gone finalize x e = absurd (cc)
      when_gone gone x e = refl
      when_gone was_abandoned x e = absurd (cc)

  -- Once a round is gone, neither `receive` nor `tick` changes its block, its signatures, its state,
  -- or any other field of `Core`.
  pub gone_final :
      (r r' : Round) (m : RoundMsg) (from : Bytes) (now : ℕ)
      → r.state ≡ gone
      → (receive c m from now r ≡ ok r') ⊎ (tick c now r ≡ ok r')
      → core r' ≡ core r
  unfolding receive tick
  gone_final r r' m from now over (inl h) =
      let r₁ = record r { now = now } in
      subst (λ x. core x ≡ core r) (ok_value (ltb now r.now) _ r' h)
        (core-if (not (bucket_of m == r.bucket)) r₁ _ r refl (
          core-if (not (contains from r.roster)) r₁ _ r refl (
            core-if (not (prev_block_of m == r.prev_block)) _ _ r refl (gone_held m from r₁ over))))
  gone_final r r' m from now over (inr h) =
      let r₁ = record r { now = now } in
      let ready = is_collect r₁.state && (has_local c r₁ && leb r₁.close_by now) in
      let r₂ = if ready then finalize_round c r₁ else r₁ in
      let same : core r₂ ≡ core r =
        core-off ready (finalize_round c r₁) r₁ (off_collect r.state _ over) in
      let over₂ : r₂.state ≡ gone = ap (λ (k : Core). k.state) same ∙ over in
      subst (λ x. core x ≡ core r) (ok_value (ltb now r.now) _ r' h)
        (core-off (is_finalize r₂.state && leb r₂.abandon_by now) (abandon c r₂) r₂
            (off_finalize r₂.state _ over₂)
          ∙ same)
