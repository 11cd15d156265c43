-- ===== src/SettleRound/Valid.antt =====
-- The invariant of a settle round: whose signatures it holds, and what a settled block is made of.
use dude_fs.Prelude.{
  Result-cases, ◌+◌, ◌≤◌, true, Option, none, some, List, Bytes, ◌≡◌, refl, sym, ◌∙◌, subst, arith,
  length, All, contains, ok, err, Result, ltb, list_eq, nat_eq, ℤ_eq, Bool-cases, inl, inr, eq_true,
  and-eq-true,
}
use dude_fs.Prelude.Dict.{keys, insert, insert-Distinct, insert-Within, insert-All}
use dude_fs.Prelude.Sets.{Distinct, Within}
use dude_fs.Crypto.{Suite}
use dude_fs.Crypto.Bitmap.{combine}
use dude_fs.Quorum.{size}
use dude_fs.Round.Types.{Target, block_slice_hash}
use dude_fs.SettleRound.Types.{
  Anchors, same_anchors, SettleSig, SettledBlock, settle_payload, SettleRound, SettleError,
  SettleState, collecting, has_settled, was_abandoned,
}
use dude_fs.SettleRound.Machine.{is_collecting, shares_from, try_settle}

pub same_anchors-eq : (a b : Anchors) → same_anchors a b ≡ true → a ≡ b
unfolding same_anchors
same_anchors-eq a b h =
    let (p, h₁) = and-eq-true _ _ h in
    let (q, h₂) = and-eq-true _ _ h₁ in
    let (s, h₃) = and-eq-true _ _ h₂ in
    let (t, h₄) = and-eq-true _ _ h₃ in
    let (u, v) = and-eq-true _ _ h₄ in
    let e₁ = eq_true a.block_num b.block_num p in
    let e₂ = eq_true a.height b.height q in
    let e₃ = eq_true a.prev_block b.prev_block s in
    let e₄ = eq_true a.state_root b.state_root t in
    let e₅ = eq_true a.acc_state b.acc_state u in let e₆ = eq_true a.acc_log b.acc_log v in cc

module _ (c : Suite) where
  abbrev pub SignedAnchors : Bytes → Anchors → Bytes × Bytes → Type 0
  SignedAnchors slice_hash anchors e = c.verify e.0 (settle_payload slice_hash anchors) e.1 ≡ true

  -- A settled block: it is about the round's block and anchors, and its multisig combines what the
  -- round holds, which is at least a quorum.
  pub record IsSettled (r : SettleRound) (b : SettledBlock) : Type 0 where
    pub same_block : b.block ≡ r.block
    pub same_anchors : b.anchors ≡ r.anchors
    pub enough : r.quorum ≤ length r.sigs
    pub combined : combine (shares_from 0 r.roster r.sigs) (length r.roster + 1) ≡ ok b.multisig

  abbrev pub Outcome : SettleState → Option SettledBlock → SettleRound → Type 0
  Outcome collecting settled r = settled ≡ none
  Outcome has_settled settled r = (b : SettledBlock) × (settled ≡ some b) × IsSettled r b
  Outcome was_abandoned settled r = settled ≡ none

  pub record IsValid (r : SettleRound) : Type 0 where
    pub own_key : r.me ≡ c.public r.seed
    pub member : contains r.me r.roster ≡ true
    pub quorum_size : size (length r.roster) ≡ ok r.quorum
    pub own_slice : r.slice_hash ≡ block_slice_hash c r.block
    pub distinct : Distinct (keys r.sigs)
    pub inside : Within (keys r.sigs) r.roster
    pub signed : All (SignedAnchors r.slice_hash r.anchors) r.sigs
    pub outcome : Outcome r.state r.settled r

  collecting_of : (s : SettleState) → is_collecting s ≡ true → s ≡ collecting
  collecting_of collecting h = refl
  collecting_of has_settled h = cc
  collecting_of was_abandoned h = cc

  pub try_settle-IsValid : (r r' : SettleRound) → try_settle r ≡ ok r' → IsValid r → IsValid r'
  unfolding try_settle
  try_settle-IsValid r r' h v = elim (Bool-cases (is_collecting r.state)) [
    | inr idle ↦ same (rw idle at h)
    | inl live ↦ elim (Bool-cases (ltb (length r.sigs) r.quorum)) [
      | inl few ↦ same (rw (live, few) at h)
      | inr many ↦
          elim (Result-cases (combine (shares_from 0 r.roster r.sigs) (length r.roster + 1))) [
            | inr (e, failed) ↦ absurd (not_ok (rw (live, many, failed) at h))
            | inl (m, made) ↦ subst IsValid (ok_inj (rw (live, many, made) at h)) (record {
              own_key = v.own_key;
              member = v.member;
              quorum_size = v.quorum_size;
              own_slice = v.own_slice;
              distinct = v.distinct;
              inside = v.inside;
              signed = v.signed;
              outcome = (
                record { block = r.block; anchors = r.anchors; multisig = m },
                refl,
                record {
                  same_block = refl;
                  same_anchors = refl;
                  enough = ground arith;
                  combined = made;
                },
              );
            })
          ]
    ]
  ]
    where
      ok_inj : {x : SettleRound} → ◌≡◌ {A = Result SettleError SettleRound} (ok x) (ok r') → x ≡ r'
      ok_inj e = cc

      same : ◌≡◌ {A = Result SettleError SettleRound} (ok r) (ok r') → IsValid r'
      same e = subst IsValid (ok_inj e) v

      not_ok : {e : SettleError} → ¬ (◌≡◌ {A = Result SettleError SettleRound} (err e) (ok r'))
      not_ok e = cc

  -- A verified signature of a roster member may be taken in while the round collects.
  pub take_share :
      (r : SettleRound) (from sig : Bytes)
      → contains from r.roster ≡ true
      → SignedAnchors r.slice_hash r.anchors (from, sig)
      → is_collecting r.state ≡ true
      → IsValid r
      → IsValid (record r { sigs = insert from sig r.sigs })
  take_share r from sig member signed live v = record {
    own_key = v.own_key;
    member = v.member;
    quorum_size = v.quorum_size;
    own_slice = v.own_slice;
    distinct = insert-Distinct from sig r.sigs v.distinct;
    inside = insert-Within from sig r.sigs r.roster member v.inside;
    signed = insert-All (SignedAnchors r.slice_hash r.anchors) from sig r.sigs signed v.signed;
    outcome = still_open r.state r.settled (collecting_of r.state live) v.outcome;
  }
    where
      still_open :
          (s : SettleState) (settled : Option SettledBlock)
          → s ≡ collecting
          → Outcome s settled r
          → Outcome s settled (record r { sigs = insert from sig r.sigs })
      still_open collecting settled e o = o
      still_open has_settled settled e o = absurd (cc)
      still_open was_abandoned settled e o = o

  -- The invariant does not depend on divergences and outbox.
  pub IsValid-notes :
      (r : SettleRound) (d : List (Bytes × Anchors)) (o : List (Target × SettleSig))
      → IsValid r
      → IsValid (record r { divergences = d; outbox = o })
  IsValid-notes r d o v = record {
    own_key = v.own_key;
    member = v.member;
    quorum_size = v.quorum_size;
    own_slice = v.own_slice;
    distinct = v.distinct;
    inside = v.inside;
    signed = v.signed;
    outcome = same_outcome r.state r.settled v.outcome;
  }
    where
      same_outcome :
          (s : SettleState) (settled : Option SettledBlock)
          → Outcome s settled r
          → Outcome s settled (record r { divergences = d; outbox = o })
      same_outcome collecting settled h = h
      same_outcome was_abandoned settled h = h
      same_outcome has_settled settled (b, e, h) = (
        b,
        e,
        record {
          same_block = h.same_block;
          same_anchors = h.same_anchors;
          enough = h.enough;
          combined = h.combined;
        },
      )

  -- A round that collects may be given up.
  pub IsValid-abandoned :
      (r : SettleRound)
      → is_collecting r.state ≡ true
      → IsValid r
      → IsValid (record r { state = was_abandoned })
  IsValid-abandoned r live v = record {
    own_key = v.own_key;
    member = v.member;
    quorum_size = v.quorum_size;
    own_slice = v.own_slice;
    distinct = v.distinct;
    inside = v.inside;
    signed = v.signed;
    outcome = subst (λ s. Outcome s r.settled r) (collecting_of r.state live) v.outcome;
  }

  pub IsSettled-of :
      (r : SettleRound) (s : SettleState) (settled : Option SettledBlock) (b : SettledBlock)
      → Outcome s settled r
      → settled ≡ some b
      → IsSettled r b
  IsSettled-of r collecting settled b o e = absurd (cc)
  IsSettled-of r was_abandoned settled b o e = absurd (cc)
  IsSettled-of r has_settled settled b o e =
      let wrapped : some o.0 ≡ some b = sym o.1 ∙ e in
      let same : o.0 ≡ b = cc in subst (IsSettled r) same o.2
