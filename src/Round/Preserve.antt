-- ===== src/Round/Preserve.antt =====
-- The methods of a round and its invariant.
use dude_fs.Prelude.{
  ℕ, ℤ, Bool, true, false, not, Option, none, some, List, [], ◌∷◌, Bytes, ◌≡◌, refl, sym, ◌∙◌,
  subst, arith, All, contains, select, ok, err, if◌then◌else◌, ltb, ◌==◌, list_eq, nat_eq, ℤ_eq,
}
use dude_fs.Prelude.Dict.{Dict, keys, insert, lookup, insert-Distinct, insert-Within, insert-All}
use dude_fs.Prelude.Sets.{Distinct, Within}
use dude_fs.Crypto.{Suite}
use dude_fs.Ops.{SignedTransaction}
use dude_fs.Quorum.{size}
use dude_fs.Prelude.Order.{sort_by}
use dude_fs.Canonical.{digest_key}
use dude_fs.Round.Types.{
  clock_went_back, Held, Sig, RoundMsg, held, sig_msg, bodies, bucket_of, prev_block_of, Round,
  State, collect, finalize, gone, was_abandoned, sig_payload, verify_sig,
}
use dude_fs.Round.Machine.{
  start, elected, gather, push_missing, on_held, on_sig, receive, send_bodies, dispatch, is_collect,
  is_gone, conflicts,
}
use dude_fs.Round.Valid.{Core, core, IsValid, Outcome, SignedFor, try_ratify-IsValid}

pub core-if :
    (b : Bool) (x y r : Round)
    → core x ≡ core r
    → core y ≡ core r
    → core (if b then x else y) ≡ core r
core-if true x y r p q = p
core-if false x y r p q = q

pub core-list :
    {A : Type 0} (l : List A) (r : Round) (f : List A → Round)
    → ((es : List A) → core (f es) ≡ core r)
    → core (elim l [ [] ↦ r | e ∷ es ↦ f (e ∷ es) ]) ≡ core r
core-list [] r f h = refl
core-list (e ∷ es) r f h = h (e ∷ es)

pub core-match :
    {A : Type 0} (o : Option A) (r : Round) (f : A → Round)
    → ((a : A) → core (f a) ≡ core r)
    → core (elim o [ none ↦ r | some a ↦ f a ]) ≡ core r
core-match none r f h = refl
core-match (some a) r f h = h a

pub ok_value : (b : Bool) (x r : Round) → (if b then err clock_went_back else ok x) ≡ ok r → x ≡ r
ok_value true x r h = absurd (cc)
ok_value false x r h = cc

module _ (c : Suite) where
  pub IsValid-if :
      (b : Bool) (x y : Round)
      → (b ≡ true → IsValid c (core x))
      → (b ≡ false → IsValid c (core y))
      → IsValid c (core (if b then x else y))
  IsValid-if true x y p q = p refl
  IsValid-if false x y p q = q refl

  core-gather :
      (to : Bytes) (local : Dict Bytes SignedTransaction) (ds : List Bytes) (r : Round)
      → core (gather c to local ds r).1 ≡ core r
  unfolding gather
  core-gather to local [] r = refl
  core-gather to local (d ∷ ds) r = core-gather to local ds (elected c d to r).1

  core-send_bodies :
      (to : Bytes) (p : List SignedTransaction × Round) → core (send_bodies c to p) ≡ core p.1
  core-send_bodies to ([], r) = refl
  core-send_bodies to (tx ∷ txs, r) = refl

  core-push_missing :
      (to : Bytes) (theirs : List Bytes) (r : Round) → core (push_missing c to theirs r) ≡ core r
  unfolding push_missing
  core-push_missing to theirs r = core-match r.local_bodies r _ λ local.
      core-if (not (is_collect r.state)) r _ r refl (
        let missing = sort_by digest_key (select (λ d. not (contains d theirs)) (keys local)) in
        core-send_bodies to (gather c to local missing r) ∙ core-gather to local missing r)

  pub core-on_held : (m : Held) (from : Bytes) (r : Round) → core (on_held c m from r) ≡ core r
  unfolding on_held
  core-on_held m from r = core-if (is_gone r.state) r _ r refl (
      core-push_missing from m.hashes (record r { peer_holds = insert from m.hashes r.peer_holds }))

  pub start-IsValid :
      (bucket : ℤ) (seed : Bytes) (roster : List Bytes) (prev : Bytes) (now close_by abandon_by : ℕ)
      (screen : List SignedTransaction → List Bytes) (r : Round)
      → start c bucket seed roster prev now close_by abandon_by screen ≡ ok r
      → IsValid c (core r)
  unfolding start size
  start-IsValid bucket seed roster prev now close_by abandon_by screen r h =
      let no_sigs : r.peer_sigs ≡ [] = ground arith in
      let collecting : r.state ≡ collect = ground arith in
      let no_block : r.ratified ≡ none = ground arith in
      record {
        own_key = ground arith;
        member = ground arith;
        quorum_size = ground arith;
        distinct = subst (λ sigs. Distinct (keys sigs)) (sym no_sigs) tt;
        inside = subst (λ sigs. Within (keys sigs) r.roster) (sym no_sigs) tt;
        signed = subst (λ sigs. All (SignedFor c r.bucket r.prev_block) sigs) (sym no_sigs) tt;
        outcome = subst (λ s. Outcome c s r.my_sig r.ratified (core r)) (sym collecting) no_block;
      }

  -- A verified signature of a roster member may be taken in, unless the round is gone.
  take_sig :
      (k : Core) (from : Bytes) (msg : Sig)
      → contains from k.roster ≡ true
      → SignedFor c k.bucket k.prev_block (from, msg)
      → is_gone k.state ≡ false
      → IsValid c k
      → IsValid c (record k { peer_sigs = insert from msg k.peer_sigs })
  take_sig k from msg member signed live v = record {
    own_key = v.own_key;
    member = v.member;
    quorum_size = v.quorum_size;
    distinct = insert-Distinct from msg k.peer_sigs v.distinct;
    inside = insert-Within from msg k.peer_sigs k.roster member v.inside;
    signed = insert-All (SignedFor c k.bucket k.prev_block) from msg k.peer_sigs signed v.signed;
    outcome = other_sigs k.state k.my_sig k.ratified live v.outcome;
  }
    where
      other_sigs :
          (s : State) (sig : _) (block : _)
          → is_gone s ≡ false
          → Outcome c s sig block k
          → Outcome c s sig block (record k { peer_sigs = insert from msg k.peer_sigs })
      other_sigs collect sig block live o = o
      other_sigs finalize sig block live o = o
      other_sigs gone sig block live o = absurd (cc)
      other_sigs was_abandoned sig block live o = o

  pub on_sig-IsValid :
      (m : Sig) (from : Bytes) (r : Round)
      → contains from r.roster ≡ true
      → m.bucket ≡ r.bucket
      → m.prev_block ≡ r.prev_block
      → IsValid c (core r)
      → IsValid c (core (on_sig c m from r))
  unfolding on_sig verify_sig
  on_sig-IsValid m from r member bucket prev v =
      IsValid-if (not (verify_sig c m from)) r _ (λ _. v)
        λ good.
          IsValid-if (conflicts c (lookup from r.peer_sigs) m) _ _ (λ _. v)
            λ _.
              IsValid-if (is_gone r.state) r _ (λ _. v)
                λ live.
                  let signed : c.verify from (sig_payload m.bucket m.prev_block m.slice_hash) m.sig
                      ≡ true =
                    ground arith in
                  try_ratify-IsValid c (record r { peer_sigs = insert from m r.peer_sigs })
                    (take_sig (core r) from m member (rw (bucket, prev) at signed) live v)

  pub dispatch-IsValid :
      (m : RoundMsg) (from : Bytes) (r : Round)
      → contains from r.roster ≡ true
      → bucket_of m ≡ r.bucket
      → prev_block_of m ≡ r.prev_block
      → IsValid c (core r)
      → IsValid c (core (dispatch c m from r))
  dispatch-IsValid (held m) from r member bucket prev v =
      subst (IsValid c) (sym (core-on_held m from r)) v
  dispatch-IsValid (sig_msg m) from r member bucket prev v =
      on_sig-IsValid m from r member bucket prev v
  dispatch-IsValid (bodies m) from r member bucket prev v = v

  -- Whatever message arrives from whomever, the invariant holds after it.
  pub receive-IsValid :
      (m : RoundMsg) (from : Bytes) (now : ℕ) (r r' : Round)
      → receive c m from now r ≡ ok r'
      → IsValid c (core r)
      → IsValid c (core r')
  unfolding receive
  receive-IsValid m from now r r' h v =
      let r₁ = record r { now = now } in
      subst (λ x. IsValid c (core x)) (ok_value (ltb now r.now) _ _ h)
        (IsValid-if (not (bucket_of m == r.bucket)) r₁ _ (λ _. v)
          λ same_bucket.
            IsValid-if (not (contains from r.roster)) r₁ _ (λ _. v)
              λ member.
                IsValid-if (not (prev_block_of m == r.prev_block)) _ _ (λ _. v)
                  λ same_prev.
                    dispatch-IsValid m from r₁ (ground arith) (ground arith) (ground arith) v)
