-- ===== src/Mailbox/Waiting.antt =====
-- What waits in a mailbox after each of its methods.
use dude_fs.Prelude.{
  ℕ, ◌+◌, ◌<◌, ◌∙◌, Bool, true, false, not, ◌&&◌, Option, none, some, List, [], ◌∷◌, map, Bytes,
  ◌≡◌, ◌≢◌, refl, arith, length, All, ltb, leb, contains, select, if◌then◌else◌, ◌==◌, list_eq,
  nat_eq, Bool-cases, Option-cases, inl, inr, eq_true, eq_self, ap,
}
use dude_fs.Prelude.Dict.{keys, lookup, remove, lookup-insert, lookup-remove}
use dude_fs.Prelude.Order.{sort_by, insert_by, sort_by-All}
use dude_fs.Mailbox.Types.{Envelope, SignedEnvelope, Reply, Pending, Mailbox}
use dude_fs.Mailbox.Machine.{
  post, free_prefix, arrived, correlation_id, id_size, due, transmits, is_due, launch, due_key,
  has_envelope, expired, prefix_key,
}

length-insert_by :
    {A : Type 0} (key : A → Bytes) (a : A) (xs : List A)
    → length (insert_by key a xs) ≡ length xs + 1
unfolding insert_by
length-insert_by key a [] = refl
length-insert_by key a (x ∷ xs) = ground (arith, length-insert_by key a xs)

length-sort_by : {A : Type 0} (key : A → Bytes) (xs : List A) → length (sort_by key xs) ≡ length xs
unfolding sort_by
length-sort_by key [] = refl
length-sort_by key (x ∷ xs) =
    omega (arith, length-sort_by key xs, length-insert_by key x (sort_by key xs))

length-map : {A B : Type 0} (f : A → B) (xs : List A) → length (map f xs) ≡ length xs
length-map f [] = refl
length-map f (x ∷ xs) = omega (arith, length-map f xs)

select_none :
    {A : Type 0} (p : A → Bool) (xs : List A) → All (λ x. p x ≡ false) xs → select p xs ≡ []
unfolding select
select_none p [] h = refl
select_none p (x ∷ xs) h = rw (h.0) (select_none p xs h.1)

never_both : (b t : Bool) → (b && (not true && t)) ≡ false
never_both true t = refl
never_both false t = refl

launched : (now : ℕ) (m : Mailbox) → All (λ e. is_due now e.1 ≡ false) (map (launch now) m)
launched now [] = tt
launched now (e ∷ m) = (one, launched now m)
  where
    one : is_due now (launch now e).1 ≡ false
    one = elim (Bool-cases (is_due now e.1)) [
      | inl ready ↦
          rw ready (never_both (has_envelope e.1) (leb e.1.next_at now && ltb now e.1.deadline))
      | inr waits ↦ rw waits waits
    ]

-- What `due` hands out at a time it does not hand out again at that time, unless a method in between
-- changes the mailbox.
pub due_once : (now : ℕ) (m : Mailbox) → (due now (due now m).1).0 ≡ []
unfolding due
due_once now m = ap transmits (
    select_none (λ e. is_due now e.1) _
      (sort_by-All due_key (λ e. is_due now e.1 ≡ false) _ (launched now m)))

-- A message is answered only if it waits under the correlation id that the answer names, and by the
-- peer it was sent to; then it waits no longer, and all other messages wait as before.
pub arrived_once :
    (e : SignedEnvelope) (now : ℕ) (m m' : Mailbox) (r : Reply)
    → arrived e now m ≡ (some r, m')
    → ((p : Pending) × (lookup (correlation_id e.env.reply_to) m ≡ some p) × (p.to ≡ e.frm))
      × ((j : Bytes)
          → lookup j m' ≡ (if correlation_id e.env.reply_to == j then none else lookup j m))
unfolding arrived
arrived_once e now m m' r h =
    let prefix = correlation_id e.env.reply_to in
    elim (Bool-cases (length e.env.reply_to == id_size)) [
      | inr short ↦ absurd (no_reply (rw short at h))
      | inl whole ↦ elim (Option-cases (lookup prefix m)) [
        | inl unknown ↦ absurd (no_reply (rw (whole, unknown) at h))
        | inr (p, known) ↦ elim (Bool-cases (p.to == e.frm)) [
          | inr stranger ↦ absurd (no_reply (rw (whole, known, stranger) at h))
          | inl addressed ↦
              let taken : remove prefix m ≡ m' =
                ap (λ x. x.1) (rw (whole, known, addressed) at h) in
              (
                (p, known, eq_true p.to e.frm addressed),
                λ j. rw (← taken) (lookup-remove prefix j m),
              )
        ]
      ]
    ]
  where
    no_reply : {x : Mailbox} → ¬ (◌≡◌ {A = Option Reply × Mailbox} (none, x) (some r, m'))
    no_reply q = cc (ap (λ x. x.0) q)

free_prefix_free :
    (taken : List Bytes) (prefix : Bytes) (draws : List Bytes) (out : Bytes)
    → free_prefix taken prefix draws ≡ some out
    → contains out taken ≡ false
unfolding free_prefix
free_prefix_free taken prefix [] out h = ground arith
free_prefix_free taken prefix (d ∷ draws) out h = ground (arith, free_prefix_free taken d draws out)

-- A message that is posted gets a prefix that no waiting message has; it waits under that prefix to be
-- sent at once and until its time is up, and all other messages wait as before.
post_fresh :
    (draws : List Bytes) (envelope : Envelope) (now ttl : ℕ) (await_reply : Bool) (m m' : Mailbox)
    (prefix : Bytes)
    → post draws envelope now ttl await_reply m ≡ some (prefix, m')
    → (contains prefix (keys m) ≡ false)
      × ((p : Pending) × (lookup prefix m' ≡ some p)
          × (p.envelope ≡ some envelope)
          × (p.in_flight ≡ false)
          × (p.next_at ≡ now)
          × (p.deadline ≡ now + ttl))
      × ((j : Bytes) → j ≢ prefix → lookup j m' ≡ lookup j m)
unfolding post
post_fresh draws envelope now ttl await_reply m m' prefix h =
    elim (Option-cases (free_prefix (keys m) (correlation_id envelope.mid) draws)) [
      | inl stuck ↦ absurd (stays (rw (post, stuck) at h))
      | inr (p, found) ↦
          let entry : Pending = record {
            envelope = some envelope;
            to = envelope.to;
            prefix = p;
            deadline = now + ttl;
            next_at = now;
            attempts = [];
            in_flight = false;
            awaiting_reply = await_reply;
          } in
          let (same, filled) = parts (rw (post, found) at h) in
          (
            rw (← same) (free_prefix_free (keys m) (correlation_id envelope.mid) draws p found),
            (
              entry,
              rw (← filled, ← same) (lookup-insert p p entry m ∙ rw (eq_self p) refl),
              refl,
              refl,
              refl,
              refl,
            ),
            λ j apart. rw (← filled) (lookup-insert p j entry m ∙ rw (other p j same apart) refl),
          )
    ]
  where
    stays : ¬ (◌≡◌ {A = Option (Bytes × Mailbox)} none (some (prefix, m')))
    stays q = cc

    parts :
        {p : Bytes} {n : Mailbox}
        → ◌≡◌ {A = Option (Bytes × Mailbox)} (some (p, n)) (some (prefix, m'))
        → (p ≡ prefix) × (n ≡ m')
    parts q = (cc, cc)

    other : (p j : Bytes) → p ≡ prefix → j ≢ prefix → (p == j) ≡ false
    other p j same apart = ground arith

-- The messages that `expired` reports and those it leaves are, in number, those that waited; each one it
-- leaves has time left.
pub expired_split :
    (now : ℕ) (m : Mailbox)
    → (length (expired now m).0 + length (expired now m).1 ≡ length m)
      × All (λ e. now < e.1.deadline) (expired now m).1
unfolding expired select
expired_split now m = (
  omega
      (arith, split m, length-map _ (sort_by prefix_key lapsed), length-sort_by prefix_key lapsed),
  left m,
)
  where
    lapsed : Mailbox
    lapsed = select (λ e. leb e.1.deadline now) m

    split :
        (n : Mailbox)
        → length (select (λ e. leb e.1.deadline now) n)
            + length (select (λ e. not (leb e.1.deadline now)) n)
          ≡ length n
    split [] = refl
    split (e ∷ n) = ground (arith, split n)

    left :
        (n : Mailbox) → All (λ e. now < e.1.deadline) (select (λ e. not (leb e.1.deadline now)) n)
    left [] = tt
    left (e ∷ n) = elim (Bool-cases (leb e.1.deadline now)) [
      | inl late ↦ rw late (left n)
      | inr early ↦ rw early (ground arith, left n)
    ]
