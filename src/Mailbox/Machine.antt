-- ===== src/Mailbox/Machine.antt =====
-- The methods of `Mailbox`.
use dude_fs.Prelude.{
  ℕ, zero, suc, ◌+◌, ◌-◌, max, Bool, true, false, not, ◌&&◌, Option, none, some, List, [], ◌∷◌, map,
  Bytes, if◌then◌else◌, ltb, leb, length, take, contains, ℤ, pos, negsuc, select, ◌==◌, list_eq,
  nat_eq,
}
use dude_fs.Prelude.Dict.{Dict, keys, lookup, insert, remove}
use dude_fs.Prelude.Order.{sort_by}
use dude_fs.Mailbox.Types.{
  Envelope, SignedEnvelope, Expiry, undelivered, unanswered, Transmit, Attempt, Reply, Expired,
  Pending, Mailbox,
}

abbrev pub prefix_size : ℕ
prefix_size = 7

abbrev pub id_size : ℕ
id_size = 8

-- `self[:PREFIX_SIZE]`
unfoldable pub correlation_id : Bytes → Bytes
correlation_id mid = take prefix_size mid

-- `self[PREFIX_SIZE]`, for an id of `SIZE` bytes
unfoldable pub attempt_byte : ℕ → Bytes → ℕ
attempt_byte n [] = 0
attempt_byte zero (b ∷ bs) = b
attempt_byte (suc n) (b ∷ bs) = attempt_byte n bs

-- The loop of `post` that draws another prefix while the one at hand is taken.
unfoldable pub free_prefix : List Bytes → Bytes → List Bytes → Option Bytes
free_prefix taken prefix [] = if contains prefix taken then none else some prefix
free_prefix taken prefix (d ∷ draws) =
    let again = free_prefix taken d draws in if contains prefix taken then again else some prefix

-- The prefixes that the random source gives are an argument.
unfoldable pub post : List Bytes → Envelope → ℕ → ℕ → Bool → Mailbox → Option (Bytes × Mailbox)
unfolding free_prefix correlation_id
post draws envelope now ttl await_reply m =
    elim (free_prefix (keys m) (correlation_id envelope.mid) draws) [
      | none ↦ none
      | some prefix ↦ some (
        prefix,
        insert prefix
            (record {
              envelope = some envelope;
              to = envelope.to;
              prefix = prefix;
              deadline = now + ttl;
              next_at = now;
              attempts = [];
              in_flight = false;
              awaiting_reply = await_reply;
            })
            m,
      )
    ]

unfoldable pub expect : Bytes → Bytes → ℕ → ℕ → Mailbox → Mailbox
expect prefix to now ttl m =
    insert prefix
      (record {
        envelope = none;
        to = to;
        prefix = prefix;
        deadline = now + ttl;
        next_at = now + ttl;
        attempts = [];
        in_flight = true;
        awaiting_reply = true;
      })
      m

abbrev pub has_envelope : Pending → Bool
has_envelope p = elim p.envelope [ none ↦ false | some e ↦ true ]

-- What `due` does not pass over.
abbrev pub is_due : ℕ → Pending → Bool
is_due now p = has_envelope p && (not p.in_flight && (leb p.next_at now && ltb now p.deadline))

abbrev pub due_key : Bytes × Pending → Bytes
due_key e = e.1.deadline ∷ e.0

unfoldable pub transmits : List (Bytes × Pending) → List Transmit
transmits [] = []
transmits (e ∷ es) =
    let rest = transmits es in
    elim e.1.envelope [
      | none ↦ rest
      | some env ↦
          record { to = e.1.to; envelope = env; prefix = e.0; attempt = length e.1.attempts } ∷ rest
    ]

abbrev pub launch : ℕ → Bytes × Pending → Bytes × Pending
launch now e = (e.0, (if is_due now e.1 then record e.1 { in_flight = true } else e.1))

unfoldable pub due : ℕ → Mailbox → List Transmit × Mailbox
unfolding transmits
due now m = (transmits (select (λ e. is_due now e.1) (sort_by due_key m)), map (launch now) m)

unfoldable pub sent : Bytes → ℕ → Bytes → ℕ → Option ℕ → Mailbox → Mailbox
sent prefix attempt address now again_at m = elim (lookup prefix m) [
  | none ↦ m
  | some p ↦
      let p' = record p {
        attempts = insert attempt (record { address = address; sent_at = now }) p.attempts;
      } in
      if not p.awaiting_reply then remove prefix m else elim again_at [
        | some at ↦ insert prefix (record p' { in_flight = false; next_at = at }) m
        | none ↦ insert prefix (record p' { in_flight = true }) m
      ]
]

unfoldable pub failed : Bytes → ℕ → Mailbox → Mailbox
failed prefix retry_at m = elim (lookup prefix m) [
  | none ↦ m
  | some p ↦ insert prefix (record p { in_flight = false; next_at = retry_at }) m
]

-- `now - a.sent_at`, which is negative if the clock ran backwards
unfoldable pub elapsed : ℕ → ℕ → ℤ
elapsed now past = if leb past now then pos (now - past) else negsuc (past - now - 1)

unfoldable pub reply_of : Bytes → ℕ → Option Attempt → Reply
unfolding elapsed
reply_of prefix now none = record { prefix = prefix; address = none; rtt = none }
reply_of prefix now (some a) = record {
  prefix = prefix;
  address = some a.address;
  rtt = some (elapsed now a.sent_at);
}

unfoldable pub arrived : SignedEnvelope → ℕ → Mailbox → Option Reply × Mailbox
unfolding correlation_id attempt_byte reply_of
arrived e now m =
    let mid = e.env.reply_to in
    let prefix = correlation_id mid in
    if not (length mid == id_size) then (none, m) else elim (lookup prefix m) [
      | none ↦ (none, m)
      | some p ↦
          (if not (p.to == e.frm) then (none, m) else (
            some (reply_of prefix now (lookup (attempt_byte prefix_size mid) p.attempts)),
            remove prefix m,
          ))
    ]

-- `max(p.attempts)`
unfoldable pub last_attempt : Dict ℕ Attempt → ℕ
last_attempt [] = 0
last_attempt (e ∷ es) = max e.0 (last_attempt es)

unfoldable pub last_address_is : Bytes → Dict ℕ Attempt → Bool
unfolding last_attempt
last_address_is address attempts = elim (lookup (last_attempt attempts) attempts) [
  | none ↦ false
  | some a ↦ a.address == address
]

abbrev pub is_hit : Bytes → Pending → Bool
is_hit address p = p.in_flight && last_address_is address p.attempts

unfoldable pub failed_on : Bytes → ℕ → Mailbox → ℕ × Mailbox
unfolding last_address_is
failed_on address retry_at m = (
  length (select (λ e. is_hit address e.1) m),
  map
      (λ e. (
        e.0,
        (if is_hit address e.1 then record e.1 { in_flight = false; next_at = retry_at } else e.1),
      ))
      m,
)

-- The address of the only attempt.
unfoldable pub charge : Dict ℕ Attempt → Option Bytes
charge (e ∷ []) = some e.1.address
charge _ = none

unfoldable pub expire : Bytes → Mailbox → Option Expired × Mailbox
unfolding charge
expire prefix m = elim (lookup prefix m) [
  | none ↦ (none, m)
  | some p ↦ (
    some (record {
      prefix = prefix;
      to = p.to;
      why = undelivered;
      attempts = length p.attempts;
      address = charge p.attempts;
    }),
    remove prefix m,
  )
]

abbrev pub why_expired : Pending → Expiry
why_expired p = if ltb 0 (length p.attempts) && p.awaiting_reply then unanswered else undelivered

abbrev pub prefix_key : Bytes × Pending → Bytes
prefix_key e = e.0

unfoldable pub expired : ℕ → Mailbox → List Expired × Mailbox
unfolding charge
expired now m = (
  map
      (λ e. record {
        prefix = e.0;
        to = e.1.to;
        why = why_expired e.1;
        attempts = length e.1.attempts;
        address = charge e.1.attempts;
      })
      (sort_by prefix_key (select (λ e. leb e.1.deadline now) m)),
  select (λ e. not (leb e.1.deadline now)) m,
)

unfoldable pub deadline : Bytes → Mailbox → ℕ
deadline prefix m = elim (lookup prefix m) [ none ↦ 0 | some p ↦ p.deadline ]
