-- ===== src/Tests/Mailbox.antt =====
-- One message through a mailbox.
use dude_fs.Prelude.{
  true, false, none, some, [], ◌∷◌, Bytes, ◌≡◌, refl, list_discrete, ℕ_discrete, contains, ◌==◌,
  list_eq, nat_eq, if◌then◌else◌,
}
use dude_fs.Prelude.Dict.{lookup, insert, remove}
use dude_fs.Mailbox.Types.{Envelope, SignedEnvelope, Pending, Mailbox, Reply}
use dude_fs.Mailbox.Machine.{post, due, arrived, correlation_id}
use dude_fs.Mailbox.Waiting.{due_once, arrived_once}

abbrev message : Envelope
message = record { to = 9 ∷ []; mid = 1 ∷ 1 ∷ 1 ∷ 1 ∷ 1 ∷ 1 ∷ 1 ∷ 0 ∷ []; reply_to = []; rest = [] }

abbrev seven : Bytes
seven = 1 ∷ 1 ∷ 1 ∷ 1 ∷ 1 ∷ 1 ∷ 1 ∷ []

abbrev waiting : Pending
waiting = record {
  envelope = some message;
  to = 9 ∷ [];
  prefix = seven;
  deadline = 15;
  next_at = 5;
  attempts = [];
  in_flight = false;
  awaiting_reply = true;
}

abbrev one : Mailbox
one = (seven, waiting) ∷ []

posted : post [] message 5 10 true [] ≡ some (seven, one)
unfolding post contains insert
posted = refl

due_once_example : (due 6 (due 6 one).1).0 ≡ []
due_once_example = due_once 6 one

abbrev answer : SignedEnvelope
answer = record {
  env = record { to = []; mid = []; reply_to = 1 ∷ 1 ∷ 1 ∷ 1 ∷ 1 ∷ 1 ∷ 1 ∷ 0 ∷ []; rest = [] };
  frm = 9 ∷ [];
}

abbrev reply : Reply
reply = record { prefix = seven; address = none; rtt = none }

answered : arrived answer 7 one ≡ (some reply, [])
unfolding arrived lookup remove list_discrete ℕ_discrete
answered = refl

arrived_once_example :
    ((p : Pending) × (lookup (correlation_id answer.env.reply_to) one ≡ some p) × (p.to ≡ 9 ∷ []))
    × ((j : Bytes)
        → lookup {V = Pending} j []
          ≡ (if correlation_id answer.env.reply_to == j then none else lookup j one))
arrived_once_example = arrived_once answer 7 one [] reply answered
