-- ===== src/Mailbox/Types.antt =====
-- The data of dude/net/mailbox.py, and of dude/net/envelope.py what the mailbox reads of a message. The
-- rest of an envelope is its encoding, and an address its text.
use dude_fs.Prelude.{ℕ, ℤ, Bool, Option, Bytes}
use dude_fs.Prelude.Dict.{Dict}

pub record Envelope : Type 0 where
  pub to : Bytes
  pub mid : Bytes
  pub reply_to : Bytes
  pub rest : Bytes

pub record SignedEnvelope : Type 0 where
  pub env : Envelope
  pub frm : Bytes

pub data Expiry : Type 0 where
  undelivered unanswered : Expiry

pub record Transmit : Type 0 where
  pub to : Bytes
  pub envelope : Envelope
  pub prefix : Bytes
  pub attempt : ℕ

pub record Attempt : Type 0 where
  pub address : Bytes
  pub sent_at : ℕ

-- A reply to an attempt that is not known has no address and no time.
pub record Reply : Type 0 where
  pub prefix : Bytes
  pub address : Option Bytes
  pub rtt : Option ℤ

pub record Expired : Type 0 where
  pub prefix : Bytes
  pub to : Bytes
  pub why : Expiry
  pub attempts : ℕ
  pub address : Option Bytes

pub record Pending : Type 0 where
  pub envelope : Option Envelope
  pub to : Bytes
  pub prefix : Bytes
  pub deadline : ℕ
  pub next_at : ℕ
  pub attempts : Dict ℕ Attempt
  pub in_flight : Bool
  pub awaiting_reply : Bool

abbrev pub Mailbox : Type 0
Mailbox = Dict Bytes Pending
