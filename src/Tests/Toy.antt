-- ===== src/Tests/Toy.antt =====
-- A small suite and authoriser to run the code with. The hash keeps only lengths, and a signature
-- is the message behind the public key.
use dude_fs.Prelude.{
  ℕ, ◌+◌, ◌%◌, pos, true, none, some, ok, Bytes, [], ◌∷◌, ◌++◌, length, ◌==◌, list_eq, nat_eq, ◌≡◌,
  eq_self,
}
use dude_fs.Crypto.{Suite}
use dude_fs.Layer.Overlay.{Reader}
use dude_fs.Settle.Evaluate.{Authoriser}

abbrev pub total : Bytes → ℕ
total [] = 0
total (b ∷ bs) = b + total bs

abbrev seven : Bytes
seven = 0 ∷ 0 ∷ 0 ∷ 0 ∷ 0 ∷ 0 ∷ 0 ∷ []

abbrev pub toy : Suite
toy = record {
  h = λ x. length x ∷ [];
  h_domain = λ person x.
      total person % 256 ∷ total x % 256 ∷ length x ∷ 0 ∷ (seven ++ seven ++ seven ++ seven);
  public = λ seed. seed;
  sign = λ seed msg. seed ++ msg;
  verify = λ pk msg sig. sig == pk ++ msg;
}

pub toy_honest : (seed msg : Bytes) → toy.verify (toy.public seed) msg (toy.sign seed msg) ≡ true
toy_honest seed msg = eq_self (seed ++ msg)

abbrev pub nothing : Reader
nothing = record { get = λ store name. ok none; anchor = [] }

abbrev pub anyone : Authoriser
anyone = record {
  may_write = λ r who store. ok true;
  current_epoch = λ store r. ok (pos 4);
  epoch_target = λ name. some (pos 1);
}
