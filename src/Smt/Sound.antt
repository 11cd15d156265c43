-- ===== src/Smt/Sound.antt =====
-- What an accepted proof of presence binds: the hashes of one name's row under one root.
use dude_fs.Prelude.{
  ℕ, suc, Bool-cases, Option-cases, ℤ, true, none, some, List, [], ◌∷◌, Bytes, Result, ok, err,
  list_eq, nat_eq, length, ltb, All, ◌≡◌, ◌≢◌, refl, ap, sym, ◌∙◌, arith, append_cancel, subst,
  eq_true, Result-cases, inl, inr,
}
use dude_fs.Crypto.{Suite, digest_size}
use dude_fs.Crypto.Bitmap.{zeros}
use dude_fs.Ops.{Held}
use dude_fs.Smt.{
  SmtError, empty_hash, epoch_bytes, leaf_person, branch_person, leaf_message, Proof, max_depth,
  leaf_hash, fold, present_at, present, absent, verify_at, path_of, verify,
}
use dude_fs.Smt.Epoch.{epoch_bytes_inj}
use dude_fs.Smt.Binding.{Query, hashed, Apart, Foreign, Apart-tail, branches, fold_binding}

-- The siblings are digests.
abbrev pub HasDigests : Proof → Type 0
HasDigests proof = All (λ s. length s ≡ digest_size) proof.siblings

module _ (c : Suite) where
  abbrev leaf_query : Bytes → Held → Bytes → Query
  leaf_query path held e = (leaf_person, leaf_message path (c.h held.value) (c.h held.cred) e)

  abbrev queries_at : Bytes → Held → List Bytes → Result SmtError Bytes → List Query
  queries_at path held ss (err e) = []
  queries_at path held ss (ok e) =
      leaf_query path held e ∷ branches c 0 path (hashed c (leaf_query path held e)) ss

  -- What is hashed to check that a row is present: the leaf, and the branches over it.
  abbrev pub queries : Bytes → Held → Proof → List Query
  queries path held proof = queries_at path held proof.siblings (epoch_bytes held.epoch)

  present_at-Accepted :
      (root path : Bytes) (held : Held) (ss : List Bytes) (o : Bytes × Bytes)
      → present_at c root path held ss o ≡ ok true
      → (e : Bytes) × (epoch_bytes held.epoch ≡ ok e)
        × (fold c path (hashed c (leaf_query path held e)) ss ≡ root)
  unfolding present_at leaf_hash
  present_at-Accepted root path held ss o h = elim (Result-cases (epoch_bytes held.epoch)) [
    | inl (e, q) ↦
        (e, q, ground (arith, eq_true (fold c path (hashed c (leaf_query path held e)) ss) root))
    | inr (x, q) ↦ absurd (ground arith)
  ]

  verify-Accepted :
      (root name : Bytes) (store : ℤ) (held : Held) (proof : Proof)
      → verify c root store name (some held) proof ≡ ok true
      → (e : Bytes) × (epoch_bytes held.epoch ≡ ok e)
        × (fold c
              (path_of c store name)
              (hashed c (leaf_query (path_of c store name) held e))
              proof.siblings
            ≡ root)
  unfolding verify verify_at present
  verify-Accepted root name store held proof h =
      elim (Bool-cases (ltb max_depth (length proof.siblings))) [
        | inl t ↦ absurd (ground arith)
        | inr t ↦ elim (Option-cases proof.occupant) [
          | inl n ↦ absurd (ground arith)
          | inr (o, m) ↦
              present_at-Accepted root (path_of c store name) held proof.siblings o (rw (t, m) at h)
        ]
      ]

  length-empty_hash : length empty_hash ≡ digest_size
  unfolding zeros
  length-empty_hash = refl

  verify-empty :
      (root name : Bytes) (store : ℤ) (ss : List Bytes)
      → verify c root store name none (record { siblings = ss; occupant = none }) ≡ ok true
      → fold c (path_of c store name) empty_hash ss ≡ root
  unfolding verify verify_at absent
  verify-empty root name store ss h =
      ground (arith, eq_true (fold c (path_of c store name) empty_hash ss) root)

  persons_differ : leaf_person ≢ branch_person
  persons_differ e = ground arith

  -- The query of a leaf is foreign to branches from which it is apart.
  leaf-Foreign :
      (x : Bytes) (depth : ℕ) (path t : Bytes) (ss : List Bytes)
      → All
          (λ r. hashed c (leaf_person, x) ≡ hashed c r → (leaf_person, x) ≡ r)
          (branches c depth path t ss)
      → Foreign c (hashed c (leaf_person, x)) (branches c depth path t ss)
  unfolding branches
  leaf-Foreign x depth path t [] h = tt
  leaf-Foreign x depth path t (s ∷ ss) h =
      (λ e. persons_differ (λ i. (h.0 e i).0), leaf-Foreign x (suc depth) path t ss h.1)

  Foreign-leaf :
      (x : Bytes) (rs : List Query) (depth : ℕ) (path t : Bytes) (ss : List Bytes)
      → Apart c (branches c depth path t ss) ((leaf_person, x) ∷ rs)
      → Foreign c (hashed c (leaf_person, x)) (branches c depth path t ss)
  unfolding branches
  Foreign-leaf x rs depth path t [] h = tt
  Foreign-leaf x rs depth path t (s ∷ ss) h = (
    λ e. persons_differ (sym (λ i. (h.0.0 (sym e) i).0)),
    Foreign-leaf x rs (suc depth) path t ss h.1,
  )

  module _ (width : (person x : Bytes) → length (c.h_domain person x) ≡ digest_size)
      (h_width : (x : Bytes) → length (c.h x) ≡ digest_size) where
    same_leaf :
        (path : Bytes) (a b : Held) (d e : Bytes)
        → leaf_query path a d ≡ leaf_query path b e
        → (c.h a.value ≡ c.h b.value) × (c.h a.cred ≡ c.h b.cred) × (d ≡ e)
    same_leaf path a b d e q =
        let after_path = append_cancel path path _ _ refl (λ i. (q i).1) in
        let after_value =
          append_cancel (c.h a.value) (c.h b.value) _ _ (h_width a.value ∙ sym (h_width b.value))
            after_path.1 in
        let after_cred =
          append_cancel (c.h a.cred) (c.h b.cred) d e (h_width a.cred ∙ sym (h_width b.cred))
            after_value.1 in
        (after_value.0, after_cred.0, after_cred.1)

    -- Two proofs of presence of one name under one root are accepted, both with digests for siblings,
    -- and no two different messages that the one and the other check hash have the same hash, where
    -- every hash has the width of a digest. Then the two rows have the same hash of the value, the
    -- same hash of the credential and the same epoch.
    pub verify_binding :
        (root name : Bytes) (store : ℤ) (a b : Held) (p q : Proof)
        → HasDigests p
        → HasDigests q
        → Apart c (queries (path_of c store name) a p) (queries (path_of c store name) b q)
        → verify c root store name (some a) p ≡ ok true
        → verify c root store name (some b) q ≡ ok true
        → (c.h a.value ≡ c.h b.value) × (c.h a.cred ≡ c.h b.cred) × (a.epoch ≡ b.epoch)
    verify_binding root name store a b p q dp dq apart hp hq =
        let (d, hd, fd) = verify-Accepted root name store a p hp in
        let (e, he, fe) = verify-Accepted root name store b q hq in
        let path = path_of c store name in
        let la = leaf_query path a d in
        let lb = leaf_query path b e in
        let all_apart : Apart c (la ∷ branches c 0 path (hashed c la) p.siblings)
            (lb ∷ branches c 0 path (hashed c lb) q.siblings) =
          subst
            (λ x. Apart c (queries_at path a p.siblings (ok d)) (queries_at path b q.siblings x)) he
            (subst (λ x. Apart c (queries_at path a p.siblings x) (queries path b q)) hd apart) in
        let terminals : hashed c la ≡ hashed c lb =
          fold_binding c width 0 path (hashed c la) (hashed c lb) p.siblings q.siblings
            (width la.0 la.1) (width lb.0 lb.1) dp dq
            (Apart-tail c (branches c 0 path (hashed c la) p.siblings) lb
              (branches c 0 path (hashed c lb) q.siblings) all_apart.1)
            (leaf-Foreign la.1 0 path (hashed c lb) q.siblings all_apart.0.1)
            (Foreign-leaf lb.1 (branches c 0 path (hashed c lb) q.siblings) 0 path (hashed c la)
              p.siblings all_apart.1)
            (fd ∙ sym fe) in
        let (v, k, w) = same_leaf path a b d e (all_apart.0.0 terminals) in
        (v, k, epoch_bytes_inj a.epoch b.epoch e (hd ∙ ap ok w) he)

    -- A proof of presence with digests for siblings is accepted. Then no proof of absence by an empty
    -- place, with digests for siblings, is accepted for that name and root: not if the messages hashed
    -- for the one and for the other have the same hash only where they are equal, and none of those
    -- hashed for the first has the hash that stands for an empty place, where every hash has the width
    -- of a digest.
    pub verify_excludes :
        (root name : Bytes) (store : ℤ) (a : Held) (p : Proof) (ss : List Bytes)
        → HasDigests p
        → All (λ s. length s ≡ digest_size) ss
        → Apart c
            (queries (path_of c store name) a p)
            (branches c 0 (path_of c store name) empty_hash ss)
        → Foreign c empty_hash (queries (path_of c store name) a p)
        → verify c root store name (some a) p ≡ ok true
        → ¬ (verify c root store name none (record { siblings = ss; occupant = none }) ≡ ok true)
    verify_excludes root name store a p ss dp ds apart foreign hp hq =
        let (d, hd, fd) = verify-Accepted root name store a p hp in
        let path = path_of c store name in
        let la = leaf_query path a d in
        let rows = branches c 0 path empty_hash ss in
        let all_apart : Apart c (la ∷ branches c 0 path (hashed c la) p.siblings) rows =
          subst (λ x. Apart c (queries_at path a p.siblings x) rows) hd apart in
        let all_foreign : Foreign c empty_hash (la ∷ branches c 0 path (hashed c la) p.siblings) =
          subst (λ x. Foreign c empty_hash (queries_at path a p.siblings x)) hd foreign in
        all_foreign.0 (
          sym (
            fold_binding c width 0 path (hashed c la) empty_hash p.siblings ss (width la.0 la.1)
              length-empty_hash dp ds all_apart.1
              (leaf-Foreign la.1 0 path empty_hash ss all_apart.0) all_foreign.1
              (fd ∙ sym (verify-empty root name store ss hq))))
