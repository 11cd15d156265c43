-- ===== src/Smt/Binding.antt =====
-- The fold of a proof binds its terminal: under one root and path, unless two of the messages that were
-- hashed have the same hash.
use dude_fs.Prelude.{
  ℕ, suc, List, [], ◌∷◌, ◌++◌, Bytes, ◌==◌, nat_eq, if◌then◌else◌, length, All, ◌≡◌, ◌≢◌, refl, ap,
  sym, ◌∙◌, arith, append_cancel, Bool-cases, inl, inr,
}
use dude_fs.Crypto.{Suite, digest_size}
use dude_fs.Smt.{
  big_endian, lower, bit, branch_person, branch_message, branch_hash, joined, fold_from,
}

-- A call of `h_domain`: the person and the message.
abbrev pub Query : Type 0
Query = Bytes × Bytes

abbrev message : ℕ → Bytes → Bytes → Bytes → Bytes
message depth path node sibling =
    if bit path depth == 0
    then branch_message depth (lower path depth) node sibling
    else branch_message depth (lower path depth) sibling node

same_sides :
    (depth : ℕ) (prefix l r l' r' : Bytes)
    → length l ≡ length l'
    → branch_message depth prefix l r ≡ branch_message depth prefix l' r'
    → (l ≡ l') × (r ≡ r')
same_sides depth prefix l r l' r' w e =
    let p =
      append_cancel (big_endian 2 depth) (big_endian 2 depth) (prefix ++ (l ++ r))
        (prefix ++ (l' ++ r')) refl e in
    let q = append_cancel prefix prefix (l ++ r) (l' ++ r') refl p.1 in
    append_cancel l l' r r' w q.1

same_node :
    (depth : ℕ) (path n s n' s' : Bytes)
    → length n ≡ length n'
    → length s ≡ length s'
    → message depth path n s ≡ message depth path n' s'
    → n ≡ n'
same_node depth path n s n' s' w v e = elim (Bool-cases (bit path depth == 0)) [
  | inl t ↦ (same_sides depth (lower path depth) n s n' s' w (rw t at e)).0
  | inr t ↦ (same_sides depth (lower path depth) s n s' n' v (rw t at e)).1
]

module _ (c : Suite) where
  abbrev pub hashed : Query → Bytes
  hashed q = c.h_domain q.0 q.1

  -- No two different queries of the one list and the other have the same hash.
  abbrev pub Apart : List Query → List Query → Type 0
  Apart qs rs = All (λ q. All (λ r. hashed q ≡ hashed r → q ≡ r) rs) qs

  -- A hash is that of none of the queries.
  abbrev pub Foreign : Bytes → List Query → Type 0
  Foreign hash qs = All (λ q. hash ≢ hashed q) qs

  pub Apart-tail : (qs : List Query) (r : Query) (rs : List Query) → Apart qs (r ∷ rs) → Apart qs rs
  Apart-tail [] r rs h = tt
  Apart-tail (q ∷ qs) r rs h = (h.0.1, Apart-tail qs r rs h.1)

  -- The branches that a fold hashes, from the root down.
  unfoldable pub branches : ℕ → Bytes → Bytes → List Bytes → List Query
  unfolding fold_from
  branches depth path terminal [] = []
  branches depth path terminal (s ∷ ss) =
      (branch_person, message depth path (fold_from c (suc depth) path terminal ss) s)
      ∷ branches (suc depth) path terminal ss

  joined-hashed :
      (depth : ℕ) (path node s : Bytes)
      → joined c depth path node s ≡ hashed (branch_person, message depth path node s)
  unfolding joined branch_hash
  joined-hashed depth path node s = ground arith

  module _ (width : (person x : Bytes) → length (c.h_domain person x) ≡ digest_size) where
    pub length-fold_from :
        (depth : ℕ) (path terminal : Bytes) (ss : List Bytes)
        → length terminal ≡ digest_size
        → length (fold_from c depth path terminal ss) ≡ digest_size
    unfolding fold_from
    length-fold_from depth path terminal [] h = h
    length-fold_from depth path terminal (s ∷ ss) h =
        rw (joined-hashed depth path (fold_from c (suc depth) path terminal ss) s)
          (width branch_person _)

    pub fold_binding :
        (depth : ℕ) (path t u : Bytes) (ss rs : List Bytes)
        → length t ≡ digest_size
        → length u ≡ digest_size
        → All (λ s. length s ≡ digest_size) ss
        → All (λ s. length s ≡ digest_size) rs
        → Apart (branches depth path t ss) (branches depth path u rs)
        → Foreign t (branches depth path u rs)
        → Foreign u (branches depth path t ss)
        → fold_from c depth path t ss ≡ fold_from c depth path u rs
        → t ≡ u
    unfolding fold_from branches
    fold_binding depth path t u [] [] lt lu ws vs ap ft fu e = e
    fold_binding depth path t u [] (r ∷ rs) lt lu ws vs ap ft fu e =
        absurd (ft.0 (e ∙ joined-hashed depth path (fold_from c (suc depth) path u rs) r))
    fold_binding depth path t u (s ∷ ss) [] lt lu ws vs ap ft fu e =
        absurd (fu.0 (sym e ∙ joined-hashed depth path (fold_from c (suc depth) path t ss) s))
    fold_binding depth path t u (s ∷ ss) (r ∷ rs) lt lu ws vs ap ft fu e =
        let n = fold_from c (suc depth) path t ss in
        let m = fold_from c (suc depth) path u rs in
        let eq : (branch_person, message depth path n s) ≡ (branch_person, message depth path m r) =
          ap.0.0 (sym (joined-hashed depth path n s) ∙ e ∙ joined-hashed depth path m r) in
        let node : n ≡ m =
          same_node depth path n s m r
            (length-fold_from (suc depth) path t ss lt
              ∙ sym (length-fold_from (suc depth) path u rs lu))
            (ws.0 ∙ sym vs.0) (λ i. (eq i).1) in
        fold_binding (suc depth) path t u ss rs lt lu ws.1 vs.1
          (Apart-tail (branches (suc depth) path t ss) (branch_person, message depth path m r)
            (branches (suc depth) path u rs) ap.1)
          ft.1 fu.1 node
