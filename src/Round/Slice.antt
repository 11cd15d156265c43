-- ===== src/Round/Slice.antt =====
-- `_all_holdings` and `_compute_slice`: the largest set of hashes that a whole quorum holds.
use dude_fs.Prelude.{
  ℕ, zero, suc, ℤ, Bool, true, false, none, some, List, [], ◌∷◌, ◌++◌, map, Bytes, if◌then◌else◌,
  ltb, length, contains, select, list_eq, nat_eq,
}
use dude_fs.Prelude.Dict.{Dict, keys, lookup, insert}
use dude_fs.Prelude.Order.{sort_by, bytes_lt}
use dude_fs.Crypto.{Suite}
use dude_fs.Canonical.{digest_key}
use dude_fs.Round.Types.{Round, slice_hash_of}

-- itertools.combinations
unfoldable pub combinations {ℓ} : {A : Type ℓ} → ℕ → List A → List (List A)
combinations zero xs = [] ∷ []
combinations (suc k) [] = []
combinations (suc k) (x ∷ xs) = map (λ ys. x ∷ ys) (combinations k xs) ++ combinations (suc k) xs

unfoldable pub all_holdings : Round → Dict Bytes (List Bytes)
all_holdings r = elim r.local_bodies [
  | none ↦ r.peer_holds
  | some bodies ↦ insert r.me (keys bodies) r.peer_holds
]

-- `a & b`
abbrev pub meet : List Bytes → List Bytes → List Bytes
meet a b = select (λ x. contains x b) a

abbrev pub holding : Dict Bytes (List Bytes) → Bytes → List Bytes
holding holdings p = elim (lookup p holdings) [ none ↦ [] | some hs ↦ hs ]

abbrev pub is_empty {ℓ} : {A : Type ℓ} → List A → Bool
is_empty [] = true
is_empty (x ∷ xs) = false

-- The loop over the other members of a combination, which stops at an empty set.
unfoldable pub narrow : Dict Bytes (List Bytes) → List Bytes → List Bytes → List Bytes
narrow holdings inter [] = inter
narrow holdings inter (p ∷ ps) =
    let next = meet inter (holding holdings p) in
    let more = narrow holdings next ps in if is_empty next then next else more

-- What a combination holds of `local`. It stands in the order of `local`, so that two such lists are
-- equal exactly if they are equal as sets.
unfoldable pub shared_by : Dict Bytes (List Bytes) → List Bytes → List Bytes → List Bytes
unfolding narrow
shared_by holdings local [] = []
shared_by holdings local (p ∷ ps) = meet local (narrow holdings (holding holdings p) ps)

-- The loop over the combinations, with `max_size` and `candidates`.
unfoldable pub collect_best : List (List Bytes) → ℕ → List (List Bytes) → List (List Bytes)
collect_best [] max_size candidates = candidates
collect_best (inter ∷ inters) max_size candidates =
    let skip = collect_best inters max_size candidates in
    let better = collect_best inters (length inter) (inter ∷ []) in
    let equal =
      collect_best inters max_size
        (if contains inter candidates then candidates else candidates ++ inter ∷ []) in
    if ltb (length inter) max_size
    then skip
    else if ltb max_size (length inter)
    then better
    else equal

-- `min(candidates, key=key)`
unfoldable pub min_by {ℓ} : {A : Type ℓ} → (A → Bytes) → A → List A → A
min_by key best [] = best
min_by key best (x ∷ xs) = min_by key (if bytes_lt (key x) (key best) then x else best) xs

unfoldable pub choose : Suite → ℤ → List (List Bytes) → List Bytes
unfolding min_by
choose c bucket [] = []
choose c bucket (x ∷ xs) = min_by (slice_hash_of c bucket) x xs

unfoldable pub compute_slice : Suite → Round → List Bytes → List Bytes
unfolding combinations all_holdings shared_by collect_best choose
compute_slice c r local =
    let holdings = all_holdings r in
    let peers = sort_by digest_key (keys holdings) in
    if ltb (length (keys holdings)) r.quorum
    then []
    else choose c r.bucket
        (collect_best (map (shared_by holdings local) (combinations r.quorum peers)) 0 [])
