-- ===== src/Ops/Types.antt =====
-- The data of dude/store/ops.py.
use dude_fs.Prelude.{ℕ, ℤ, pos, Bool, List, [], ◌∷◌, ◌++◌, Bytes, prod_eq, list_eq, nat_eq, ℤ_eq}

abbrev pub store_management : ℤ
store_management = pos 0

abbrev pub epoch_none : ℤ
epoch_none = pos 0

abbrev pub max_name_bytes : ℕ
max_name_bytes = 128

pub record Held : Type 0 where
  pub value : Bytes
  pub epoch : ℤ
  pub cred : Bytes

pub data Mutation : Type 0 where
  set : ℤ → Bytes → Bytes → ℤ → Mutation
  del : ℤ → Bytes → Mutation

abbrev pub store_of : Mutation → ℤ
store_of (set store name value epoch) = store
store_of (del store name) = store

abbrev pub name_of : Mutation → Bytes
name_of (set store name value epoch) = name
name_of (del store name) = name

-- A digest is its bytes.
pub data Predicate : Type 0 where
  absent : ℤ → Bytes → Predicate
  holds : ℤ → Bytes → Bytes → Predicate
  exists : ℤ → Bytes → Predicate
  holds_any : ℤ → Bytes → List Bytes → Predicate

pub record Step : Type 0 where
  pub guards : List Predicate
  pub mutation : Mutation
  pub soft : Bool

pub record Transaction : Type 0 where
  pub steps : List Step

pub record SignedTransaction : Type 0 where
  pub author : Bytes
  pub ts : ℤ
  pub txn : Transaction
  pub sig : Bytes

-- `__add__`, `then`, `then_soft` and `writes` build transactions.
unfoldable pub add : Transaction → Transaction → Transaction
add a b = record { steps = a.steps ++ b.steps }

unfoldable pub then_step : Transaction → Mutation → List Predicate → Bool → Transaction
then_step t m gs soft = record {
  steps = t.steps ++ record { guards = gs; mutation = m; soft = soft } ∷ [];
}
