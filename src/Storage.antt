-- ===== src/Storage.antt =====
-- The interface of pkg/storage/store.go (kine's `client.Client`), and the contract that the handlers
-- rely on.
pub mod Contract
pub mod GoMap
pub mod InMemory
pub mod Kine
use policy_server.Prelude.{ℕ, List}
use policy_server.Prelude.Texts.{Text}
use policy_server.Result.{Exec}
use policy_server.Strconv.{ℤ}

-- `client.Value`
pub record Value : Type 0 where
  pub key : Text
  pub value_data : Text
  pub modified : ℕ

-- `storage.Storage`, over an unknown state. Keys and values are byte strings, revisions `int64`.
pub record Storage : Type 1 where
  pub State : Type 0
  pub list : Text → ℕ → Exec State (List Value)
  pub get : Text → Exec State Value
  pub put : Text → Text → Exec State (Unit {0})
  pub create : Text → Text → Exec State (Unit {0})
  pub update : Text → ℤ → Text → Exec State (Unit {0})
  pub delete : Text → ℤ → Exec State (Unit {0})
  pub close : Exec State (Unit {0})
