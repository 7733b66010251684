-- ===== src/Tests/Setup.antt =====
-- The in-memory database with and without a stored report, and the options of a request.
use mathlib.Core.List.Perm
use policy_server.Prelude.{◌+◌, ◌≡◌, refl, Option, none, some, [], ◌∷◌}
use policy_server.Prelude.Texts.{codes, text_eq}
use policy_server.Result.{Error, ok}
use policy_server.Storage.{Value, Storage}
use policy_server.Storage.Contract.{Contract}
use policy_server.Storage.GoMap.{lookup}
use policy_server.Storage.InMemory.{RangeOrder, inmemory_storage}
use policy_server.Storage.InMemory.Laws.{IsOrder, IsOpen, inmemory-Contract}
use policy_server.Handler.{WriteOptions, State, ReportOf, ObjectOf, decode}
use policy_server.Polr.{key}
use policy_server.Polr.Reads.{held}
use policy_server.Tests.{sample, named, to_json}

-- Entries are visited as they stand.
abbrev pub in_order : RangeOrder
in_order n m = m

pub in_order-IsOrder : IsOrder in_order
in_order-IsOrder n m = Perm.refl m

abbrev pub memory : Storage
memory = inmemory_storage in_order

abbrev pub law : Contract memory
law = inmemory-Contract in_order in_order-IsOrder

abbrev pub fresh : State sample memory
fresh = record {
  store = record { db = some []; clock = λ n. 7 + n; reads = 0; entropy = 0 };
  calls = [];
  world = 5;
}

pub fresh-IsOpen : IsOpen fresh.store
fresh-IsOpen = record { table = []; opened = refl; unique = tt }

abbrev pub real : WriteOptions
real = record { dry_run = []; field_validation = codes "Strict" }

abbrev pub dry : WriteOptions
dry = record { dry_run = codes "All" ∷ []; field_validation = codes "Strict" }

abbrev pub valid : ObjectOf sample → Option Error
valid obj = none

abbrev pub first : ReportOf sample
first = named (codes "a") []

abbrev pub first_stored : ReportOf sample
first_stored = record first {
  namespace = codes "ns";
  uid = 5 ∷ [];
  resource_version = codes "1";
  creation_timestamp = 6;
}

abbrev pub stored_value : Value
stored_value = record {
  key = codes "/apis/wgpolicyk8s.io/v1alpha2/namespaces/ns/policyreports/a";
  value_data = to_json first_stored;
  modified = 7;
}

-- The report `a` of the namespace `ns` is stored.
abbrev pub stocked : State sample memory
stocked = record {
  store = record {
    db =
        some (
          (codes "/apis/wgpolicyk8s.io/v1alpha2/namespaces/ns/policyreports/a", stored_value) ∷ []);
    clock = λ n. 7 + n;
    reads = 1;
    entropy = 0;
  };
  calls = [];
  world = 9;
}

pub stocked-IsOpen : IsOpen stocked.store
unfolding lookup
stocked-IsOpen = record {
  table = (codes "/apis/wgpolicyk8s.io/v1alpha2/namespaces/ns/policyreports/a", stored_value) ∷ [];
  opened = refl;
  unique = (refl, tt);
}

pub there : held sample memory law (codes "a") (codes "ns") stocked ≡ some (to_json first_stored)
unfolding lookup key text_eq
there = refl

pub decoded : decode sample (to_json first_stored) ≡ ok first_stored
unfolding decode
decoded = refl
