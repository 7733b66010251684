-- ===== src/Storage/Kine.antt =====
-- pkg/storage/kine/client.go and `NewStorage` of pkg/storage/store.go. The client of the kine library,
-- which speaks to etcd, is a parameter.
pub mod Settings
use policy_server.Prelude.{Bool, true, false, Option, List, [], ◌∷◌}
use policy_server.Prelude.Texts.{Text}
use policy_server.Result.{Result, ok, err, panicked}
use policy_server.Storage.InMemory
use policy_server.Storage.InMemory.{InMemoryDb}
use policy_server.Utils.Env.{
  lookup_env_or_default, ca_file, cert_file, key_file, ca_env_var, cert_env_var, key_env_var,
  endpoints,
}

-- `endpoint.ETCDConfig`, with the files of its `TLSConfig`
pub record EtcdConfig : Type 0 where
  pub endpoints : List Text
  pub ca_file : Text
  pub cert_file : Text
  pub key_file : Text
  pub leader_elect : Bool

-- `clientConfigOpts`
abbrev pub ClientConfigOpts : Type 0
ClientConfigOpts = EtcdConfig → EtcdConfig

-- `for _, o := range opts { o(&cfg) }`
unfoldable pub apply_opts : List ClientConfigOpts → EtcdConfig → EtcdConfig
apply_opts [] cfg = cfg
apply_opts (o ∷ opts) cfg = apply_opts opts (o cfg)

-- `buildKineOpts`
unfoldable pub build_kine_opts : (Text → Option Text) → List ClientConfigOpts → EtcdConfig
build_kine_opts env opts = apply_opts opts record {
  endpoints = endpoints;
  ca_file = lookup_env_or_default env ca_env_var ca_file;
  cert_file = lookup_env_or_default env cert_env_var cert_file;
  key_file = lookup_env_or_default env key_env_var key_file;
  leader_elect = false;
}

-- `New`, over the kine library's `client.New`.
unfoldable pub new :
    {Client : Type 0}
    → (EtcdConfig → Result Client)
    → (Text → Option Text)
    → List ClientConfigOpts
    → Result Client
new connect env opts = elim (connect (build_kine_opts env opts)) [
  | ok client ↦ ok client
  | err e ↦ err e
  | panicked ↦ panicked
]

-- `WithEndpoints`
unfoldable pub with_endpoints : List Text → ClientConfigOpts
with_endpoints [] e = e
with_endpoints (t ∷ ts) e = record e { endpoints = t ∷ ts }

-- `WithKeyFile`
unfoldable pub with_key_file : Text → ClientConfigOpts
with_key_file [] e = e
with_key_file (b ∷ file) e = record e { key_file = b ∷ file }

-- `WithCAFile`
unfoldable pub with_ca_file : Text → ClientConfigOpts
with_ca_file [] e = e
with_ca_file (b ∷ file) e = record e { ca_file = b ∷ file }

-- `WithCertFile`
unfoldable pub with_cert_file : Text → ClientConfigOpts
with_cert_file [] e = e
with_cert_file (b ∷ file) e = record e { cert_file = b ∷ file }

-- `WithLeaderElection`
unfoldable pub with_leader_election : Bool → ClientConfigOpts
with_leader_election val e = record e { leader_elect = val }

-- The dynamic type of what `NewStorage` returns.
pub data AnyStorage (Client : Type 0) : Type 0 where
  in_memory : InMemoryDb → AnyStorage Client
  kine_client : Client → AnyStorage Client

-- `NewStorage`, where the in-memory database is made at hand.
unfoldable pub new_storage :
    {Client : Type 0}
    → (EtcdConfig → Result Client)
    → (Text → Option Text)
    → InMemoryDb
    → Bool
    → Result (AnyStorage Client)
new_storage connect env made true = ok (in_memory made)
new_storage connect env made false = elim (new connect env []) [
  | ok client ↦ ok (kine_client client)
  | err e ↦ err e
  | panicked ↦ panicked
]
