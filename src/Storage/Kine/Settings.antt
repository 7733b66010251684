-- ===== src/Storage/Kine/Settings.antt =====
-- What the options of pkg/storage/kine/client.go add up to.
use policy_server.Prelude.{◌≡◌, refl, Bool, false, Option, List, [], ◌∷◌, map}
use policy_server.Prelude.Texts.{Text}
use policy_server.Storage.Kine.{
  EtcdConfig, ClientConfigOpts, apply_opts, build_kine_opts, with_endpoints, with_key_file,
  with_ca_file, with_cert_file, with_leader_election,
}
use policy_server.Utils.Env.{lookup_env_or_default, ca_env_var, cert_env_var, key_env_var}

-- A call of one of the option functions.
data Setting : Type 0 where
  use_endpoints : List Text → Setting
  use_key_file : Text → Setting
  use_ca_file : Text → Setting
  use_cert_file : Text → Setting
  use_leader_election : Bool → Setting

abbrev opt_of : Setting → ClientConfigOpts
opt_of (use_endpoints ts) = with_endpoints ts
opt_of (use_key_file f) = with_key_file f
opt_of (use_ca_file f) = with_ca_file f
opt_of (use_cert_file f) = with_cert_file f
opt_of (use_leader_election v) = with_leader_election v

-- The last text that is not empty, or the fallback.
abbrev last_given {ℓ} : {A : Type ℓ} → List A → List (List A) → List A
last_given fallback [] = fallback
last_given fallback ([] ∷ ts) = last_given fallback ts
last_given fallback ((b ∷ t) ∷ ts) = last_given (b ∷ t) ts

abbrev last_flag : Bool → List Bool → Bool
last_flag fallback [] = fallback
last_flag fallback (v ∷ vs) = last_flag v vs

abbrev endpoint_lists : List Setting → List (List Text)
endpoint_lists [] = []
endpoint_lists (use_endpoints ts ∷ ss) = ts ∷ endpoint_lists ss
endpoint_lists (_ ∷ ss) = endpoint_lists ss

abbrev key_files : List Setting → List Text
key_files [] = []
key_files (use_key_file f ∷ ss) = f ∷ key_files ss
key_files (_ ∷ ss) = key_files ss

abbrev ca_files : List Setting → List Text
ca_files [] = []
ca_files (use_ca_file f ∷ ss) = f ∷ ca_files ss
ca_files (_ ∷ ss) = ca_files ss

abbrev cert_files : List Setting → List Text
cert_files [] = []
cert_files (use_cert_file f ∷ ss) = f ∷ cert_files ss
cert_files (_ ∷ ss) = cert_files ss

abbrev flags : List Setting → List Bool
flags [] = []
flags (use_leader_election v ∷ ss) = v ∷ flags ss
flags (_ ∷ ss) = flags ss

-- A configuration changed by settings, field by field.
abbrev settled : List Setting → EtcdConfig → EtcdConfig
settled ss cfg = record {
  endpoints = last_given cfg.endpoints (endpoint_lists ss);
  ca_file = last_given cfg.ca_file (ca_files ss);
  cert_file = last_given cfg.cert_file (cert_files ss);
  key_file = last_given cfg.key_file (key_files ss);
  leader_elect = last_flag cfg.leader_elect (flags ss);
}

apply_opts-settled :
    (ss : List Setting) (cfg : EtcdConfig) → apply_opts (map opt_of ss) cfg ≡ settled ss cfg
unfolding apply_opts with_endpoints with_key_file with_ca_file with_cert_file with_leader_election
apply_opts-settled [] cfg = refl
apply_opts-settled (use_endpoints [] ∷ ss) cfg = apply_opts-settled ss cfg
apply_opts-settled (use_endpoints (t ∷ ts) ∷ ss) cfg = apply_opts-settled ss _
apply_opts-settled (use_key_file [] ∷ ss) cfg = apply_opts-settled ss cfg
apply_opts-settled (use_key_file (b ∷ f) ∷ ss) cfg = apply_opts-settled ss _
apply_opts-settled (use_ca_file [] ∷ ss) cfg = apply_opts-settled ss cfg
apply_opts-settled (use_ca_file (b ∷ f) ∷ ss) cfg = apply_opts-settled ss _
apply_opts-settled (use_cert_file [] ∷ ss) cfg = apply_opts-settled ss cfg
apply_opts-settled (use_cert_file (b ∷ f) ∷ ss) cfg = apply_opts-settled ss _
apply_opts-settled (use_leader_election v ∷ ss) cfg = apply_opts-settled ss _

-- For any calls of the option functions, in any order, each field of the configuration has the
-- last value given for it, empty texts and lists not counted; a file falls back to its environment
-- variable and then to the empty text, the endpoints to none, and the leader election to false.
build_kine_opts-settled :
    (env : Text → Option Text) (ss : List Setting)
    → build_kine_opts env (map opt_of ss)
      ≡ settled ss record {
        endpoints = [];
        ca_file = lookup_env_or_default env ca_env_var [];
        cert_file = lookup_env_or_default env cert_env_var [];
        key_file = lookup_env_or_default env key_env_var [];
        leader_elect = false;
      }
unfolding build_kine_opts
build_kine_opts-settled env ss = apply_opts-settled ss _
