-- ===== src/Utils/Env.antt =====
-- pkg/utils/utils.go and consts.go.
use policy_server.Prelude.{Option, none, some, List, []}
use policy_server.Prelude.Texts.{Text, codes}

-- `LookupEnvOrDefault`, over the environment.
unfoldable pub lookup_env_or_default : (Text → Option Text) → Text → Text → Text
lookup_env_or_default env name fallback = elim (env name) [ none ↦ fallback | some value ↦ value ]

abbrev pub ca_file : Text
ca_file = []

abbrev pub cert_file : Text
cert_file = []

abbrev pub key_file : Text
key_file = []

abbrev pub ca_env_var : Text
ca_env_var = codes "DB_CA_FILE"

abbrev pub cert_env_var : Text
cert_env_var = codes "DB_CERT_FILE"

abbrev pub key_env_var : Text
key_env_var = codes "DB_KEY_FILE"

-- `Endpoints`
abbrev pub endpoints : List Text
endpoints = []
