-- ===== src/ConfigPath/Secret.antt =====
-- `configRead` of path_config.go tells nothing of the token's secret.
use vault_custom_secrets_eng.Base.{◌≡◌, Bytes, arith}
use vault_custom_secrets_eng.Pveapi.Errors.{Result, ok, err}
use vault_custom_secrets_eng.Host.{Host}
use vault_custom_secrets_eng.Host.Data.{Config}
use vault_custom_secrets_eng.Host.Act.{State, storage_get}
use vault_custom_secrets_eng.Backend.{get_config}
use vault_custom_secrets_eng.ConfigPath.{config_existence_check, config_read}

abbrev with_secret : (Bytes → Bytes) → Bytes → Result Config → Result Config
with_secret secret_of value (ok cfg) = ok (record cfg { token_secret = secret_of value })
with_secret secret_of value (err e) = err e

-- The same host, where the stored configurations have other secrets.
abbrev pub reseal : (Bytes → Bytes) → Host → Host
reseal secret_of host = record host {
  decode_config = λ value. with_secret secret_of value (host.decode_config value);
}

-- For two hosts that differ only in the secrets of the stored configurations, configRead and the
-- existence check give the same answers after the same calls.
pub config_read-reseal :
    (secret_of : Bytes → Bytes) (host : Host) (s : State)
    → (config_read (reseal secret_of host) s ≡ config_read host s)
      × (config_existence_check (reseal secret_of host) s ≡ config_existence_check host s)
unfolding config_read config_existence_check get_config storage_get
config_read-reseal secret_of host s = (ground arith, ground arith)
