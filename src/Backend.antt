-- ===== src/Backend.antt =====
-- backend.go: the cached client and the stored configuration.
use vault_custom_secrets_eng.Base.{Option, none, some, Bytes, codes, text_eq, if◌then◌else◌}
use vault_custom_secrets_eng.Pveapi.Errors.{failure, wrap, Result, ok, err}
use vault_custom_secrets_eng.Host.{Host}
use vault_custom_secrets_eng.Host.Data.{Config}
use vault_custom_secrets_eng.Host.Act.{
  Op, ◌>>=◌, ◌>>◌, pure, call, or_return, try, check, run, storage_get, new_client,
}

abbrev pub config_key : Bytes
config_key = codes "config"

-- `Backend.invalidate`
unfoldable pub invalidate : Bytes → Op Unit
invalidate key s = (tt, if text_eq key config_key then record s { client = none } else s)

-- `b.client = client`
abbrev set_client : Config → Op Unit
set_client cfg s = (tt, record s { client = some cfg })

module _ (host : Host) where
  -- `getConfig`
  unfoldable pub get_config : Op (Result (Option Config))
  unfolding storage_get
  get_config = run do
    entry ←
        try (storage_get host config_key) (λ e. err (wrap "proxmox: read config from storage" e))
    elim entry [
      | none ↦ pure (ok none)
      | some value ↦ do
        cfg ← or_return (host.decode_config value) (λ e. err (wrap "proxmox: decode config" e))
        pure (ok (some cfg))
    ]

  -- `getClient` when no client is cached.
  unfoldable pub build_client : Op (Result Config)
  unfolding get_config new_client
  build_client = run do
    stored ← try get_config err
    elim stored [
      | none ↦
          pure
            (err (failure "proxmox: no configuration found; write config to <mount>/config first"))
      | some cfg ↦ do
        check (new_client host cfg) (λ e. err (wrap "proxmox: build PVE client" e))
        call (set_client cfg)
        pure (ok cfg)
    ]

  -- `getClient`; the locks make each of its parts atomic.
  unfoldable pub get_client : Op (Result Config)
  unfolding build_client
  get_client s = elim s.client [ some client ↦ (ok client, s) | none ↦ build_client s ]
