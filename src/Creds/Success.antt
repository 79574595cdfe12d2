-- ===== src/Creds/Success.antt =====
-- `handleCredsRead` of path_creds.go: what has been done when a lease comes back.
use vault_custom_secrets_eng.Base.{◌≡◌, Bool, true, false, [], Bytes}
use vault_custom_secrets_eng.Host.{Host}
use vault_custom_secrets_eng.Host.Event.{Event}

-- A token role's user has no password.
abbrev HasPassword : Bool → Bytes → Type 0
HasPassword true password = Unit
HasPassword false password = password ≡ []
