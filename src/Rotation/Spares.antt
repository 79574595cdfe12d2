-- ===== src/Rotation/Spares.antt =====
-- What the recoveries of path_rotate_root.go and wal.go have in common: they spare the token that
-- the configuration names.
use vault_custom_secrets_eng.Base.{
  ◌≡◌, ◌≢◌, ◌⊎◌, inl, inr, Option, none, some, [], ◌∷◌, ◌++◌, Bool-cases, arith,
}
use vault_custom_secrets_eng.Pveapi.Errors.{Error, Sentinel, errors_is, ok}
use vault_custom_secrets_eng.Host.{Host}
use vault_custom_secrets_eng.Host.Data.{Config}
use vault_custom_secrets_eng.Host.Event.{Event, Log}
use vault_custom_secrets_eng.Host.Act.{State, Act, continue}
use vault_custom_secrets_eng.Rotation.{unless_is}
use vault_custom_secrets_eng.Backend.{config_key, get_config, get_client}

-- The configuration has been read from storage.
abbrev pub HasRead : Host → Config → Log → Type 0
HasRead host cfg [] = ⊥
HasRead host cfg (Event.got key (ok (some value)) ∷ l) =
    ((key ≡ config_key) × (host.decode_config value ≡ ok cfg)) ⊎ HasRead host cfg l
HasRead host cfg (_ ∷ l) = HasRead host cfg l

-- Before each deletion of a token, a configuration with another token has been read.
abbrev pub SparesActive : Host → Log → Type 0
SparesActive host [] = Unit
SparesActive host (Event.token_deleted c user token r ∷ l) =
    ((cfg : Config) × HasRead host cfg l × (user ++ b'!' ∷ token ≢ cfg.token_id))
    × SparesActive host l
SparesActive host (_ ∷ l) = SparesActive host l

-- The configuration has been read, and the log spares the tokens in use.
pub record Knows (host : Host) (cfg : Config) (s : State) : Type 0 where
  pub read : HasRead host cfg s.log
  pub spared : SparesActive host s.log

-- `unless_is` changes nothing.
pub unless_is-chain :
    {R B : Type 0} (Q : State → Type 0) (target : Sentinel) (o : Option Error) (f : Error → R)
    (k : Unit → Act R B) (s : State)
    → Q s
    → Q (k tt s).1
    → let y = unless_is target o f s in Q (continue y.0 k y.1).1
unless_is-chain Q target none f k s stopped rest = rest
unless_is-chain Q target (some e) f k s stopped rest = elim (Bool-cases (errors_is e target)) [
  | inl same ↦ rw same rest
  | inr other ↦ rw other stopped
]

module _ (host : Host) where
  pub get_config-SparesActive :
      (s : State) → SparesActive host s.log → SparesActive host (get_config host s).1.log
  unfolding get_config
  get_config-SparesActive s h = ground arith

  pub get_config-HasRead :
      (s : State) (cfg : Config)
      → (get_config host s).0 ≡ ok (some cfg)
      → HasRead host cfg (get_config host s).1.log
  unfolding get_config
  get_config-HasRead s cfg h = ground arith

  pub get_client-Knows :
      (cfg : Config) (s : State) → Knows host cfg s → Knows host cfg (get_client host s).1
  unfolding get_client
  get_client-Knows cfg s h = ground arith
