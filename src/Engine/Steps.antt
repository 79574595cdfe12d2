-- ===== src/Engine/Steps.antt =====
-- One request, renewal, revocation, rollback or notice of a change, as Vault's framework routes it by
-- the tables of `newBackend`.
use vault_custom_secrets_eng.Base.{◌≡◌, Bool, Option, some, Bytes}
use vault_custom_secrets_eng.Pveapi.Errors.{Result}
use vault_custom_secrets_eng.Host.Data.{WalUser, RotationState}
use vault_custom_secrets_eng.Host.Response.{Lease, Outcome}
use vault_custom_secrets_eng.Host.Act.{State, Op}
use vault_custom_secrets_eng.Paths.Fields.{FieldData}
use vault_custom_secrets_eng.Paths.Tables.{Operation, PathOperation, MountPath}
use vault_custom_secrets_eng.Paths.Registration.{Secret, Engine}
use vault_custom_secrets_eng.Paths.Total.{IsAmong}

pub data EngineStep (engine : Engine) (s : State) : State → Type 0 where
  request :
      (path : MountPath) (op : Operation) (po : PathOperation) (d : FieldData) (run : Op Outcome)
      → IsAmong path engine.paths
      → path.operations op ≡ some po
      → po.callback d ≡ some run
      → EngineStep engine s (run s).1
  existence :
      (path : MountPath) (check : FieldData → Option (Op (Result Bool))) (d : FieldData)
      (run : Op (Result Bool))
      → IsAmong path engine.paths
      → path.existence_check ≡ some check
      → check d ≡ some run
      → EngineStep engine s (run s).1
  renewal :
      (secret : Secret) (lease : Lease)
      → IsAmong secret engine.secrets
      → EngineStep engine s (secret.renew lease s).1
  revocation :
      (secret : Secret) (lease : Lease)
      → IsAmong secret engine.secrets
      → EngineStep engine s (secret.revoke lease s).1
  rollback :
      (kind : Bytes) (as_user : Result WalUser) (as_rotation : Result RotationState)
      → EngineStep engine s (engine.wal_rollback kind as_user as_rotation s).1
  notice : (key : Bytes) → EngineStep engine s (engine.invalidate key s).1

-- Any number of these, one after the other.
pub data EngineRun (engine : Engine) (start : State) : State → Type 0 where
  here : EngineRun engine start start
  later :
      {s t : State} → EngineRun engine start s → EngineStep engine s t → EngineRun engine start t
