-- ===== src/Engine/Guards.antt =====
-- Functions that update no user without reading it first.
use vault_custom_secrets_eng.Base.{Bool, true, false, Option, Bytes, arith}
use vault_custom_secrets_eng.Pveapi.Errors.{Error, Result, ok, err}
use vault_custom_secrets_eng.Host.{Host}
use vault_custom_secrets_eng.Host.Act.{
  State, Op, try, check, or_return, return_if, storage_get, new_client,
}
use vault_custom_secrets_eng.Backend.{get_config, get_client, build_client}
use vault_custom_secrets_eng.Lease.Renew.{IsGuarded}
use vault_custom_secrets_eng.Roles.{get_role}

-- The function keeps the log guarded.
abbrev pub Guards : {A : Type 0} → (State → A × State) → Type 0
Guards f = (s : State) → IsGuarded s.log → IsGuarded (f s).1.log

pub or_return-Guards : {R A : Type 0} (r : Result A) (f : Error → R) → Guards (or_return r f)
or_return-Guards (ok a) f s h = h
or_return-Guards (err e) f s h = h

pub return_if-Guards : {R : Type 0} (b : Bool) (r : R) → Guards (return_if b r)
return_if-Guards true r s h = h
return_if-Guards false r s h = h

pub try-Guards : {R A : Type 0} (m : Op (Result A)) (f : Error → R) → Guards m → Guards (try m f)
try-Guards m f keeps s h = or_return-Guards (m s).0 f (m s).1 (keeps s h)

pub check-Guards :
    {R : Type 0} (m : Op (Option Error)) (f : Error → R) → Guards m → Guards (check m f)
check-Guards m f keeps s h = ground (arith, keeps s h)

module _ (host : Host) where
  pub get_config-Guards : Guards (get_config host)
  unfolding get_config storage_get
  get_config-Guards s h = ground arith

  pub get_client-Guards : Guards (get_client host)
  unfolding get_client build_client get_config storage_get new_client
  get_client-Guards s h = ground arith

  pub get_role-Guards : (name : Bytes) → Guards (get_role host name)
  unfolding get_role storage_get
  get_role-Guards name s h = ground arith
