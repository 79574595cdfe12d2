-- ===== src/Threads/Roles.antt =====
-- `roleWrite` and `roleDelete` of path_roles.go on one role, with `roleLock`, an access at a time.
pub mod Serial
use vault_custom_secrets_eng.Base.{◌≡◌, Bool, true, false, Option, none, some, List, [], ◌∷◌}
use vault_custom_secrets_eng.Host.Data.{Role}
use vault_custom_secrets_eng.Roles.Write.{RoleFields, requested_role, with_defaults}

-- A change of the role that has taken effect.
pub data Change : Type 0 where
  wrote : RoleFields → Change
  removed : Change

-- The stored role, whether `roleLock` is held, and the changes so far, the newest first. The
-- history is what the proofs speak of; no thread reads it.
pub record Shared : Type 0 where
  pub stored : Option Role
  pub locked : Bool
  pub history : List Change

pub data Pc : Type 0 where
  idle : Pc
  loading : RoleFields → Pc  -- `roleWrite` in the lock, before `getRole`
  checking : RoleFields → Option Role → Pc  -- with the role that was loaded
  deleting : Pc  -- `roleDelete` in the lock, before `Delete`
  leaving : Pc  -- before `Unlock`

-- The role that a write of the fields stores over another one.
abbrev pub merge : RoleFields → Option Role → Role
merge fields existing = with_defaults (requested_role fields existing)

-- One access. The checks and the calls of PVE between `getRole` and `Put` only decide whether the
-- write goes on.
pub data Move (m : Shared) : Pc → Shared → Pc → Type 0 where
  begin_write :
      (fields : RoleFields)
      → m.locked ≡ false
      → Move m idle (record m { locked = true }) (loading fields)
  load : {fields : RoleFields} → Move m (loading fields) m (checking fields m.stored)
  load_failed : {fields : RoleFields} → Move m (loading fields) m leaving
  refuse :
      {fields : RoleFields} {existing : Option Role} → Move m (checking fields existing) m leaving
  store :
      {fields : RoleFields} {existing : Option Role}
      → Move m
          (checking fields existing)
          (record m { stored = some (merge fields existing); history = wrote fields ∷ m.history })
          leaving
  begin_delete : m.locked ≡ false → Move m idle (record m { locked = true }) deleting
  delete : Move m deleting (record m { stored = none; history = removed ∷ m.history }) leaving
  delete_failed : Move m deleting m leaving
  unlock : Move m leaving (record m { locked = false }) idle
