-- ===== src/Rotation/MadeToken.antt =====
-- `rotateRoot` of path_rotate_root.go: a validated configuration names a token that PVE has made.
use vault_custom_secrets_eng.Base.{
  ◌≡◌, ◌⊎◌, ◌∙◌, sym, subst, ◌++◌, codes, List, [], ◌∷◌, Bytes, arith,
}
use vault_custom_secrets_eng.Pveapi.Errors.{ok}
use vault_custom_secrets_eng.Pveapi.Permissions.{PermissionTree}
use vault_custom_secrets_eng.Host.{Host}
use vault_custom_secrets_eng.Host.Data.{Config}
use vault_custom_secrets_eng.Host.Event.{Event, Log}
use vault_custom_secrets_eng.Rotation.TokenId.{split_token_id_iff}
use vault_custom_secrets_eng.Rotation.Validated.{RealmsAllowed}
use vault_custom_secrets_eng.Rotation.Rotated.{IsReplacement, IsMinted, IsValidated, IsRecorded}
use vault_custom_secrets_eng.Rotation.Rotate.{Rotation}

-- PVE has made the token that the configuration names, with the secret that it holds.
abbrev pub MadeToken : Config → Log → Type 0
MadeToken cfg [] = ⊥
MadeToken cfg (Event.token_created c user token (ok secret) ∷ l) =
    ((cfg.token_id ≡ user ++ (codes "!" ++ token)) × (cfg.token_secret ≡ secret)) ⊎ MadeToken cfg l
MadeToken cfg (_ ∷ l) = MadeToken cfg l

pub old_token_lem :
    (old : Bytes) (r : Rotation) → IsRecorded old r → r.old_user ++ (codes "!" ++ r.old_token) ≡ old
old_token_lem old r recorded = sym (
    recorded.as_expected
    ∙ ((split_token_id_iff r.cfg.token_id r.old_user r.old_token).0 recorded.split).joined)

realms-MadeToken :
    (host : Host) (cfg : Config) (tree : PermissionTree) (names : List Bytes) (before after : Log)
    → MadeToken cfg before
    → RealmsAllowed host tree names before after
    → MadeToken cfg after
realms-MadeToken host cfg tree [] before after made e = subst (MadeToken cfg) (sym e) made
realms-MadeToken host cfg tree (name ∷ names) before after made (entry, allowed, rest) =
    realms-MadeToken host cfg tree names (Event.got (codes "roles/" ++ name) (ok entry) ∷ before)
      after made rest

minted-MadeToken :
    (r : Rotation) (secret : Bytes) (cfg : Config) (l : Log)
    → IsReplacement r secret cfg
    → IsMinted r secret l
    → MadeToken cfg l
minted-MadeToken r secret cfg l replaces minted = ground arith

pub IsValidated-MadeToken :
    (host : Host) (r : Rotation) (cfg : Config) (l : Log)
    → IsValidated host r cfg l
    → MadeToken cfg l
IsValidated-MadeToken host r cfg l v =
    realms-MadeToken host cfg v.valid.tree v.valid.names _ l
      (minted-MadeToken r v.secret cfg v.before v.replaces v.minted) v.valid.realms
