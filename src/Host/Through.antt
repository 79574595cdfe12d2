-- ===== src/Host/Through.antt =====
-- The engine on an implementation of `pveapi.Client`: the host whose calls of PVE are those of the
-- client that the factory `newClient` of backend.go makes, and whose other calls are another host's.
use vault_custom_secrets_eng.Base.{Option, some, [], ◌∷◌}
use vault_custom_secrets_eng.Pveapi.Errors.{Error, Result, ok, err}
use vault_custom_secrets_eng.Pveapi.Wire.{failure_of}
use vault_custom_secrets_eng.Pveapi.Interface.{Method, PveClient}
use vault_custom_secrets_eng.Host.{Host}
use vault_custom_secrets_eng.Host.Data.{Config}
use vault_custom_secrets_eng.Host.Event.{
  Event, version_read, permissions_read, group_read, user_created, user_read, token_created,
  user_updated, user_deleted, token_deleted, token_sought, Log,
}

module _ {S : Type 0} where
  -- A method of a client that was built, or the error of building it.
  abbrev pub asked :
      {A : Type 0}
      → Result (PveClient S)
      → (PveClient S → Method S (Result A))
      → Method S (Result A)
  asked (ok client) method s = method client s
  asked (err e) method s = (err e, s)

  abbrev pub told :
      Result (PveClient S) → (PveClient S → Method S (Option Error)) → Method S (Option Error)
  told (ok client) method s = method client s
  told (err e) method s = (some e, s)

module _ {S : Type 0} (factory : Config → Result (PveClient S)) where
  -- The state of the client after a call.
  unfoldable pub after : Event → S → S
  after (version_read c r) s = (asked (factory c) (λ p. p.get_version_info) s).1
  after (permissions_read c r) s = (asked (factory c) (λ p. p.get_permissions) s).1
  after (group_read c group r) s = (told (factory c) (λ p. p.get_group group) s).1
  after (user_created c req r) s = (told (factory c) (λ p. p.create_user req) s).1
  after (user_read c userid r) s = (asked (factory c) (λ p. p.get_user userid) s).1
  after (token_created c userid tokenid r) s =
      (asked (factory c) (λ p. p.create_token userid tokenid) s).1
  after (user_updated c req r) s = (told (factory c) (λ p. p.update_user req) s).1
  after (user_deleted c userid r) s = (told (factory c) (λ p. p.delete_user userid) s).1
  after (token_deleted c userid tokenid r) s =
      (told (factory c) (λ p. p.delete_token userid tokenid) s).1
  after (token_sought c userid tokenid r) s =
      (asked (factory c) (λ p. p.token_exists userid tokenid) s).1
  after _ s = s

  module _ (first : S) where
    -- The state of the client after all calls so far.
    unfoldable pub replay : Log → S
    replay [] = first
    replay (event ∷ l) = after event (replay l)

    unfoldable pub through : Host → Host
    unfolding replay
    through host = record host {
      new_client = λ l c. failure_of (factory c);
      get_version_info = λ l c. (asked (factory c) (λ p. p.get_version_info) (replay l)).0;
      get_permissions = λ l c. (asked (factory c) (λ p. p.get_permissions) (replay l)).0;
      get_group = λ l c group. (told (factory c) (λ p. p.get_group group) (replay l)).0;
      create_user = λ l c req. (told (factory c) (λ p. p.create_user req) (replay l)).0;
      get_user = λ l c userid. (asked (factory c) (λ p. p.get_user userid) (replay l)).0;
      create_token = λ l c userid tokenid.
          (asked (factory c) (λ p. p.create_token userid tokenid) (replay l)).0;
      update_user = λ l c req. (told (factory c) (λ p. p.update_user req) (replay l)).0;
      delete_user = λ l c userid. (told (factory c) (λ p. p.delete_user userid) (replay l)).0;
      delete_token = λ l c userid tokenid.
          (told (factory c) (λ p. p.delete_token userid tokenid) (replay l)).0;
      token_exists = λ l c userid tokenid.
          (asked (factory c) (λ p. p.token_exists userid tokenid) (replay l)).0;
    }
