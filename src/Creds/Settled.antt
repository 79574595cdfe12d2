-- ===== src/Creds/Settled.antt =====
-- path_creds.go: what the steps behind a created user leave.
use vault_custom_secrets_eng.Base.{
  if◌then◌else◌, All-map, ◌≡◌, inl, inr, refl, Bool, true, false, some, [], ◌∷◌, Bytes, ℤ,
  text_eq_refl, All, lookup, text_eq, arith,
}
use vault_custom_secrets_eng.Pveapi.Errors.{Result, ok, err}
use vault_custom_secrets_eng.Pveapi.Types.{UserInfo}
use vault_custom_secrets_eng.Host.{Host}
use vault_custom_secrets_eng.Host.Data.{Config, Role}
use vault_custom_secrets_eng.Host.Event.{Log}
use vault_custom_secrets_eng.Host.Response.{Outcome, Values}
use vault_custom_secrets_eng.Host.Act.{
  State, result, pure, Act, Flow, next, stop, continue, get_user, create_token,
}
use vault_custom_secrets_eng.Roles.{mode_password}
use vault_custom_secrets_eng.Creds.{lease_token_id, Attempt}
use vault_custom_secrets_eng.Creds.Steps.{
  cleanup_user, abandon, check_user, check_token, read_back, mint_token, clear_wal,
}
use vault_custom_secrets_eng.Creds.Handler.{
  Plan, finish_issue, lease_internal_data, issued_response,
}
use vault_custom_secrets_eng.Creds.Trace.{owned, pending, IsCovered, IsSettled, HandsOut}
use vault_custom_secrets_eng.Creds.Retry.{IsCreated, get_client-KeepsTrace}

-- Every user that is left has a WAL entry.
abbrev IsSafe : State → Type 0
IsSafe s = All (λ u. IsCovered (pending s.log) u) (owned s.log)

module _ (host : Host) where
  cleanup_user-IsSafe :
      (a : Attempt) (s : State) → IsCreated a s → IsSafe (cleanup_user host a.userid a.wal_id s).1
  unfolding cleanup_user owned pending
  cleanup_user-IsSafe a s h = ground (arith, get_client-KeepsTrace host s, text_eq_refl a.userid)

IsSettled-of_safe : (outcome : Outcome) (s : State) → IsSafe s → IsSettled outcome s.log
IsSettled-of_safe outcome s h = All-map (λ u c. inl c) (owned s.log) h

-- A step that either returns with nothing orphaned or goes on with the user of the attempt.
abbrev StepEnd : {A : Type 0} → Attempt → Flow Outcome A × State → Type 0
StepEnd a (stop r, s) = IsSettled r s.log
StepEnd a (next x, s) = IsCreated a s

-- Such a step, from any state in which the attempt's user is the only one.
record Ends {A : Type 0} (a : Attempt) (m : Act Outcome A) : Type 0 where
  at : (s : State) → IsCreated a s → StepEnd a (m s)

Ends-pure : {A : Type 0} (a : Attempt) (x : A) → Ends a (pure x)
Ends-pure a x = record { at = λ s h. h }

Ends-if :
    {A : Type 0} (a : Attempt) (b : Bool) (m n : Act Outcome A)
    → Ends a m
    → Ends a n
    → Ends a (if b then m else n)
Ends-if a true m n hm hn = hm
Ends-if a false m n hm hn = hn

module _ (host : Host) where
  Ends-abandon :
      (A : Type 0) (a : Attempt) (outcome : Outcome) → Ends a (abandon host {A = A} a outcome)
  unfolding abandon
  Ends-abandon A a outcome = record {
    at = λ s h.
        IsSettled-of_safe outcome (cleanup_user host a.userid a.wal_id s).1
          (cleanup_user-IsSafe host a s h);
  }

  Ends-check_user :
      (role : Role) (password_mode : Bool) (a : Attempt) (found : Result UserInfo)
      → Ends a (check_user host role password_mode a found)
  unfolding check_user
  Ends-check_user role password_mode a (err e) = Ends-abandon Unit a _
  Ends-check_user role password_mode a (ok info) = search (Ends-if, Ends-abandon, Ends-pure)

  Ends-read_back :
      (client : Config) (role : Role) (password_mode : Bool) (a : Attempt)
      → Ends a (read_back host client role password_mode a)
  unfolding read_back owned pending
  Ends-read_back client role password_mode a = record {
    at = λ s h.
        (Ends-check_user role password_mode a (get_user host client a.userid s).0).at
          (get_user host client a.userid s).1
          (record { one_user = h.one_user; one_entry = h.one_entry });
  }

  Ends-check_token : (a : Attempt) (minted : Result Bytes) → Ends a (check_token host a minted)
  unfolding check_token
  Ends-check_token a (err e) = Ends-abandon Bytes a _
  Ends-check_token a (ok secret) = Ends-pure a secret

  Ends-mint_token :
      (client : Config) (password_mode : Bool) (a : Attempt)
      → Ends a (mint_token host client password_mode a)
  unfolding mint_token owned pending
  Ends-mint_token client true a = Ends-pure a []
  Ends-mint_token client false a = record {
    at = λ s h.
        (Ends-check_token a (create_token host client a.userid lease_token_id s).0).at
          (create_token host client a.userid lease_token_id s).1
          (record { one_user = h.one_user; one_entry = h.one_entry });
  }

-- Once the WAL entry is gone only the lease leads to the user.
abbrev ClearEnd : Attempt → Flow Outcome Unit × State → Type 0
ClearEnd a (stop r, s) = IsSettled r s.log
ClearEnd a (next x, s) = owned s.log ≡ (a.userid, a.nonce) ∷ []

HandsOut-issued :
    (password_mode : Bool) (fields : Values) (userid group name : Bytes) (ttl max_ttl expire : ℤ)
    → HandsOut
        (ok (
          some (
            issued_response password_mode fields
              (lease_internal_data userid group max_ttl name expire)
              ttl
              max_ttl)))
        userid
unfolding issued_response lease_internal_data lookup text_eq
HandsOut-issued password_mode fields userid group name ttl max_ttl expire = refl

IsSettled-one :
    (outcome : Outcome) (a : Attempt) (l : Log)
    → owned l ≡ (a.userid, a.nonce) ∷ []
    → HandsOut outcome a.userid
    → IsSettled outcome l
IsSettled-one outcome a l e h = rw e (inr h, tt)

-- The outcome of a function whose body ended so.
abbrev pub OutcomeSettled : Flow Outcome Outcome × State → Type 0
OutcomeSettled (f, s) = IsSettled (result f) s.log

module _ (host : Host) where
  clear_wal-ClearEnd :
      (client : Config) (a : Attempt) (s : State)
      → IsCreated a s
      → ClearEnd a (clear_wal host client a s)
  unfolding clear_wal owned pending
  clear_wal-ClearEnd client a s h = ground (arith, text_eq_refl a.userid)

  settled_after_step :
      {A : Type 0} (a : Attempt) (x : Flow Outcome A × State) (k : A → Act Outcome Outcome)
      → StepEnd a x
      → ((v : A) (s : State) → IsCreated a s → OutcomeSettled (k v s))
      → OutcomeSettled (continue x.0 k x.1)
  settled_after_step a (stop r, s) k h rest = h
  settled_after_step a (next v, s) k h rest = rest v s h

  settled_after_clear :
      (a : Attempt) (x : Flow Outcome Unit × State) (outcome : Outcome)
      → ClearEnd a x
      → HandsOut outcome a.userid
      → OutcomeSettled (continue x.0 (λ _. pure outcome) x.1)
  settled_after_clear a (stop r, s) outcome h out = h
  settled_after_clear a (next v, s) outcome h out = IsSettled-one outcome a s.log h out

  -- From a created user the issuance ends with the lease or with nothing orphaned.
  pub finish_issue-IsSettled :
      (name : Bytes) (plan : Plan) (password : Bytes) (a : Attempt) (s : State)
      → IsCreated a s
      → OutcomeSettled (finish_issue host name plan password a s)
  unfolding finish_issue
  finish_issue-IsSettled name plan password a s h =
      let password_mode = text_eq plan.role.mode mode_password in
      settled_after_step a (read_back host plan.client plan.role password_mode a s) _
        ((Ends-read_back host plan.client plan.role password_mode a).at s h)
        λ _ s1 h1.
          settled_after_step a (mint_token host plan.client password_mode a s1) _
            ((Ends-mint_token host plan.client password_mode a).at s1 h1)
            λ secret s2 h2.
              settled_after_clear a (clear_wal host plan.client a s2) _
                (clear_wal-ClearEnd plan.client a s2 h2)
                (HandsOut-issued password_mode _ a.userid _ name _ _ _)
