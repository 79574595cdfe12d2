-- ===== src/Creds/Issue.antt =====
-- path_creds.go: no user is orphaned, on any path through `handleCredsRead`.
use vault_custom_secrets_eng.Base.{
  Bool-cases, ℕ, zero, suc, ◌≡◌, ◌⊎◌, inl, inr, refl, Bool, true, false, [], Bytes, text_eq,
  is_empty, arith,
}
use vault_custom_secrets_eng.Host.{Host}
use vault_custom_secrets_eng.Host.Data.{Config}
use vault_custom_secrets_eng.Host.Response.{Outcome}
use vault_custom_secrets_eng.Host.Act.{
  State, Act, Flow, next, stop, continue, random_below, get_version_info,
}
use vault_custom_secrets_eng.Password.{password_chars, generate_password}
use vault_custom_secrets_eng.Roles.{mode_password}
use vault_custom_secrets_eng.Creds.{max_collision_retries, Attempt}
use vault_custom_secrets_eng.Creds.Steps.{issue_password}
use vault_custom_secrets_eng.Creds.Handler.{
  Plan, plan_issue, issue, finish_attempt, handle_creds_read,
}
use vault_custom_secrets_eng.Creds.Trace.{owned, pending, IsSettled}
use vault_custom_secrets_eng.Creds.Retry.{
  IsQuiet, KeepsTrace, IsCreated, LoopEnd, create_loop-LoopEnd,
}
use vault_custom_secrets_eng.Creds.Settled.{OutcomeSettled, finish_issue-IsSettled}

KeepsTrace-IsQuiet : {s s' : State} → KeepsTrace s s' → IsQuiet s → IsQuiet s'
KeepsTrace-IsQuiet k q = ground arith

module _ (host : Host) where
  plan_issue-KeepsTrace : (name : Bytes) (s : State) → KeepsTrace s (plan_issue host name s).1
  unfolding plan_issue owned pending
  plan_issue-KeepsTrace name s = ground arith

  password_chars-KeepsTrace : (n : ℕ) (s : State) → KeepsTrace s (password_chars host n s).1
  unfolding password_chars owned pending
  password_chars-KeepsTrace zero s = ground arith
  password_chars-KeepsTrace (suc n) s =
      ground (arith, password_chars-KeepsTrace n (random_below host 62 s).1)

  generate_password-KeepsTrace : (s : State) → KeepsTrace s (generate_password host s).1
  unfolding generate_password
  generate_password-KeepsTrace s = ground (arith, password_chars-KeepsTrace 32 s)

  issue_password-KeepsTrace :
      (client : Config) (password_mode : Bool) (s : State)
      → KeepsTrace s (issue_password host client password_mode s).1
  unfolding issue_password owned pending
  issue_password-KeepsTrace client false s = ground arith
  issue_password-KeepsTrace client true s =
      ground (arith, generate_password-KeepsTrace (get_version_info host client s).1)

  IsQuiet-IsSettled : (outcome : Outcome) (s : State) → IsQuiet s → IsSettled outcome s.log
  IsQuiet-IsSettled outcome s q = rw q.no_user tt

  finish_attempt-IsSettled :
      (name : Bytes) (plan : Plan) (password : Bytes) (a : Attempt) (s : State)
      → IsCreated a s ⊎ (IsQuiet s × (a.wal_id ≡ []))
      → OutcomeSettled (finish_attempt host name plan password a s)
  unfolding finish_attempt
  finish_attempt-IsSettled name plan password a s (inr (quiet, e)) = rw (e, quiet.no_user) tt
  finish_attempt-IsSettled name plan password a s (inl created) =
      elim (Bool-cases (is_empty a.wal_id)) [
        | inl unnamed ↦ rw (unnamed, created.one_user, created.one_entry) (inl (inl refl), tt)
        | inr named ↦ rw named (finish_issue-IsSettled host name plan password a s created)
      ]

  settled_after_loop :
      (name : Bytes) (plan : Plan) (password : Bytes) (x : Flow Outcome Attempt × State)
      → LoopEnd x
      → OutcomeSettled (continue x.0 (finish_attempt host name plan password) x.1)
  settled_after_loop name plan password (stop r, s) h = h
  settled_after_loop name plan password (next a, s) h =
      finish_attempt-IsSettled name plan password a s h

  -- A step from a quiet state to a quiet state, before any user is created.
  settled_after_quiet :
      {A : Type 0} (x : Flow Outcome A × State) (k : A → Act Outcome Outcome)
      → IsQuiet x.1
      → ((v : A) (s : State) → IsQuiet s → OutcomeSettled (k v s))
      → OutcomeSettled (continue x.0 k x.1)
  settled_after_quiet (stop r, s) k q rest = IsQuiet-IsSettled r s q
  settled_after_quiet (next v, s) k q rest = rest v s q

  issue-IsSettled :
      (name : Bytes) (plan : Plan) (s : State) → IsQuiet s → OutcomeSettled (issue host name plan s)
  unfolding issue
  issue-IsSettled name plan s q =
      let password_mode = text_eq plan.role.mode mode_password in
      settled_after_quiet (issue_password host plan.client password_mode s) _
        (KeepsTrace-IsQuiet (issue_password-KeepsTrace plan.client password_mode s) q)
        λ password s1 q1. settled_after_loop name plan password _ (
          create_loop-LoopEnd host max_collision_retries plan.client plan.role name password
            plan.expire (record { userid = []; wal_id = []; nonce = [] }) s1 refl q1)

-- Whatever storage, PVE and Vault answer, issuing a credential for a role leaves no orphan: from a
-- log with no user and no WAL entry left, every user that a creation may have made and that no
-- deletion has removed is named, with its comment, by a WAL entry that is still there, or the
-- outcome is a lease on it.
pub handle_creds_read-IsSettled :
    (host : Host) (name : Bytes) (s : State)
    → IsQuiet s
    → let (outcome, s') = handle_creds_read host name s in IsSettled outcome s'.log
unfolding handle_creds_read
handle_creds_read-IsSettled host name s q =
    settled_after_quiet host (plan_issue host name s) _
      (KeepsTrace-IsQuiet (plan_issue-KeepsTrace host name s) q)
      λ plan s1 q1. issue-IsSettled host name plan s1 q1
