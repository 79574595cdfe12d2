-- ===== src/Host/Returns.antt =====
-- How a property passes from a statement of a handler to the next, where each may also return a
-- refusal or an error.
use vault_custom_secrets_eng.Base.{Bool, true, false, none, some}
use vault_custom_secrets_eng.Pveapi.Errors.{Error, Result, ok, err}
use vault_custom_secrets_eng.Host.Response.{refusal, reply, leased, keys, Outcome}
use vault_custom_secrets_eng.Host.Act.{
  State, Act, Op, Flow, next, stop, continue, try, or_return, return_if,
}

-- A step goes on as described, or returns a refusal or an error.
abbrev pub EndsIn : {A : Type 0} → (A → State → Type 0) → Flow Outcome A × State → Type 0
EndsIn P (next v, s) = P v s
EndsIn P (stop (ok (some (refusal text))), s) = Unit
EndsIn P (stop (err e), s) = Unit
EndsIn P (stop (ok _), s) = ⊥

pub EndsIn-after :
    {A B : Type 0} (P : A → State → Type 0) (P' : B → State → Type 0) (x : Flow Outcome A × State)
    (k : A → Act Outcome B)
    → EndsIn P x
    → ((v : A) (s : State) → P v s → EndsIn P' (k v s))
    → EndsIn P' (continue x.0 k x.1)
EndsIn-after P P' (next v, s) k h rest = rest v s h
EndsIn-after P P' (stop (ok none), s) k h rest = absurd h
EndsIn-after P P' (stop (ok (some (refusal text))), s) k h rest = tt
EndsIn-after P P' (stop (ok (some (reply fields warnings))), s) k h rest = absurd h
EndsIn-after P P' (stop (ok (some (leased lease fields warnings))), s) k h rest = absurd h
EndsIn-after P P' (stop (ok (some (keys ks))), s) k h rest = absurd h
EndsIn-after P P' (stop (err e), s) k h rest = tt

pub or_error :
    {A : Type 0} (r : Result A) (f : Error → Error) (s : State)
    → EndsIn (λ _ _. Unit) (or_return r (λ e. err (f e)) s)
or_error (ok v) f s = tt
or_error (err e) f s = tt

pub try-EndsIn :
    {A : Type 0} (m : Op (Result A)) (f : Error → Error) (s : State)
    → EndsIn (λ _ _. Unit) (try m (λ e. err (f e)) s)
try-EndsIn m f s = or_error (m s).0 f (m s).1

pub unless-EndsIn :
    (Q : State → Type 0) (b : Bool) (e : Error) (s : State)
    → Q s
    → EndsIn (λ _ s'. Q s') (return_if b (err e) s)
unless-EndsIn Q true e s h = tt
unless-EndsIn Q false e s h = h
