-- ===== src/Host/Chain.antt =====
-- How a property passes from a statement of a Go function to the rest of it, also where the
-- statement returns.
use vault_custom_secrets_eng.Base.{◌≡◌, refl, Bool, true, false, Option, none, some}
use vault_custom_secrets_eng.Pveapi.Errors.{Error, Result, ok, err}
use vault_custom_secrets_eng.Host.Act.{
  State, Act, Flow, next, stop, continue, or_return, or_stop, return_if,
}

-- The statement goes on with `P`, or returns in a state with `Q`.
abbrev pub EndsWith :
    {R A : Type 0} → (A → State → Type 0) → (State → Type 0) → Flow R A × State → Type 0
EndsWith P Q (next v, s) = P v s
EndsWith P Q (stop r, s) = Q s

pub ends_after :
    {R A B : Type 0} (P : A → State → Type 0) (Q : State → Type 0) (x : Flow R A × State)
    (k : A → Act R B)
    → EndsWith P Q x
    → ((v : A) (s : State) → P v s → Q (k v s).1)
    → Q (continue x.0 k x.1).1
ends_after P Q (next v, s) k h rest = rest v s h
ends_after P Q (stop r, s) k h rest = h

pub EndsWith-after :
    {R A B : Type 0} (P : A → State → Type 0) (P' : B → State → Type 0) (Q : State → Type 0)
    (x : Flow R A × State) (k : A → Act R B)
    → EndsWith P Q x
    → ((v : A) (s : State) → P v s → EndsWith P' Q (k v s))
    → EndsWith P' Q (continue x.0 k x.1)
EndsWith-after P P' Q (next v, s) k h rest = rest v s h
EndsWith-after P P' Q (stop r, s) k h rest = h

pub or_return-EndsWith :
    {R A : Type 0} (Q : State → Type 0) (r : Result A) (f : Error → R) (s : State)
    → Q s
    → EndsWith (λ (a : A) s'. Q s') Q (or_return r f s)
or_return-EndsWith Q (ok a) f s h = h
or_return-EndsWith Q (err e) f s h = h

pub or_stop-EndsWith :
    {R : Type 0} (Q : State → Type 0) (o : Option Error) (f : Error → R) (s : State)
    → Q s
    → EndsWith (λ (u : Unit) s'. Q s') Q (or_stop o f s)
or_stop-EndsWith Q none f s h = h
or_stop-EndsWith Q (some e) f s h = h

-- A step that keeps `P`, and what follows it.
pub keeps-chain :
    {R A B : Type 0} (P Q : State → Type 0) (x : Flow R A × State) (k : A → Act R B)
    → P x.1
    → (P x.1 → Q x.1)
    → ((v : A) (s : State) → P s → Q (k v s).1)
    → Q (continue x.0 k x.1).1
keeps-chain P Q (next v, s) k h stopped rest = rest v s h
keeps-chain P Q (stop r, s) k h stopped rest = stopped h

pub or_return-chain :
    {R A B : Type 0} (P Q : State → Type 0) (x : Result A) (f : Error → R) (k : A → Act R B)
    (s : State)
    → P s
    → (P s → Q s)
    → ((v : A) → x ≡ ok v → Q (k v s).1)
    → let y = or_return x f s in Q (continue y.0 k y.1).1
or_return-chain P Q (ok v) f k s h stopped rest = rest v refl
or_return-chain P Q (err e) f k s h stopped rest = stopped h

pub or_stop-chain :
    {R B : Type 0} (Q : State → Type 0) (o : Option Error) (f : Error → R) (k : Unit → Act R B)
    (s : State)
    → Q s
    → Q (k tt s).1
    → let y = or_stop o f s in Q (continue y.0 k y.1).1
or_stop-chain Q none f k s stopped rest = rest
or_stop-chain Q (some e) f k s stopped rest = stopped

pub return_if-chain :
    {R B : Type 0} (Q : State → Type 0) (b : Bool) (r : R) (k : Unit → Act R B) (s : State)
    → Q s
    → (b ≡ false → Q (k tt s).1)
    → let y = return_if b r s in Q (continue y.0 k y.1).1
return_if-chain Q true r k s stopped rest = stopped
return_if-chain Q false r k s stopped rest = rest refl
