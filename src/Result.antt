-- ===== src/Result.antt =====
-- Exceptions as values, and transactions (core/database.py, integrations/errors.py, matching/*.py,
-- repositories/match.py, workers/match_tasks.py).
use mathlib.Core.Path.{subst}
use find_me_gamer.Prelude.{◌≡◌, refl, if◌then◌else◌, Bool, true, false, Option, none, some, String}

-- The exceptions that the modelled code raises. A code is the exception's text.
pub data Failure : Type 0 where
  checkpoint : String → Failure  -- PairwiseCheckpointError, RankingCheckpointError
  input_error : String → Failure  -- MatchInputError, which carries no `code` attribute
  invalid_output : Failure  -- InvalidPairwiseOutput, InvalidRankingOutput
  invalid_screening : Failure  -- InvalidScreeningOutput
  transient : String → Failure  -- TransientIntegrationError
  permanent : String → Failure  -- PermanentIntegrationError
  api_error : String → Failure  -- APIError, by its code
  retryable_delivery : Failure  -- RetryableDeliveryError
  smtp_permanent smtp_transient : Failure  -- SMTPPermanentError, SMTPTransientError
  database_error : Failure  -- SQLAlchemyError
  type_error value_error : Failure  -- the argument checks
  integrity_error : Failure  -- a UNIQUE constraint of the schema rejects the flush

pub data Result {ℓ} (A : Type ℓ) : Type ℓ where
  err : Failure → Result A  -- raised
  ok : A → Result A  -- returned

-- `if test: raise e`
unfoldable pub raise_if : Bool → Failure → Result (Unit {0})
raise_if true e = err e
raise_if false e = ok tt

-- `if value is None: raise e`
unfoldable pub require {ℓ} : {A : Type ℓ} → Option A → Failure → Result A
require none e = err e
require (some a) e = ok a

-- What follows a call runs where the call returned.
infixl 5 ◌>>=◌ ◌>>◌
unfoldable pub ◌>>=◌ {ℓ κ} : {X : Type ℓ} {Y : Type κ} → Result X → (X → Result Y) → Result Y
err failure >>= next = err failure
ok value >>= next = next value

abbrev pub ◌>>◌ {ℓ} : {Y : Type ℓ} → Result (Unit {0}) → Result Y → Result Y
check >> next = check >>= λ _. next

-- `with session.begin()`: a transaction that raises is rolled back to the state before it.
abbrev pub settle {ℓ κ} : {S : Type ℓ} {A : Type κ} → S → Result (A × S) → Result A × S
settle s (ok (a, s')) = (ok a, s')
settle s (err e) = (err e, s)

-- What a successful result satisfies; a failure satisfies everything.
pub data Ensures {ℓ κ} {A : Type ℓ} (P : A → Type κ) : Result A → Type (ℓ ⊔ κ) where
  returned : {a : A} → P a → Ensures P (ok a)
  raised : {e : Failure} → Ensures P (err e)

module _ {ℓ κ} {A : Type ℓ} {P : A → Type κ} where
  pub Ensures-result : {r : Result A} {a : A} → Ensures P r → r ≡ ok a → P a
  Ensures-result {a = a} (returned {a = b} h) e = subst P (cc) h
  Ensures-result raised e = cc

  pub Ensures-raise_if :
      (b : Bool) (e : Failure) (f : Unit {0} → Result A)
      → (b ≡ false → Ensures P (f tt))
      → Ensures P (raise_if b e >>= f)
  unfolding ◌>>=◌ raise_if
  Ensures-raise_if true e f h = raised
  Ensures-raise_if false e f h = h refl

  pub Ensures-if :
      (b : Bool) (m n : Result A)
      → (b ≡ true → Ensures P m)
      → (b ≡ false → Ensures P n)
      → Ensures P (if b then m else n)
  Ensures-if true m n hm hn = hm refl
  Ensures-if false m n hm hn = hn refl

module _ {ℓ κ μ} {A : Type ℓ} {B : Type μ} {P : A → Type κ} where
  pub Ensures-require :
      (o : Option B) (e : Failure) (f : B → Result A)
      → ((b : B) → o ≡ some b → Ensures P (f b))
      → Ensures P (require o e >>= f)
  unfolding ◌>>=◌ require
  Ensures-require none e f h = raised
  Ensures-require (some b) e f h = h b refl

  pub Ensures-bind :
      (m : Result B) (f : B → Result A)
      → ((b : B) → m ≡ ok b → Ensures P (f b))
      → Ensures P (m >>= f)
  unfolding ◌>>=◌
  Ensures-bind (ok b) f h = h b refl
  Ensures-bind (err e) f h = raised

-- A weaker consequence.
pub Ensures-mono {ℓ κ μ} :
    {A : Type ℓ} {P : A → Type κ} {Q : A → Type μ} {r : Result A}
    → ((a : A) → P a → Q a)
    → Ensures P r
    → Ensures Q r
Ensures-mono f (returned {a} h) = returned (f a h)
Ensures-mono f raised = raised

pub bind_congr {ℓ κ} :
    {X : Type ℓ} {Y : Type κ} (m : Result X) (f g : X → Result Y)
    → ((x : X) → f x ≡ g x)
    → (m >>= f) ≡ (m >>= g)
unfolding ◌>>=◌
bind_congr (err failure) f g same = refl
bind_congr (ok value) f g same = same value

-- A check that passes is as if it were not there.
pub raise_if-passes {ℓ} :
    {A : Type ℓ} (b : Bool) (e : Failure) (rest : Unit {0} → Result A)
    → b ≡ false
    → (raise_if b e >>= rest) ≡ rest tt
unfolding ◌>>=◌ raise_if
raise_if-passes false e rest h = refl
raise_if-passes true e rest h = cc
