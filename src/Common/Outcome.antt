-- ===== src/Common/Outcome.antt =====
-- Results that carry an error value, and database transactions
-- (backend/internal/platform/db/tx.go). Whether the database fails a call is an input.
use mathlib.Core.Path.{◌≡◌, refl}
use mathlib.Core.Logic.{◌⊎◌, inl, inr}
use mathlib.Core.Bool.{Bool, true, false}
use native.Mathlib.Omega.{arith}
use check.Common.Tests.{if◌then◌else◌}

pub data Result (E A : Type 0) : Type 0 where
  ok : A → Result E A
  err : E → Result E A

infixl 5 ◌>>=◌ ◌>>◌
abbrev pub ◌>>=◌ : {E A B : Type 0} → Result E A → (A → Result E B) → Result E B
err e >>= next = err e
ok a >>= next = next a

abbrev pub ◌>>◌ : {E B : Type 0} → Result E (Unit {0}) → Result E B → Result E B
first >> next = first >>= λ _. next

pub Result-cases :
    {E A : Type 0} (m : Result E A) → ((a : A) × (m ≡ ok a)) ⊎ ((e : E) × (m ≡ err e))
Result-cases (ok a) = inl (a, refl)
Result-cases (err e) = inr (e, refl)

-- Inversion of a successful bind.
pub >>=-eq-ok :
    {E A B : Type 0} (m : Result E A) (next : A → Result E B) {b : B}
    → (m >>= next) ≡ ok b
    → (a : A) × (m ≡ ok a) × (next a ≡ ok b)
>>=-eq-ok (err e) next h = absurd (cc)
>>=-eq-ok (ok a) next h = (a, refl, h)

-- `if !ok { return err }`
abbrev pub guard : {E : Type 0} → Bool → E → Result E (Unit {0})
guard holds e = if holds then ok tt else err e

-- What a transaction body leaves: its value with the new state, or an error.
abbrev pub Body : Type 0 → Type 0 → Type 0 → Type 0
Body S E A = S → Result E (A × S)

abbrev pub commit : {S E A : Type 0} → Bool → E → S → Result E (A × S) → S × Result E A
commit fails fault s (err e) = (s, err e)
commit fails fault s (ok (a, s')) = if fails then (s, err fault) else (s', ok a)

-- `WithTx`: begin, run the body, commit; an error at any point rolls back to the state before.
unfoldable pub with_tx : {S E A : Type 0} → Bool → Bool → E → Body S E A → S → S × Result E A
with_tx begin_fails commit_fails fault body s =
    if begin_fails then (s, err fault) else commit commit_fails fault s (body s)

-- `WithSavepoint`: the same shape inside an open transaction; the outer state goes on from the
-- savepoint after an error, and from the body's state after a release.
unfoldable pub with_savepoint : {S E A : Type 0} → Bool → Bool → E → Body S E A → S → S × Result E A
with_savepoint begin_fails release_fails fault body s =
    if begin_fails then (s, err fault) else commit release_fails fault s (body s)

module _ {S E A : Type 0} (fault : E) (P : S → Type 0) (s : S) (keep : P s) where
  commit-keeps :
      (c : Bool) (r : Result E (A × S))
      → ((a : A) (s' : S) → r ≡ ok (a, s') → P s')
      → P (commit c fault s r).0
  commit-keeps c (err e) h = keep
  commit-keeps true (ok (a, s')) h = keep
  commit-keeps false (ok (a, s')) h = h a s' refl

  -- What the state before has, and every state that the body can leave, the state after has.
  pub with_tx-keeps :
      (b c : Bool) (body : Body S E A)
      → ((a : A) (s' : S) → body s ≡ ok (a, s') → P s')
      → P (with_tx b c fault body s).0
  unfolding with_tx
  with_tx-keeps true c body h = keep
  with_tx-keeps false c body h = commit-keeps c (body s) h

  pub with_savepoint-keeps :
      (b c : Bool) (body : Body S E A)
      → ((a : A) (s' : S) → body s ≡ ok (a, s') → P s')
      → P (with_savepoint b c fault body s).0
  unfolding with_savepoint
  with_savepoint-keeps true c body h = keep
  with_savepoint-keeps false c body h = commit-keeps c (body s) h

module _ {S E A : Type 0} (b c : Bool) (fault : E) (body : Body S E A) (s : S) where
  -- A transaction that reports an error has changed nothing.
  pub with_tx_atomic :
      {e : E} → (with_tx b c fault body s).1 ≡ err e → (with_tx b c fault body s).0 ≡ s
  unfolding with_tx
  with_tx_atomic h = ground (arith)

  pub with_savepoint_atomic :
      {e : E}
      → (with_savepoint b c fault body s).1 ≡ err e
      → (with_savepoint b c fault body s).0 ≡ s
  unfolding with_savepoint
  with_savepoint_atomic h = ground (arith)

  -- A transaction that reports success has committed what its body left.
  pub with_tx-eq-ok :
      {a : A} → (with_tx b c fault body s).1 ≡ ok a → body s ≡ ok (a, (with_tx b c fault body s).0)
  unfolding with_tx
  with_tx-eq-ok h = ground arith
