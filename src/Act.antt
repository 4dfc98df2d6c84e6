-- ===== src/Act.antt =====
-- Calls that can fail and that change a state: an external library's, or the program's own.
use hybrid_pqc_benchmarking.Prelude.{◌≡◌, refl, Bool, true, false, Option, none, some, arith}

-- `none` is the failure value of the C function: NULL, -1, a result that is not positive.
abbrev pub Act : Type 0 → Type 0 → Type 0
Act W A = W → Option A × W

abbrev pub after : {W A B : Type 0} → Option A × W → (A → Act W B) → Option B × W
after (none, w) f = (none, w)
after (some a, w) f = f a w

-- The early return: after a failure nothing else runs.
infixl 5 ◌>>=◌ ◌>>◌
abbrev pub ◌>>=◌ : {W A B : Type 0} → Act W A → (A → Act W B) → Act W B
◌>>=◌ m f w = after (m w) f

abbrev pub ◌>>◌ : {W B : Type 0} → Act W (Unit {0}) → Act W B → Act W B
m >> k = m >>= λ _. k

abbrev pub pure : {W A : Type 0} → A → Act W A
pure a w = (some a, w)

abbrev pub fail : {W A : Type 0} → Act W A
fail w = (none, w)

abbrev pub guard : {W : Type 0} → Bool → Act W (Unit {0})
guard true = pure tt
guard false = fail

-- A value that may be missing.
abbrev pub require : {W A : Type 0} → Option A → Act W A
require none = fail
require (some a) = pure a

-- The call's answer as a value: the caller goes on after a failure.
abbrev pub caught : {W A : Type 0} → Option A × W → Option (Option A) × W
caught (r, w) = (some r, w)

abbrev pub attempt : {W A : Type 0} → Act W A → Act W (Option A)
attempt m w = caught (m w)

-- A successful chain is a success of its first part, followed by one of the rest.
pub >>=-eq-some :
    {W A B : Type 0} (m : Act W A) (f : A → Act W B) (w : W) {b : B} {w' : W}
    → (m >>= f) w ≡ (some b, w')
    → (a : A) × (v : W) × (m w ≡ (some a, v)) × (f a v ≡ (some b, w'))
>>=-eq-some m f w {b} {w'} h = go (m w) refl h
  where
    go :
        (r : Option _ × _)
        → m w ≡ r
        → after r f ≡ (some b, w')
        → (a : _) × (v : _) × (m w ≡ (some a, v)) × (f a v ≡ (some b, w'))
    go (none, v) e k = cc
    go (some a, v) e k = (a, v, e, k)

-- An attempt shows what the call gave.
pub caught-eq-some :
    {W A : Type 0} (r : Option A × W) {o : Option A} {w : W} → caught r ≡ (some o, w) → r ≡ (o, w)
caught-eq-some (o', v) h = ground arith

pub require-eq-some :
    {W A : Type 0} (o : Option A) (w : W) {a : A} {v : W}
    → require o w ≡ (some a, v)
    → (o ≡ some a) × (v ≡ w)
require-eq-some none w h = absurd (ground arith)
require-eq-some (some a') w h = (ground arith, ground arith)

pub guard-eq-some :
    {W : Type 0} (b : Bool) (w : W) {v : W} → guard b w ≡ (some tt, v) → (b ≡ true) × (v ≡ w)
guard-eq-some true w h = (refl, ground arith)
guard-eq-some false w h = absurd (ground arith)

-- The same for a goal: the parts are variables there, which keeps the types of a chain small.
pub >>=-cases :
    {W A B C : Type 0} (m : Act W A) (f : A → Act W B) (w : W) {b : B} {w' : W}
    → (m >>= f) w ≡ (some b, w')
    → ((a : A) (v : W) → m w ≡ (some a, v) → f a v ≡ (some b, w') → C)
    → C
>>=-cases m f w h k = let (a, v, e, g) = >>=-eq-some m f w h in k a v e g
