-- ===== src/Base/Replies.antt =====
-- What a request handler answers: a value, or an `HTTPException` with its status code. An
-- exception that the handler does not catch is answered by the framework with 500.
use Prim.Native.Nat.{ℕ}
use mathlib.Core.Bool.{Bool, true, false}
use mathlib.Core.Path.{◌≡◌, refl}
use mathlib.Core.Option.{Option, none, some}
use mathlib.Core.List.{List, [], ◌∷◌}

pub data Reply {ℓ} (A : Type ℓ) : Type ℓ where
  ok : A → Reply A
  http : ℕ → Reply A

infixl 5 ◌>>=◌ ◌>>◌
abbrev pub ◌>>=◌ {u v} : {S : Type u} {T : Type v} → Reply S → (S → Reply T) → Reply T
http code >>= f = http code
ok value >>= f = f value

-- A step without a value.
abbrev pub ◌>>◌ {v} : {T : Type v} → Reply (Unit {0}) → Reply T → Reply T
first >> rest = first >>= λ _. rest

-- `if bad: raise HTTPException(status_code=code)`
abbrev pub reject : Bool → ℕ → Reply (Unit {0})
reject true code = http code
reject false code = ok tt

-- A sequence that answers with a value has answered so at its first step, and then after it.
pub >>=-eq-ok {u v} :
    {S : Type u} {T : Type v} (first : Reply S) (rest : S → Reply T) {t : T}
    → (first >>= rest) ≡ ok t
    → (s : S) × (first ≡ ok s) × (rest s ≡ ok t)
>>=-eq-ok (http code) rest h = cc
>>=-eq-ok (ok s) rest h = (s, refl, h)

pub reject-eq-ok {ℓ} :
    {B : Type ℓ} (bad : Bool) (code : ℕ) (k : Reply B) {b : B}
    → (reject bad code >> k) ≡ ok b
    → (bad ≡ false) × (k ≡ ok b)
reject-eq-ok true code k h = cc
reject-eq-ok false code k h = (refl, h)

pub ok-injective {ℓ} : {A : Type ℓ} {a b : A} → ok a ≡ ok b → a ≡ b
ok-injective h = cc

-- A lookup that answers 404 for a row that is not there.
abbrev pub or_404 {ℓ} : {A : Type ℓ} → Option A → Reply A
or_404 none = http 404
or_404 (some a) = ok a

pub or_404-eq-ok {ℓ} : {A : Type ℓ} (o : Option A) {a : A} → or_404 o ≡ ok a → o ≡ some a
or_404-eq-ok none h = cc
or_404-eq-ok (some a) h = cc

pub reject-ok : (bad : Bool) (code : ℕ) {a : Unit {0}} → reject bad code ≡ ok a → bad ≡ false
reject-ok true code h = cc
reject-ok false code h = refl

-- `result.scalar_one_or_none()`; several rows are `MultipleResultsFound`.
abbrev pub one_or_none {ℓ} : {A : Type ℓ} → List A → Reply (Option A)
one_or_none [] = ok none
one_or_none (a ∷ []) = ok (some a)
one_or_none (a ∷ b ∷ rest) = http 500
