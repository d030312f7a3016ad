-- ===== src/Base/Results.antt =====
-- Raised errors as values, and stores keyed by identifiers.
use Prim.Native.Nat.{ℕ}
use mathlib.Core.Path.{◌≡◌, refl}
use mathlib.Core.Option.{Option}
use mlsc.Base.Tests.{if◌then◌else◌, ◌==◌, ==_refl}

-- What a call returns, or the exception that it raises.
pub data Result {ℓ κ} (E : Type ℓ) (A : Type κ) : Type (ℓ ⊔ κ) where
  ok : A → Result E A
  err : E → Result E A

-- Keys under one prefix, or the rows of a table by their identifier.
abbrev pub Store {ℓ} : Type ℓ → Type ℓ
Store V = ℕ → Option V

abbrev pub update {ℓ} : {V : Type ℓ} → Store V → ℕ → Option V → Store V
update s k v j = if j == k then v else s j

pub update-same {ℓ} : {V : Type ℓ} (s : Store V) (k : ℕ) (v : Option V) → update s k v k ≡ v
update-same s k v = rw (==_refl k) refl

-- A statement sequence: the first exception ends it.
infixl 5 ◌>>◌ ◌>>=◌
abbrev pub ◌>>=◌ {κ μ ℓ} :
    {E : Type ℓ} {A : Type κ} {B : Type μ} → Result E A → (A → Result E B) → Result E B
err raised >>= next = err raised
ok value >>= next = next value

abbrev pub ◌>>◌ {κ μ ℓ} :
    {E : Type ℓ} {A : Type κ} {B : Type μ} → Result E A → Result E B → Result E B
first >> second = first >>= λ value. second

pub >>=-eq-ok {κ μ ℓ} :
    {E : Type ℓ} {A : Type κ} {B : Type μ} {last : B} (first : Result E A) (next : A → Result E B)
    → first >>= next ≡ ok last
    → (value : A) × (first ≡ ok value) × (next value ≡ ok last)
>>=-eq-ok (err raised) next returned = cc
>>=-eq-ok (ok value) next returned = (value, refl, returned)
