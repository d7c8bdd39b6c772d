-- ===== src/Base/Results.antt =====
-- A result: what a function returns, or what it throws, in `do` notation.
use mathlib.Core.Path.{◌≡◌, refl, ap, ◌∙◌}
use mathlib.Core.Bool.{Bool, true, false}
use mathlib.Core.Option.{Option, none, some}

pub data Result {ℓ κ} (E : Type ℓ) (A : Type κ) : Type (ℓ ⊔ κ) where
  ok : A → Result E A
  err : E → Result E A

-- A `return` of the first error.
infixl 5 ◌>>=◌
abbrev pub ◌>>=◌ {ℓ κ λ'} :
    {E : Type ℓ} {A : Type κ} {B : Type λ'} (m : Result E A) (next : A → Result E B) → Result E B
m >>= next = elim m [ err thrown ↦ err thrown | ok returned ↦ next returned ]

infixl 5 ◌>>◌
abbrev pub ◌>>◌ {ℓ κ} :
    {E : Type ℓ} {B : Type κ} (checked : Result E (Unit {0})) (rest : Result E B) → Result E B
checked >> rest = elim checked [ err thrown ↦ err thrown | ok done ↦ rest ]

-- `if (!b) throw e;`
abbrev pub guard {ℓ} : {E : Type ℓ} (b : Bool) (e : E) → Result E (Unit {0})
guard b e = elim b [ false ↦ err e | true ↦ ok tt ]

abbrev pub some_or {ℓ κ} : {E : Type ℓ} {A : Type κ} → Option A → E → Result E A
some_or none e = err e
some_or (some a) e = ok a

pub some_or-eq-ok {ℓ κ} :
    {E : Type ℓ} {A : Type κ} (o : Option A) (e : E) {a : A} → some_or o e ≡ ok a → o ≡ some a
some_or-eq-ok none e h = cc
some_or-eq-ok (some b) e h = cc

-- The same, for a proof that goes on from the parts.
pub by_bind {ℓ κ λ' μ} :
    {E : Type ℓ} {A : Type κ} {B : Type λ'} {P : Type μ} (m : Result E A) (f : A → Result E B)
    {b : B}
    → (m >>= f) ≡ ok b
    → ((a : A) → m ≡ ok a → f a ≡ ok b → P)
    → P
by_bind (ok a) f h next = next a refl h
by_bind (err e) f h next = cc

pub by_guard {ℓ κ μ} :
    {E : Type ℓ} {B : Type κ} {P : Type μ} (b : Bool) (e : E) (k : Result E B) {c : B}
    → (guard b e >> k) ≡ ok c
    → (b ≡ true → k ≡ ok c → P)
    → P
by_guard true e k h next = next refl h
by_guard false e k h next = cc

pub guard-eq-ok {ℓ} : {E : Type ℓ} (b : Bool) (e : E) {a : Unit {0}} → guard b e ≡ ok a → b ≡ true
guard-eq-ok true e h = refl
guard-eq-ok false e h = cc

pub ok-injective {ℓ κ} :
    {E : Type ℓ} {A : Type κ} {a b : A} → ◌≡◌ {A = Result E A} (ok a) (ok b) → a ≡ b
ok-injective h = cc

pub pass {ℓ κ} :
    {E : Type ℓ} {B : Type κ} (b : Bool) (e : E) (k : Result E B) {c : B}
    → b ≡ true
    → k ≡ ok c
    → (guard b e >> k) ≡ ok c
pass true e k h next = next
pass false e k h next = cc

pub go_on {ℓ κ λ'} :
    {E : Type ℓ} {A : Type κ} {B : Type λ'} (m : Result E A) (f : A → Result E B) (a : A) {c : B}
    → m ≡ ok a
    → f a ≡ ok c
    → (m >>= f) ≡ ok c
go_on (ok x) f a h next = ap f (ok-injective h) ∙ next
go_on (err e) f a h next = cc

pub some-injective {ℓ} : {A : Type ℓ} {a b : A} → ◌≡◌ {A = Option A} (some a) (some b) → a ≡ b
some-injective h = cc
