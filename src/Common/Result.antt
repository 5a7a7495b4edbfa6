-- ===== src/Common/Result.antt =====
-- Rust's `Result`, with a panic (a failed `assert!`, `expect` or `unwrap`, a call of `panic!`, an
-- index out of bounds) as a third outcome, which no caller handles.
use mathlib.Core.Path.{◌≡◌, refl}
use mathlib.Core.Option.{Option, none, some}
use mathlib.Core.List.{List, [], ◌∷◌}

pub data Result {ℓ κ} (E : Type ℓ) (A : Type κ) : Type (ℓ ⊔ κ) where
  ok : A → Result E A
  err : E → Result E A
  panic : Result E A

infixl 5 ◌>>=◌ ◌>>◌
-- The `?` operator.
abbrev pub ◌>>=◌ {ℓ κ μ} :
    {E : Type ℓ} {A : Type κ} {B : Type μ} → Result E A → (A → Result E B) → Result E B
ok a >>= f = f a
err e >>= f = err e
panic >>= f = panic

abbrev pub ◌>>◌ {ℓ κ μ} :
    {E : Type ℓ} {A : Type κ} {B : Type μ} → Result E A → Result E B → Result E B
m >> k = m >>= λ _. k

-- `Result::map`
abbrev pub map {ℓ κ μ} : {E : Type ℓ} {A : Type κ} {B : Type μ} → (A → B) → Result E A → Result E B
map f (ok a) = ok (f a)
map f (err e) = err e
map f panic = panic

-- `Result::map_err`
abbrev pub map_err {ℓ κ μ} :
    {E : Type ℓ} {F : Type κ} {A : Type μ} → (E → F) → Result E A → Result F A
map_err f (ok a) = ok a
map_err f (err e) = err (f e)
map_err f panic = panic

-- `Result::unwrap_or_else`; a panic goes through.
abbrev pub unwrap_or_else {ℓ κ μ} :
    {E : Type ℓ} {F : Type μ} {A : Type κ} → (E → A) → Result E A → Result F A
unwrap_or_else f (ok a) = ok a
unwrap_or_else f (err e) = ok (f e)
unwrap_or_else f panic = panic

-- `Option::ok_or`
abbrev pub ok_or {ℓ κ} : {E : Type ℓ} {A : Type κ} → E → Option A → Result E A
ok_or e none = err e
ok_or e (some a) = ok a

-- `iter().map(f).collect::<Result<Vec<_>, _>>()`: the first failure ends it.
unfoldable pub traverse {ℓ κ μ} :
    {E : Type ℓ} {A : Type κ} {B : Type μ} → (A → Result E B) → List A → Result E (List B)
traverse f [] = ok []
traverse f (x ∷ xs) = do y ← f x; ys ← traverse f xs; ok (y ∷ ys)

module _ {ℓ κ μ} {E : Type ℓ} {A : Type κ} {B : Type μ} where
  -- What a bind returns, its second part returned on the value of the first.
  pub >>=-eq-ok :
      (r : Result E A) (next : A → Result E B) {b : B}
      → (r >>= next) ≡ ok b
      → (x : A) × (r ≡ ok x) × (next x ≡ ok b)
  >>=-eq-ok panic next e = cc
  >>=-eq-ok (err c) next e = cc
  >>=-eq-ok (ok x) next e = (x, refl, e)

-- The computation returns a value: it neither fails nor panics.
abbrev pub Succeeds {ℓ κ} : {E : Type ℓ} {A : Type κ} → Result E A → Type 0
Succeeds (ok a) = Unit
Succeeds (err e) = ⊥
Succeeds panic = ⊥

module _ {ℓ κ μ} {E : Type ℓ} {A : Type κ} {B : Type μ} where
  pub Succeeds-bind :
      (m : Result E A) (f : A → Result E B)
      → Succeeds m
      → ((a : A) → Succeeds (f a))
      → Succeeds (m >>= f)
  Succeeds-bind (ok a) f h k = k a
  Succeeds-bind (err e) f h k = h
  Succeeds-bind panic f h k = h

-- The computation returns a value, and it has the property.
abbrev pub Returns {ℓ κ} : {E : Type ℓ} {A : Type κ} → (A → Type 0) → Result E A → Type 0
Returns P (ok a) = P a
Returns P (err e) = ⊥
Returns P panic = ⊥

-- The computation does not panic, and a value that it returns has the property.
abbrev pub Ends {ℓ κ} : {E : Type ℓ} {A : Type κ} → (A → Type 0) → Result E A → Type 0
Ends P (ok a) = P a
Ends P (err e) = Unit
Ends P panic = ⊥

module _ {ℓ κ μ} {E : Type ℓ} {A : Type κ} {B : Type μ} where
  pub Ends-bind :
      (P : A → Type 0) (Q : B → Type 0) (m : Result E A) (f : A → Result E B)
      → Ends P m
      → ((a : A) → P a → Ends Q (f a))
      → Ends Q (m >>= f)
  Ends-bind P Q (ok a) f h k = k a h
  Ends-bind P Q (err e) f h k = tt
  Ends-bind P Q panic f h k = h

module _ {ℓ κ} {E : Type ℓ} {A : Type κ} where
  pub Ends-weaken :
      (P Q : A → Type 0) (m : Result E A) → Ends P m → ((a : A) → P a → Q a) → Ends Q m
  Ends-weaken P Q (ok a) h k = k a h
  Ends-weaken P Q (err e) h k = tt
  Ends-weaken P Q panic h k = h

module _ {ℓ κ μ} {E : Type ℓ} {F : Type κ} {A : Type μ} where
  pub Ends-map_err : (P : A → Type 0) (g : E → F) (m : Result E A) → Ends P m → Ends P (map_err g m)
  Ends-map_err P g (ok a) h = h
  Ends-map_err P g (err e) h = tt
  Ends-map_err P g panic h = h

-- A value that the computation returns has the property; an error or a panic has none.
abbrev pub OnOk {ℓ κ} : {E : Type ℓ} {A : Type κ} → (A → Type 0) → Result E A → Type 0
OnOk P (ok a) = P a
OnOk P (err e) = Unit
OnOk P panic = Unit

module _ {ℓ κ} {E : Type ℓ} {A : Type κ} where
  pub OnOk-elim : (P : A → Type 0) (m : Result E A) (a : A) → OnOk P m → m ≡ ok a → P a
  OnOk-elim P (ok b) a h e = let same : b ≡ a = cc in rw (← same) h
  OnOk-elim P (err b) a h e = cc
  OnOk-elim P panic a h e = cc

module _ {ℓ κ μ} {E : Type ℓ} {A : Type κ} {B : Type μ} where
  pub OnOk-bind :
      (Q : B → Type 0) (m : Result E A) (f : A → Result E B)
      → ((a : A) → OnOk Q (f a))
      → OnOk Q (m >>= f)
  OnOk-bind Q (ok a) f k = k a
  OnOk-bind Q (err e) f k = tt
  OnOk-bind Q panic f k = tt

  -- The same, with what is known of the first value.
  pub OnOk-bind_with :
      (P : A → Type 0) (Q : B → Type 0) (m : Result E A) (f : A → Result E B)
      → OnOk P m
      → ((a : A) → P a → OnOk Q (f a))
      → OnOk Q (m >>= f)
  OnOk-bind_with P Q (ok a) f h k = k a h
  OnOk-bind_with P Q (err e) f h k = tt
  OnOk-bind_with P Q panic f h k = tt

module _ {ℓ κ} {E : Type ℓ} {A : Type κ} where
  pub OnOk-of_Ends : (P : A → Type 0) (m : Result E A) → Ends P m → OnOk P m
  OnOk-of_Ends P (ok a) h = h
  OnOk-of_Ends P (err e) h = tt
  OnOk-of_Ends P panic h = tt

module _ {ℓ κ} {E : Type ℓ} {A : Type κ} where
  pub OnOk-weaken :
      (P Q : A → Type 0) (m : Result E A) → OnOk P m → ((a : A) → P a → Q a) → OnOk Q m
  OnOk-weaken P Q (ok a) h k = k a h
  OnOk-weaken P Q (err e) h k = tt
  OnOk-weaken P Q panic h k = tt

module _ {E A : Type 0} where
  -- A value that the computation returns, with the equation of it.
  pub OnOk-returns : (m : Result E A) → OnOk (λ a. m ≡ ok a) m
  OnOk-returns (ok a) = refl
  OnOk-returns (err e) = tt
  OnOk-returns panic = tt

module _ {E A B : Type 0} where
  -- Two continuations that agree on the value that the first part returns.
  pub >>=-agree :
      (m : Result E A) (f g : A → Result E B)
      → ((a : A) → m ≡ ok a → f a ≡ g a)
      → (m >>= f) ≡ (m >>= g)
  >>=-agree (ok a) f g h = h a refl
  >>=-agree (err e) f g h = refl
  >>=-agree panic f g h = refl

module _ {ℓ κ} {E : Type ℓ} {A : Type κ} where
  pub ok_or-eq-ok : (e : E) (o : Option A) {a : A} → ok_or e o ≡ ok a → o ≡ some a
  ok_or-eq-ok e none h = cc
  ok_or-eq-ok e (some a) h = cc

module _ {ℓ κ μ} {E : Type ℓ} {F : Type κ} {A : Type μ} where
  pub map_err-eq-ok : (f : E → F) (r : Result E A) {a : A} → map_err f r ≡ ok a → r ≡ ok a
  map_err-eq-ok f (ok b) h = cc
  map_err-eq-ok f (err e) h = cc
  map_err-eq-ok f panic h = cc
