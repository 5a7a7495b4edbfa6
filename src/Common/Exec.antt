-- ===== src/Common/Exec.antt =====
-- Computations that read and change a state and may fail. What was written before a failure stays
-- written, so the state comes back beside it.
use mathlib.Core.Path.{◌≡◌, refl, ap, ◌∙◌}
use mathlib.Core.List.{List, [], ◌∷◌}
use lldap.Common.Result.{Result, ok, err, panic, map_err, map_err-eq-ok}

abbrev pub Exec : Type 0 → Type 0 → Type 0 → Type 0
Exec S E A = S → Result E A × S

module _ {S E A : Type 0} where
  abbrev pub pure : A → Exec S E A
  pure a s = (ok a, s)

  abbrev pub raise : E → Exec S E A
  raise e s = (err e, s)

  abbrev pub crash : Exec S E A
  crash s = (panic, s)

  abbrev pub lift : Result E A → Exec S E A
  lift r s = (r, s)

  -- A query of the state.
  abbrev pub ask : (S → Result E A) → Exec S E A
  ask q s = (q s, s)

module _ {S E A B : Type 0} where
  abbrev pub continue : Result E A → (A → Exec S E B) → Exec S E B
  continue (ok a) f s = f a s
  continue (err e) f s = (err e, s)
  continue panic f s = (panic, s)

  infixl 5 ◌>>=◌ ◌>>◌
  abbrev pub ◌>>=◌ : Exec S E A → (A → Exec S E B) → Exec S E B
  ◌>>=◌ m f s = continue (m s).0 f (m s).1

  abbrev pub ◌>>◌ : Exec S E A → Exec S E B → Exec S E B
  m >> n = m >>= λ _. n

module _ {S E F A : Type 0} where
  abbrev pub on_error : (E → F) → Exec S E A → Exec S F A
  on_error f m s = (map_err f (m s).0, (m s).1)

-- `for x in xs { f(x)? }`
unfoldable pub for_each : {S E A : Type 0} → (A → Exec S E Unit) → List A → Exec S E Unit
for_each f [] = pure tt
for_each f (x ∷ xs) = do f x; for_each f xs

module _ {S E A B : Type 0} where
  -- What is left after the first part has returned.
  pub continue-eq-ok :
      (r : Result E A) (f : A → Exec S E B) (s : S) {b : B} {t : S}
      → continue r f s ≡ (ok b, t)
      → (a : A) × (r ≡ ok a) × (f a s ≡ (ok b, t))
  continue-eq-ok (ok a) f s h = (a, refl, h)
  continue-eq-ok (err e) f s h = cc
  continue-eq-ok panic f s h = cc

  -- A state that neither part changes.
  pub continue-keeps :
      (r : Result E A) (f : A → Exec S E B) (s t : S)
      → t ≡ s
      → ((a : A) → r ≡ ok a → (f a s).1 ≡ s)
      → (continue r f t).1 ≡ s
  continue-keeps (ok a) f s t e k = rw e (k a refl)
  continue-keeps (err c) f s t e k = e
  continue-keeps panic f s t e k = e

module _ {S E A B : Type 0} where
  -- The two parts of a sequence that returned, with the state between them.
  pub >>=-returned :
      (m : Exec S E A) (f : A → Exec S E B) (s t : S) (b : B)
      → (m >>= f) s ≡ (ok b, t)
      → (a : A) × (mid : S) × (m s ≡ (ok a, mid)) × (f a mid ≡ (ok b, t))
  >>=-returned m f s t b h =
      let (a, e, k) = continue-eq-ok (m s).0 f (m s).1 h in
      (a, (m s).1, ap (λ r. (r, (m s).1)) e, k)

-- A property of the state that the computation does not break, whatever it returns.
abbrev pub Keeps : {S E A : Type 0} → (S → Type 0) → Exec S E A → Type 0
Keeps {S} P m = (s : S) → P s → P (m s).1

module _ {S E A B : Type 0} (P : S → Type 0) where
  Keeps-continue :
      (r : Result E A) (f : A → Exec S E B) → ((a : A) → Keeps P (f a)) → Keeps P (continue r f)
  Keeps-continue (ok a) f k s p = k a s p
  Keeps-continue (err e) f k s p = p
  Keeps-continue panic f k s p = p

  pub Keeps-bind :
      (m : Exec S E A) (f : A → Exec S E B)
      → Keeps P m
      → ((a : A) → Keeps P (f a))
      → Keeps P (m >>= f)
  Keeps-bind m f h k s p = Keeps-continue (m s).0 f k (m s).1 (h s p)

  -- A first part that reads only.
  pub Keeps-lift :
      (r : S → Result E A) (f : A → Exec S E B) → ((a : A) → Keeps P (f a)) → Keeps P (ask r >>= f)
  Keeps-lift r f k s p = Keeps-continue (r s) f k s p

module _ {S E A B : Type 0} where
  -- A property of the state at the end: it holds where the first part stops, or after the rest.
  pub continue-state :
      (P : S → Type 0) (r : Result E A) (f : A → Exec S E B) (s : S)
      → P s
      → ((a : A) → r ≡ ok a → P (f a s).1)
      → P (continue r f s).1
  continue-state P (ok a) f s p k = k a refl
  continue-state P (err e) f s p k = p
  continue-state P panic f s p k = p

module _ {S E F A : Type 0} where
  pub on_error-returned :
      (f : E → F) (m : Exec S E A) (s t : S) (a : A) → on_error f m s ≡ (ok a, t) → m s ≡ (ok a, t)
  on_error-returned f m s t a h =
      let e : (m s).0 ≡ ok a = map_err-eq-ok f (m s).0 (ap (λ p. p.0) h) in
      let k : (m s).1 ≡ t = ap (λ p. p.1) h in ap (λ r. (r, (m s).1)) e ∙ ap (λ x. (ok a, x)) k
