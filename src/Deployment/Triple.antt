-- ===== src/Deployment/Triple.antt =====
-- What an action establishes, for a value and for an exception.
use haniel.Prelude.{◌≡◌, refl, Bool, true, false, if◌then◌else◌}
use haniel.Errors.{Exn}
use haniel.Errors.Result.{Result, ok, raise}
use haniel.Deployment.Machine.{Machine, Action, ◌>>=◌, next, handle, catching}

abbrev pub Post {ℓ} :
    {A : Type 0} → (A → Machine → Type ℓ) → (Exn → Machine → Type ℓ) → Result A → Machine → Type ℓ
Post Q R (ok a) m = Q a m
Post Q R (raise e) m = R e m

abbrev pub Triple {ℓ} :
    {A : Type 0}
    → (Machine → Type ℓ)
    → Action A
    → (A → Machine → Type ℓ)
    → (Exn → Machine → Type ℓ)
    → Type ℓ
Triple P c Q R = (m : Machine) → P m → Post Q R (c m).0 (c m).1

module _ {ℓ} {A B : Type 0} where
  Post-next :
      (Q : A → Machine → Type ℓ) (S : B → Machine → Type ℓ) (R : Exn → Machine → Type ℓ)
      (f : A → Action B) (r : Result A) (m : Machine)
      → ((a : A) → Triple (Q a) (f a) S R)
      → Post Q R r m
      → Post S R (next f r m).0 (next f r m).1
  Post-next Q S R f (ok a) m steps h = steps a m h
  Post-next Q S R f (raise e) m steps h = h

  pub triple_bind :
      (P : Machine → Type ℓ) (Q : A → Machine → Type ℓ) (S : B → Machine → Type ℓ)
      (R : Exn → Machine → Type ℓ) (c : Action A) (f : A → Action B)
      → Triple P c Q R
      → ((a : A) → Triple (Q a) (f a) S R)
      → Triple P (c >>= f) S R
  triple_bind P Q S R c f first rest m h = Post-next Q S R f (c m).0 (c m).1 rest (first m h)

module _ {ℓ} {A : Type 0} where
  Post-handle :
      (Q : A → Machine → Type ℓ) (R R' : Exn → Machine → Type ℓ) (h : Exn → Action A) (r : Result A)
      (m : Machine)
      → ((e : Exn) → Triple (R e) (h e) Q R')
      → Post Q R r m
      → Post Q R' (handle h r m).0 (handle h r m).1
  Post-handle Q R R' h (ok a) m steps p = p
  Post-handle Q R R' h (raise e) m steps p = steps e m p

  pub triple_catch :
      (P : Machine → Type ℓ) (Q : A → Machine → Type ℓ) (R R' : Exn → Machine → Type ℓ)
      (c : Action A) (h : Exn → Action A)
      → Triple P c Q R
      → ((e : Exn) → Triple (R e) (h e) Q R')
      → Triple P (catching c h) Q R'
  triple_catch P Q R R' c h first rest m p = Post-handle Q R R' h (c m).0 (c m).1 rest (first m p)

  pub Post-weaken :
      (Q Q' : A → Machine → Type ℓ) (R R' : Exn → Machine → Type ℓ) (r : Result A) (m : Machine)
      → ((a : A) (m : Machine) → Q a m → Q' a m)
      → ((e : Exn) (m : Machine) → R e m → R' e m)
      → Post Q R r m
      → Post Q' R' r m
  Post-weaken Q Q' R R' (ok a) m hq hr p = hq a m p
  Post-weaken Q Q' R R' (raise e) m hq hr p = hr e m p

  pub Post-both :
      (Q Q' : A → Machine → Type ℓ) (R R' : Exn → Machine → Type ℓ) (r : Result A) (m : Machine)
      → Post Q R r m
      → Post Q' R' r m
      → Post (λ a m. Q a m × Q' a m) (λ e m. R e m × R' e m) r m
  Post-both Q Q' R R' (ok a) m p p' = (p, p')
  Post-both Q Q' R R' (raise e) m p p' = (p, p')

  pub triple_if :
      (P : Machine → Type ℓ) (Q : A → Machine → Type ℓ) (R : Exn → Machine → Type ℓ) (b : Bool)
      (x y : Action A)
      → (b ≡ true → Triple P x Q R)
      → (b ≡ false → Triple P y Q R)
      → Triple P (if b then x else y) Q R
  triple_if P Q R true x y yes_case no_case = yes_case refl
  triple_if P Q R false x y yes_case no_case = no_case refl

  pub triple_weaken :
      (P P' : Machine → Type ℓ) (Q Q' : A → Machine → Type ℓ) (R R' : Exn → Machine → Type ℓ)
      (c : Action A)
      → ((m : Machine) → P' m → P m)
      → ((a : A) (m : Machine) → Q a m → Q' a m)
      → ((e : Exn) (m : Machine) → R e m → R' e m)
      → Triple P c Q R
      → Triple P' c Q' R'
  triple_weaken P P' Q Q' R R' c hp hq hr t m p =
      Post-weaken Q Q' R R' (c m).0 (c m).1 hq hr (t m (hp m p))
