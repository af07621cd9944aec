-- ===== src/Attempts/Table.antt =====
-- The SQL statements on one table, as functions on its rows: `SELECT … WHERE … LIMIT 1`, `UPDATE …
-- WHERE …` and `DELETE FROM … WHERE …`; `count` of the prelude is a statement's `rowcount`.
use mathlib.Core.Option.{some-injective}
use mathlib.Core.Path.{subst}
use haniel.Prelude.{
  ℕ, ◌+◌, ◌≤◌, ◌≡◌, refl, sym, ap, ◌∙◌, Bool, true, false, ◌&&◌, Option, none, some, List, [], ◌∷◌,
  ◌++◌, arith, count, All, if◌then◌else◌, Bool-cases, inl, inr,
}

module _ {ℓ} {A : Type ℓ} where
  unfoldable pub find : (A → Bool) → List A → Option A
  find p [] = none
  find p (x ∷ xs) = if p x then some x else find p xs

  unfoldable pub update : (A → Bool) → (A → A) → List A → List A
  update p f [] = []
  update p f (x ∷ xs) = (if p x then f x else x) ∷ update p f xs

  unfoldable pub delete : (A → Bool) → List A → List A
  delete p [] = []
  delete p (x ∷ xs) = let rest = delete p xs in if p x then rest else x ∷ rest

  unfoldable pub select : (A → Bool) → List A → List A
  select p [] = []
  select p (x ∷ xs) = let rest = select p xs in if p x then x ∷ rest else rest

-- One for a row that is counted.
abbrev pub bit : Bool → ℕ
bit b = if b then 1 else 0

abbrev pub both {ℓ} : {A : Type ℓ} → (A → Bool) → (A → Bool) → A → Bool
both p q x = p x && q x

module _ {ℓ} {A : Type ℓ} where
  pub find-holds : (p : A → Bool) (xs : List A) (s : A) → find p xs ≡ some s → p s ≡ true
  unfolding find
  find-holds p [] s e = ground arith
  find-holds p (x ∷ xs) s e = ground (arith, find-holds p xs s)

  pub find-counted :
      (p q : A → Bool) (xs : List A) (s : A) → find p xs ≡ some s → q s ≡ true → 1 ≤ count q xs
  unfolding find
  find-counted p q [] s e h = ground arith
  find-counted p q (x ∷ xs) s e h = ground (arith, find-counted p q xs s)

  pub find-none : (p : A → Bool) (xs : List A) → find p xs ≡ none → count p xs ≡ 0
  unfolding find
  find-none p [] e = refl
  find-none p (x ∷ xs) e = ground (arith, find-none p xs)

  pub find-both :
      (p q : A → Bool) (xs : List A) (s : A)
      → find p xs ≡ some s
      → q s ≡ true
      → find (both p q) xs ≡ some s
  unfolding find
  find-both p q [] s e h = e
  find-both p q (x ∷ xs) s e h = ground (arith, find-both p q xs s)

  pub count-both : (p q : A → Bool) (xs : List A) → count (both p q) xs ≤ count p xs
  count-both p q [] = omega arith
  count-both p q (x ∷ xs) = ground (arith, count-both p q xs)

  -- A key that one row has: the row found is the one that a stricter test counts.
  pub find-only :
      (p q : A → Bool) (xs : List A) (s : A)
      → count p xs ≤ 1
      → find p xs ≡ some s
      → 1 ≤ count (both p q) xs
      → q s ≡ true
  unfolding find
  find-only p q [] s one e h = ground arith
  find-only p q (x ∷ xs) s one e h = ground (arith, find-only p q xs s, count-both p q xs)

  pub find-stricter :
      (p q : A → Bool) (xs : List A) (s : A)
      → count p xs ≤ 1
      → find (both p q) xs ≡ some s
      → find p xs ≡ some s
  unfolding find
  find-stricter p q [] s one e = e
  find-stricter p q (x ∷ xs) s one e =
      ground
        (arith, find-stricter p q xs s, find-counted (both p q) p xs s, find-holds (both p q) xs s)

  pub find-deleted : (p : A → Bool) (xs : List A) → find p (delete p xs) ≡ none
  unfolding find delete
  find-deleted p [] = refl
  find-deleted p (x ∷ xs) = ground (arith, find-deleted p xs)

  pub update-none : (p : A → Bool) (f : A → A) (xs : List A) → count p xs ≡ 0 → update p f xs ≡ xs
  unfolding update
  update-none p f [] e = refl
  update-none p f (x ∷ xs) e = ground (arith, update-none p f xs)

  -- Where a key has one row, a condition that the row fulfils makes no difference.
  pub update-only :
      (p q : A → Bool) (f : A → A) (xs : List A) (s : A)
      → count p xs ≤ 1
      → find p xs ≡ some s
      → q s ≡ true
      → update (both p (λ x. true)) f xs ≡ update (both p q) f xs
  unfolding find update
  update-only p q f [] s one found h = refl
  update-only p q f (x ∷ xs) s one found h = elim (Bool-cases (p x)) [
    | inl t ↦
        let rest : count p xs ≡ 0 = ground (arith, one, t) in
        let here : q x ≡ true = ground (arith, found, t, h) in
        rw t (
          rw here (
            ap (◌∷◌ (f x)) (
              update-none (both p (λ x. true)) f xs
                (omega (arith, rest, count-both p (λ x. true) xs))
              ∙ sym (update-none (both p q) f xs (omega (arith, rest, count-both p q xs))))))
    | inr t ↦
        rw t (
          ap (◌∷◌ x) (update-only p q f xs s (ground (arith, one, t)) (ground (arith, found, t)) h))
  ]

  -- An `UPDATE` by a key changes one row.
  pub count-update :
      (p q : A → Bool) (f : A → A) (xs : List A) (s : A)
      → count p xs ≤ 1
      → find p xs ≡ some s
      → count q (update p f xs) + bit (q s) ≡ count q xs + bit (q (f s))
  unfolding find update
  count-update p q f [] s one e = ground arith
  count-update p q f (x ∷ xs) s one e = ground (arith, count-update p q f xs s, update-none p f xs)

  -- An `UPDATE` of columns that a test does not read.
  pub count-untouched :
      (p q : A → Bool) (f : A → A) (xs : List A)
      → ((x : A) → q (f x) ≡ q x)
      → count q (update p f xs) ≡ count q xs
  unfolding update
  count-untouched p q f [] h = refl
  count-untouched p q f (x ∷ xs) h = ground (arith, count-untouched p q f xs h, h x)

  -- Updates that end what a test counts.
  pub count-cleared :
      (p q : A → Bool) (f : A → A) (xs : List A)
      → ((x : A) → q (f x) ≡ false)
      → count q (update p f xs) ≤ count q xs
  unfolding update
  count-cleared p q f [] h = omega arith
  count-cleared p q f (x ∷ xs) h = ground (arith, count-cleared p q f xs h, h x)

  pub count-emptied :
      (q : A → Bool) (f : A → A) (xs : List A)
      → ((x : A) → q (f x) ≡ false)
      → count q (update q f xs) ≡ 0
  unfolding update
  count-emptied q f [] h = refl
  count-emptied q f (x ∷ xs) h = ground (arith, count-emptied q f xs h, h x)

  pub count-apart :
      (p q : A → Bool) (f : A → A) (xs : List A)
      → ((x : A) → q (f x) ≡ false)
      → ((x : A) → p x ≡ true → q x ≡ false)
      → count q (update p f xs) ≡ count q xs
  unfolding update
  count-apart p q f [] h k = refl
  count-apart p q f (x ∷ xs) h k = ground (arith, count-apart p q f xs h k, h x, k x)

  unfoldable pub updated : (A → Bool) → (A → A) → Option A → Option A
  updated p f none = none
  updated p f (some x) = some (if p x then f x else x)

  pub find-update :
      (p q : A → Bool) (f : A → A) (xs : List A)
      → ((x : A) → q (f x) ≡ q x)
      → find q (update p f xs) ≡ updated p f (find q xs)
  unfolding find update updated
  find-update p q f [] h = refl
  find-update p q f (x ∷ xs) h = ground (arith, find-update p q f xs h, h x)

  pub find-append :
      (p : A → Bool) (xs : List A) (y : A)
      → count p xs ≡ 0
      → p y ≡ true
      → find p (xs ++ y ∷ []) ≡ some y
  unfolding find
  find-append p [] y e h = ground arith
  find-append p (x ∷ xs) y e h = ground (arith, find-append p xs y)

  pub find-absent :
      (p : A → Bool) (xs : List A) (y : A)
      → find p xs ≡ none
      → p y ≡ false
      → find p (xs ++ y ∷ []) ≡ none
  unfolding find
  find-absent p [] y e h = ground arith
  find-absent p (x ∷ xs) y e h = ground (arith, find-absent p xs y)

  pub find-before :
      (p : A → Bool) (xs : List A) (y s : A) → find p xs ≡ some s → find p (xs ++ y ∷ []) ≡ some s
  unfolding find
  find-before p [] y s e = ground arith
  find-before p (x ∷ xs) y s e = ground (arith, find-before p xs y s)

  pub find-All {κ} :
      (P : A → Type κ) (p : A → Bool) (xs : List A) (s : A) → All P xs → find p xs ≡ some s → P s
  unfolding find
  find-All P p [] s h e = ground arith
  find-All P p (x ∷ xs) s h e = elim (Bool-cases (p x)) [
    | inl t ↦
        subst P (some-injective x s (sym (ap (λ b. if b then some x else find p xs) t) ∙ e)) h.0
    | inr t ↦ find-All P p xs s h.1 (sym (ap (λ b. if b then some x else find p xs) t) ∙ e)
  ]

  -- A property of every row is kept by an `UPDATE` that keeps it on the rows it changes.
  pub All-update {κ} :
      (P : A → Type κ) (p : A → Bool) (f : A → A) (xs : List A)
      → ((x : A) → P x → p x ≡ true → P (f x))
      → All P xs
      → All P (update p f xs)
  unfolding update
  All-update P p f [] h hx = tt
  All-update P p f (x ∷ xs) h hx = (
    elim (Bool-cases (p x)) [ inl t ↦ rw t (h x hx.0 t) | inr t ↦ rw t hx.0 ],
    All-update P p f xs h hx.1,
  )
