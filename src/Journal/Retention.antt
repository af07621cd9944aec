-- ===== src/Journal/Retention.antt =====
-- The journals lose nothing: attempts and their histories only grow, and a call on one repository
-- leaves the journals of other repositories alone.
use mathlib.Core.Path.{subst}
use mathlib.Core.List.{append-nil, append_assoc, map-append}
use haniel.Prelude.{
  ◌∙◌, sym, ap, String, ◌≡◌, ◌≢◌, refl, Option, none, some, List, [], ◌∷◌, ◌++◌, map, ◌==◌, eq_iff,
  Bool-cases, All, inl, inr,
}
use haniel.Journal.Record.{
  State, Entry, Attempt, Journal, Redaction, redact_attempt, redact_entry, redact_journal,
}
use haniel.Journal.Path.{
  Store, safe_name, receipt_name, read, write, write_receipt, read-write_receipt,
}
use haniel.Prelude.Json.{Json}
use haniel.Errors.Result.{ok}
use haniel.Journal.Begin.{Intent, inherit, new_attempt, archived, renew, begin_with, begin}
use haniel.Journal.Sound.{read-write}
use haniel.Journal.Steps.{Change, Steps, still, writes, opens, renews, logs, edits}
use haniel.Journal.Invariant.{Call, updates, acknowledges, file_of, step-Steps, perform, run}

abbrev states : Attempt → List State
states a = map (λ (e : Entry). e.state) a.history

-- The states that each attempt went through, the oldest attempt first.
abbrev pub trail : Journal → List (List State)
trail j = map states (j.previous_attempts ++ j.current ∷ [])

-- Each list of the first is the beginning of the list at its place in the second.
abbrev pub Includes : List (List State) → List (List State) → Type 0
Includes [] ys = Unit
Includes (x ∷ xs) [] = ⊥
Includes (x ∷ xs) (y ∷ ys) = ((more : List State) × (y ≡ x ++ more)) × Includes xs ys

abbrev pub Retains : Option Journal → Option Journal → Type 0
Retains none k = Unit
Retains (some j) none = ⊥
Retains (some j) (some k) = Includes (trail j) (trail k)

Includes-refl : (xs : List (List State)) → Includes xs xs
Includes-refl [] = tt
Includes-refl (x ∷ xs) = (([], sym (append-nil x)), Includes-refl xs)

Includes-trans : (xs ys zs : List (List State)) → Includes xs ys → Includes ys zs → Includes xs zs
Includes-trans [] ys zs h k = tt
Includes-trans (x ∷ xs) [] zs h k = absurd h
Includes-trans (x ∷ xs) (y ∷ ys) [] h k = absurd k
Includes-trans (x ∷ xs) (y ∷ ys) (z ∷ zs) ((m, p), h) ((n, q), k) =
    ((m ++ n, q ∙ ap (λ l. l ++ n) p ∙ append_assoc x m n), Includes-trans xs ys zs h k)

Retains-refl : (o : Option Journal) → Retains o o
Retains-refl none = tt
Retains-refl (some j) = Includes-refl (trail j)

Retains-trans : (o p q : Option Journal) → Retains o p → Retains p q → Retains o q
Retains-trans none p q h k = tt
Retains-trans (some j) none q h k = absurd h
Retains-trans (some j) (some k) none h i = absurd i
Retains-trans (some j) (some k) (some l) h i = Includes-trans (trail j) (trail k) (trail l) h i

-- The same earlier attempts, then a last one that is extended, then perhaps more.
Includes-last :
    (l : List Attempt) (a b : Attempt) (more : List State) (rest : List Attempt)
    → states b ≡ states a ++ more
    → Includes (map states (l ++ a ∷ [])) (map states (l ++ b ∷ rest))
Includes-last [] a b more rest p = ((more, p), tt)
Includes-last (x ∷ l) a b more rest p =
    (([], sym (append-nil (states x))), Includes-last l a b more rest p)

states-more :
    (a b : Attempt) (more : List Entry)
    → b.history ≡ a.history ++ more
    → states b ≡ states a ++ map (λ (e : Entry). e.state) more
states-more a b more p = rw p (map-append (λ (e : Entry). e.state) a.history more)

Change-Retains : {o : Option Journal} {j' : Journal} → Change o j' → Retains o (some j')
Change-Retains (opens p l) = tt
Change-Retains (renews {j = j} {j' = j'} a more p h t k l) =
    rw (p, append_assoc)
      (Includes-last j.previous_attempts j.current a _ (j'.current ∷ [])
        (states-more j.current a more h))
Change-Retains (logs {j = j} {j' = j'} e p h q) = rw p (
    Includes-last j.previous_attempts j.current j'.current _ []
      (states-more j.current j'.current (e ∷ []) h))
Change-Retains (edits {j = j} {j' = j'} p h q) = rw p (
    Includes-last j.previous_attempts j.current j'.current [] []
      (ap (map (λ (e : Entry). e.state)) h ∙ sym (append-nil (states j.current))))

-- A receipt is written to another file than the journal of the repository.
abbrev pub Spares : (repo : String) → Call → Type 0
Spares repo (updates op) = Unit
Spares repo (acknowledges named receipt) = receipt_name named ≢ safe_name repo

module _ (redaction : Redaction) where
  states-redact :
      (es : List Entry)
      → map (λ (e : Entry). e.state) (map (redact_entry redaction) es)
        ≡ map (λ (e : Entry). e.state) es
  states-redact [] = refl
  states-redact (e ∷ es) = ap (◌∷◌ e.state) (states-redact es)

  attempt_states-redact : (a : Attempt) → states (redact_attempt redaction a) ≡ states a
  unfolding redact_attempt
  attempt_states-redact a = states-redact a.history

  trails-redact : (l : List Attempt) → map states (map (redact_attempt redaction) l) ≡ map states l
  trails-redact [] = refl
  trails-redact (a ∷ l) = λ i. attempt_states-redact a i ∷ trails-redact l i

  trail-redact : (j : Journal) → trail (redact_journal redaction j) ≡ trail j
  unfolding redact_journal
  trail-redact j =
      ap (map states)
        (sym (map-append (redact_attempt redaction) j.previous_attempts (j.current ∷ [])))
      ∙ trails-redact (j.previous_attempts ++ j.current ∷ [])

  read_cong :
      (s : Store) (repo other : String)
      → safe_name repo ≡ safe_name other
      → read s repo ≡ read s other
  unfolding read
  read_cong s repo other e = rw e

  write-Retains :
      (repo other : String) (j' : Journal) (s : Store)
      → Retains (read s repo) (some j')
      → Retains (read s other) (read (write redaction repo j' s) other)
  write-Retains repo other j' s h =
      rw (read-write redaction repo other j' s)
        (elim (Bool-cases (safe_name repo == safe_name other)) [
          | inl e ↦ rw e (rw (← read_cong s repo other ((eq_iff _ _).0 e)) (grow (read s repo) h))
          | inr e ↦ rw e (Retains-refl (read s other))
        ])
    where
      grow :
          (o : Option Journal)
          → Retains o (some j')
          → Retains o (some (redact_journal redaction j'))
      grow none h = tt
      grow (some j) h = subst (Includes (trail j)) (sym (trail-redact j')) h

  Steps-Retains :
      {repo : String} {s t : Store} (other : String)
      → Steps redaction repo s t
      → Retains (read s other) (read t other)
  Steps-Retains {s = s} other still = Retains-refl (read s other)
  Steps-Retains {repo = repo} other (writes {t = t} j' steps c) =
      Retains-trans _ (read t other) _ (Steps-Retains other steps)
        (write-Retains repo other j' t (Change-Retains c))

  receipt-frame :
      (repo other : String) (receipt : Json) (s : Store)
      → receipt_name repo ≢ safe_name other
      → read (write_receipt redaction repo receipt s) other ≡ read s other
  receipt-frame repo other receipt s apart =
      elim (Bool-cases (receipt_name repo == safe_name other)) [
        | inl e ↦ absurd (apart ((eq_iff _ _).0 e))
        | inr e ↦ rw (read-write_receipt redaction repo other receipt s, e) refl
      ]

  perform-Retains :
      (call : Call) (s : Store) (repo : String)
      → Spares repo call
      → Retains (read s repo) (read (perform redaction call s) repo)
  unfolding perform
  perform-Retains (updates op) s repo spares = Steps-Retains repo (step-Steps redaction op s)
  perform-Retains (acknowledges named receipt) s repo spares =
      subst (Retains (read s repo)) (sym (receipt-frame named repo receipt s spares))
        (Retains-refl (read s repo))

  -- No sequence of calls, failing ones included, loses an attempt of a repository, changes the order of
  -- its attempts, or drops or alters a state that an attempt went through, where no receipt among the
  -- calls is written to the file of the repository's journal.
  pub run-Retains :
      (calls : List Call) (s : Store) (repo : String)
      → All (Spares repo) calls
      → Retains (read s repo) (read (run redaction calls s) repo)
  unfolding run
  run-Retains [] s repo spares = Retains-refl (read s repo)
  run-Retains (call ∷ calls) s repo (first, others) =
      Retains-trans (read s repo) (read (perform redaction call s) repo) _
        (perform-Retains call s repo first)
        (run-Retains calls (perform redaction call s) repo others)

  Steps-frame :
      {repo : String} {s t : Store} (other : String)
      → safe_name repo ≢ safe_name other
      → Steps redaction repo s t
      → read t other ≡ read s other
  Steps-frame other apart still = refl
  Steps-frame {repo = repo} other apart (writes {t = t} j' steps c) =
      elim (Bool-cases (safe_name repo == safe_name other)) [
        | inl e ↦ absurd (apart ((eq_iff _ _).0 e))
        | inr e ↦ rw (read-write redaction repo other j' t, e) (Steps-frame other apart steps)
      ]

  perform-frame :
      (call : Call) (s : Store) (other : String)
      → file_of call ≢ safe_name other
      → read (perform redaction call s) other ≡ read s other
  unfolding perform
  perform-frame (updates op) s other apart = Steps-frame other apart (step-Steps redaction op s)
  perform-frame (acknowledges repo receipt) s other apart = receipt-frame repo other receipt s apart

  -- Whatever calls are made that write other files, the journal of a repository stays as it is. A call
  -- on a journal writes the file of its repository's safe name, a receipt the one of that name with
  -- `.quiescence` after it.
  pub run-frame :
      (calls : List Call) (s : Store) (other : String)
      → All (λ call. file_of call ≢ safe_name other) calls
      → read (run redaction calls s) other ≡ read s other
  unfolding run
  run-frame [] s other apart = refl
  run-frame (call ∷ calls) s other (first, others) =
      run-frame calls (perform redaction call s) other others ∙ perform-frame call s other first

  begin_with-none :
      (now fresh repo : String) (o : Option Journal) (i : Intent) (id : Option String) (s : Store)
      → id ≡ none
      → begin_with redaction now fresh repo o i id s ≡ ok (renew redaction now fresh repo o i s)
  unfolding begin_with
  begin_with-none now fresh repo none i id s h = refl
  begin_with-none now fresh repo (some j) i none s h = refl
  begin_with-none now fresh repo (some j) i (some id) s h = cc

  read-renew :
      (now fresh repo other : String) (o : Option Journal) (i : Intent) (s : Store)
      → safe_name repo ≡ safe_name other
      → (j : Journal) × (read (renew redaction now fresh repo o i s).1 other ≡ some j)
        × (j.repo ≡ redaction.text repo)
  unfolding renew
  read-renew now fresh repo other o i s shared = (
    redact_journal redaction (record {
      current = new_attempt redaction now fresh repo i;
      previous_attempts = archived redaction now o;
    }),
    rw (read-write redaction repo other _ s, (eq_iff _ _).1 shared) refl,
    unfold redact_journal redact_attempt new_attempt in refl,
  )

  -- Two repositories whose names give one file name share their journal: a new attempt of the one
  -- is then read as the journal of the other.
  pub begin_shared :
      (now fresh repo other : String) (i : Intent) (s : Store)
      → safe_name repo ≡ safe_name other
      → i.journal_attempt_id ≡ none
      → (r : String × Store) × (begin redaction now fresh repo i s ≡ ok r)
        × ((j : Journal) × (read r.1 other ≡ some j) × (j.repo ≡ redaction.text repo))
  unfolding begin
  begin_shared now fresh repo other i s shared new =
      let i' = inherit (read s repo) i in
      (
        renew redaction now fresh repo (read s repo) i' s,
        begin_with-none now fresh repo (read s repo) i' i.journal_attempt_id s new,
        read-renew now fresh repo other (read s repo) i' s shared,
      )
