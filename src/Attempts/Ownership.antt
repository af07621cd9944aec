-- ===== src/Attempts/Ownership.antt =====
-- Who owns a deploy: the active attempts of `deploy_attempts` against the events that are deploying.
-- The lemmas follow the ways in which the transactions change the two tables.
pub mod Begun
pub mod Ended
pub mod Ends
use mathlib.Core.Path.{subst}
use haniel.Prelude.{
  eq_refl, ℕ, ◌+◌, ◌≤◌, ◌≡◌, refl, sym, ap, ◌∙◌, String, Bool, true, false, not, ◌&&◌, Option, none,
  some, List, [], ◌∷◌, ◌++◌, arith, eq_iff, count, count-append, ◌==◌, if◌then◌else◌, Bool-cases,
  Option-cases, inl, inr,
}
use haniel.Attempts.Table.{
  find, update, both, bit, updated, find-none, find-holds, find-counted, find-both, find-only,
  find-update, count-both, count-update, count-untouched, count-cleared, count-emptied, count-apart,
}
use haniel.Attempts.Rows.{Status, is_pending, is_deploying, Event, Attempt, Db, is_active}
use haniel.Attempts.Support.{has_id, is_attempt, is_running, owns, holds_branch}

unfoldable pub is_carried : Option Event → Bool
is_carried none = false
is_carried (some e) = is_deploying e.status

-- The event of the id stands at `deploying`.
unfoldable pub runs : List Event → String → Bool
unfolding is_carried
runs es d = is_carried (find (has_id d) es)

-- Ids are keys; a deploy runs if and only if it has an active attempt, which is then the only one;
-- and a branch of a node has one active attempt at most.
pub record Owned (es : List Event) (attempts : List Attempt) : Type 0 where
  pub attempt_ids : (k : String) → count (is_attempt k) attempts ≤ 1
  pub event_ids : (d : String) → count (has_id d) es ≤ 1
  pub owners : (d : String) → count (owns d) attempts ≡ bit (runs es d)
  pub branches : (node repo branch : String) → count (holds_branch node repo branch) attempts ≤ 1

-- What an event update does to `runs`.
pub runs-update :
    (p : Event → Bool) (f : Event → Event) (es : List Event) (d : String)
    → ((e : Event) → (f e).deploy_id ≡ e.deploy_id)
    → runs (update p f es) d ≡ is_carried (updated p f (find (has_id d) es))
unfolding runs
runs-update p f es d keeps =
    ap is_carried (find-update p (has_id d) f es (λ e. ap (λ i. i == d) (keeps e)))

pub event_ids-update :
    (p : Event → Bool) (f : Event → Event) (es : List Event) (d : String)
    → ((e : Event) → (f e).deploy_id ≡ e.deploy_id)
    → count (has_id d) (update p f es) ≡ count (has_id d) es
event_ids-update p f es d keeps =
    count-untouched p (has_id d) f es (λ e. ap (λ i. i == d) (keeps e))

idle_event :
    (p : Event → Bool) (f : Event → Event)
    → ((e : Event) → p e ≡ true → is_deploying e.status ≡ false)
    → ((e : Event) → is_deploying (f e).status ≡ false)
    → (o : Option Event) → is_carried o ≡ is_carried (updated p f o)
unfolding is_carried updated
idle_event p f before after none = refl
idle_event p f before after (some e) = elim (Bool-cases (p e)) [
  | inl t ↦ before e t ∙ sym (ap (λ b. is_deploying (if b then f e else e).status) t ∙ after e)
  | inr t ↦ sym (ap (λ b. is_deploying (if b then f e else e).status) t)
]

pub runs-idle :
    (p : Event → Bool) (f : Event → Event) (es : List Event) (d : String)
    → ((e : Event) → (f e).deploy_id ≡ e.deploy_id)
    → ((e : Event) → p e ≡ true → is_deploying e.status ≡ false)
    → ((e : Event) → is_deploying (f e).status ≡ false)
    → runs es d ≡ runs (update p f es) d
unfolding runs
runs-idle p f es d keeps before after =
    idle_event p f before after (find (has_id d) es) ∙ sym (runs-update p f es d keeps)

-- An update of events none of which is deploying, before or after.
pub idle-Owned :
    (p : Event → Bool) (f : Event → Event) (es : List Event) (attempts : List Attempt)
    → ((e : Event) → (f e).deploy_id ≡ e.deploy_id)
    → ((e : Event) → p e ≡ true → is_deploying e.status ≡ false)
    → ((e : Event) → is_deploying (f e).status ≡ false)
    → Owned es attempts
    → Owned (update p f es) attempts
idle-Owned p f es attempts keeps before after o = record {
  attempt_ids = o.attempt_ids;
  event_ids = λ d. ground (arith, event_ids-update p f es d keeps, o.event_ids d);
  owners = λ d. o.owners d ∙ ap bit (runs-idle p f es d keeps before after);
  branches = o.branches;
}

pub runs-append :
    (es : List Event) (e : Event) (d : String)
    → is_deploying e.status ≡ false
    → runs (es ++ e ∷ []) d ≡ runs es d
unfolding runs find
runs-append [] e d idle = ground (arith, idle)
runs-append (x ∷ xs) e d idle = ground (arith, runs-append xs e d idle)

pub count-added :
    {A : Type 0} (p : A → Bool) (xs : List A) (y : A)
    → count p (xs ++ y ∷ []) ≡ count p xs + bit (p y)
count-added p xs y = ground (arith, count-append p xs (y ∷ []))

-- A row with a key that no row has.
pub added_keys :
    {A : Type 0} (key : A → String) (rows : List A) (y : A)
    → count (λ x. key x == key y) rows ≡ 0
    → ((k : String) → count (λ x. key x == k) rows ≤ 1)
    → (k : String) → count (λ x. key x == k) (rows ++ y ∷ []) ≤ 1
added_keys key rows y fresh keys k = elim (Bool-cases (key y == k)) [
  | inl t ↦ ground (
    arith,
    count-added (λ x. key x == k) rows y,
    ap (λ i. count (λ x. key x == i) rows) ((eq_iff (key y) k).0 t),
    fresh,
    t,
  )
  | inr t ↦ ground (arith, count-added (λ x. key x == k) rows y, keys k, t)
]

-- A new event.
pub new-Owned :
    (es : List Event) (e : Event) (attempts : List Attempt)
    → count (has_id e.deploy_id) es ≡ 0
    → is_deploying e.status ≡ false
    → Owned es attempts
    → Owned (es ++ e ∷ []) attempts
new-Owned es e attempts fresh idle o = record {
  attempt_ids = o.attempt_ids;
  event_ids = added_keys (λ x. x.deploy_id) es e fresh o.event_ids;
  owners = λ d. o.owners d ∙ sym (ap bit (runs-append es e d idle));
  branches = o.branches;
}

-- An update of the columns of attempts that no key is made of.
pub columns-Owned :
    (p : Attempt → Bool) (g : Attempt → Attempt) (es : List Event) (attempts : List Attempt)
    → ((k : String) (a : Attempt) → is_attempt k (g a) ≡ is_attempt k a)
    → ((d : String) (a : Attempt) → owns d (g a) ≡ owns d a)
    → ((node repo branch : String) (a : Attempt)
        → holds_branch node repo branch (g a) ≡ holds_branch node repo branch a)
    → Owned es attempts
    → Owned es (update p g attempts)
columns-Owned p g es attempts ids own hold o = record {
  attempt_ids =
      λ k. ground (arith, count-untouched p (is_attempt k) g attempts (ids k), o.attempt_ids k);
  event_ids = o.event_ids;
  owners = λ d. count-untouched p (owns d) g attempts (own d) ∙ o.owners d;
  branches = λ n r b.
      ground
        (arith, count-untouched p (holds_branch n r b) g attempts (hold n r b), o.branches n r b);
}

-- The events of other ids keep their status.
other_event :
    (st : Status → Bool) (f : Event → Event) (d0 d : String) (o : Option Event)
    → (d0 == d) ≡ false
    → ((x : Event) → o ≡ some x → has_id d x ≡ true)
    → is_carried (updated (both (has_id d0) (λ e. st e.status)) f o) ≡ is_carried o
unfolding is_carried updated
other_event st f d0 d none ne has = refl
other_event st f d0 d (some x) ne has =
    ground (arith, eq_iff x.deploy_id d, eq_iff x.deploy_id d0, eq_iff d0 d, has x refl, ne)

-- Which other deploys run stays as it is.
pub other_runs :
    (st : Status → Bool) (f : Event → Event) (es : List Event) (d0 d : String)
    → (d0 == d) ≡ false
    → ((e : Event) → (f e).deploy_id ≡ e.deploy_id)
    → runs (update (both (has_id d0) (λ e. st e.status)) f es) d ≡ runs es d
unfolding runs
other_runs st f es d0 d ne keeps =
    runs-update (both (has_id d0) (λ e. st e.status)) f es d keeps
    ∙ other_event st f d0 d (find (has_id d) es) ne (find-holds (has_id d) es)
