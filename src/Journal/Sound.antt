-- ===== src/Journal/Sound.antt =====
-- When a journal is sound: the record of each attempt agrees with its history.
use mathlib.Core.Path.{subst}
use mathlib.Core.Option.{some-injective}
use haniel.Prelude.{
  ◌∙◌, String, ◌≡◌, refl, inl, inr, true, Option, none, some, List, [], ◌∷◌, ◌++◌, map, All,
  if◌then◌else◌, ◌==◌, Bool-cases,
}
use haniel.Prelude.Dict
use haniel.Prelude.Dict.{get-put}
use haniel.Journal.Record.{
  State, is_terminal, Entry, Attempt, Journal, Redaction, entry, redact_entry, redact_attempt,
  redact_journal,
}
use haniel.Journal.Path.{Store, safe_name, read, write}

abbrev pub last_state : List Entry → Option State
last_state [] = none
last_state (e ∷ []) = some e.state
last_state (e ∷ f ∷ rest) = last_state (f ∷ rest)

pub last_state-append : (es : List Entry) (e : Entry) → last_state (es ++ e ∷ []) ≡ some e.state
last_state-append [] e = refl
last_state-append (x ∷ []) e = refl
last_state-append (x ∷ y ∷ es) e = last_state-append (y ∷ es) e

-- The last entry of an attempt's history bears the attempt's state.
abbrev pub IsLogged : Attempt → Type 0
IsLogged a = last_state a.history ≡ some a.state

-- An archived attempt is at its end.
abbrev pub IsClosed : Attempt → Type 0
IsClosed a = (is_terminal a.state ≡ true) × IsLogged a

pub record IsSound (j : Journal) : Type 0 where
  pub logged : IsLogged j.current
  pub closed : All IsClosed j.previous_attempts

-- Every journal file of the store is sound.
pub record Inv (s : Store) : Type 0 where
  pub sound : (repo : String) (j : Journal) → read s repo ≡ some j → IsSound j

pub read-write :
    (redaction : Redaction) (repo other : String) (j : Journal) (s : Store)
    → read (write redaction repo j s) other ≡ (
        if safe_name repo == safe_name other
        then some (redact_journal redaction j)
        else read s other)
unfolding read write
read-write redaction repo other j s = get-put (safe_name repo) (safe_name other) _ s.journals

module _ (redaction : Redaction) where
  pub last_state-redact :
      (es : List Entry) → last_state (map (redact_entry redaction) es) ≡ last_state es
  last_state-redact [] = refl
  last_state-redact (e ∷ []) = refl
  last_state-redact (e ∷ f ∷ es) = last_state-redact (f ∷ es)

  redact-IsLogged : (a : Attempt) → IsLogged a → IsLogged (redact_attempt redaction a)
  unfolding redact_attempt
  redact-IsLogged a h = last_state-redact a.history ∙ h

  redact-IsClosed :
      (l : List Attempt) → All IsClosed l → All IsClosed (map (redact_attempt redaction) l)
  redact-IsClosed [] h = tt
  redact-IsClosed (a ∷ l) h =
      ((unfold redact_attempt in h.0.0, redact-IsLogged a h.0.1), redact-IsClosed l h.1)

  pub redact-IsSound : (j : Journal) → IsSound j → IsSound (redact_journal redaction j)
  unfolding redact_journal
  redact-IsSound j v = record {
    logged = redact-IsLogged j.current v.logged;
    closed = redact-IsClosed j.previous_attempts v.closed;
  }

  pub write-Inv :
      (repo : String) (j : Journal) (s : Store) → IsSound j → Inv s → Inv (write redaction repo j s)
  write-Inv repo j s new v = record {
    sound = λ other k h. elim (Bool-cases (safe_name repo == safe_name other)) [
      | inl e ↦
          subst IsSound (some-injective _ _ (rw (read-write redaction repo other j s, e) at h))
            (redact-IsSound j new)
      | inr e ↦ v.sound other k (rw (read-write redaction repo other j s, e) at h)
    ];
  }

  -- Another entry for the new state keeps a journal sound.
  pub IsLogged-entry :
      (now : String) (state : State) (m : Option String) (es : List Entry)
      → last_state (es ++ entry redaction now state m ∷ []) ≡ some state
  unfolding entry
  IsLogged-entry now state m es = last_state-append es _

unfoldable pub empty : Store
empty = record { journals = []; receipts = [] }

pub read-empty : (repo : String) → read empty repo ≡ none
unfolding read empty Dict.get
read-empty repo = refl
