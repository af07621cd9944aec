-- ===== src/Deployment/Stored.antt =====
-- What the calls on the store do to the journal of the repository, where there is one.
use haniel.Prelude.{
  ◌≡◌, refl, inl, inr, Bool-cases, String, Bool, true, false, Option, none, some, eq_refl, truthy,
}
use haniel.Prelude.Json.{Json}
use haniel.Errors.{Exn, stable_code}
use haniel.Errors.Codes.{is_known}
use haniel.Errors.Result.{Result, ok, raise}
use haniel.Journal.Record.{State, Journal, Redaction, redact_attempt, redact_journal}
use haniel.Journal.Path.{Store, read, write}
use haniel.Journal.Sound.{read-write}
use haniel.Journal.Updates.{
  moved, transition_code, transition_with, transition, edit, link_release_contract,
  record_database_result, is_error_state,
}

-- The journal of the repository is there, in the state, and with the flag.
pub record At (repo : String) (state : State) (s : Store) : Type 0 where
  pub journal : Journal
  pub found : read s repo ≡ some journal
  pub reached : journal.state ≡ state

pub record IsLive (repo : String) (s : Store) : Type 0 where
  pub journal : Journal
  pub found : read s repo ≡ some journal

abbrev pub At-IsLive : {repo : String} {state : State} {s : Store} → At repo state s → IsLive repo s
At-IsLive v = record { journal = v.journal; found = v.found }

abbrev pub Succeeds : (repo : String) → (Store → Type 0) → Result Store → Type 0
Succeeds repo P (ok s) = P s
Succeeds repo P (raise e) = ⊥

module _ (redaction : Redaction) (repo : String) where
  read_written :
      (j : Journal) (s : Store)
      → read (write redaction repo j s) repo ≡ some (redact_journal redaction j)
  read_written j s = rw (read-write redaction repo repo j s, eq_refl)

  written-At :
      (state : State) (j : Journal) (s : Store)
      → j.state ≡ state
      → At repo state (write redaction repo j s)
  unfolding redact_journal redact_attempt
  written-At state j s h = record {
    journal = redact_journal redaction j;
    found = read_written j s;
    reached = h;
  }

  moved_state :
      (now : String) (state : State) (m : Option String) (r : Option Bool) (code : Option String)
      (j : Journal)
      → (moved redaction now state m r code j).state ≡ state
  unfolding moved
  moved_state now state m r code j = refl

  pub written-IsLive : (j : Journal) (s : Store) → IsLive repo (write redaction repo j s)
  written-IsLive j s = record { journal = redact_journal redaction j; found = read_written j s }

  -- A transition without an error, to a state that is not one of failure.
  pub transition-At :
      (now : String) (state : State) (m : Option String) (r : Option Bool) (s : Store)
      → is_error_state state ≡ false
      → IsLive repo s
      → Succeeds repo (At repo state) (transition redaction now repo state m r none s)
  unfolding transition transition_with
  transition-At now state m r s h v =
      rw (v.found, h)
        (written-At state (moved redaction now state m r none v.journal) s
          (moved_state now state m r none v.journal))

  -- A transition to failure, with a message and an error of a known code.
  pub failure-At :
      (now : String) (state : State) (m : Option String) (r : Option Bool) (e : Exn) (s : Store)
      → is_error_state state ≡ true
      → is_known (stable_code e) ≡ true
      → IsLive repo s
      → Succeeds repo (At repo state) (transition redaction now repo state m r (some e) s)
  unfolding transition transition_with transition_code
  failure-At now state m r e s h k v = rw v.found (elim (Bool-cases (truthy m)) [
    | inl t ↦
        rw (h, t, k)
          (written-At state (moved redaction now state m r (some (stable_code e)) v.journal) s
            (moved_state now state m r (some (stable_code e)) v.journal))
    | inr t ↦
        rw (h, t)
          (written-At state (moved redaction now state m r none v.journal) s
            (moved_state now state m r none v.journal))
  ])

  pub link-IsLive :
      (request : Option String) (operation path : String) (receipt : Option Json) (s : Store)
      → IsLive repo s
      → Succeeds repo
          (IsLive repo)
          (link_release_contract redaction repo request operation path receipt s)
  unfolding link_release_contract edit
  link-IsLive request operation path receipt s v = rw v.found (written-IsLive _ s)

  pub record-IsLive :
      (phase : String) (result : Json) (s : Store)
      → IsLive repo s
      → Succeeds repo (IsLive repo) (record_database_result redaction repo phase result s)
  unfolding record_database_result edit
  record-IsLive phase result s v = rw v.found (written-IsLive _ s)
