-- ===== src/Journal/Path.antt =====
-- `_path`, `read` and `_write` of src/haniel/core/deployment_state.py.
use Prim.Native.Char.{code}
use Prim.Native.String.{◌++◌ as append, count as text_length}
use text.Mathlib.TextLemmas.{length-append}
use haniel.Prelude.{
  ℕ, String, Bool, ◌||◌, ◌&&◌, Option, none, ◌≡◌, ◌≢◌, ap, false, arith, eq_iff, inl, inr,
  Bool-cases, ◌==◌, leb, eqb, if◌then◌else◌,
}
use haniel.Prelude.Dict
use haniel.Prelude.Dict.{Dict, get-remove}
use haniel.Prelude.Json.{Json}
use haniel.Journal.Record.{Journal, Redaction, redact_journal}

-- `[A-Za-z0-9._-]`
unfoldable pub is_safe : ℕ → Bool
is_safe c =
    (leb b'A' c && leb c b'Z')
    || ((leb b'a' c && leb c b'z')
        || ((leb b'0' c && leb c b'9') || (eqb c 46 || (eqb c 95 || eqb c 45))))

-- `re.sub(r"[^A-Za-z0-9._-]", "_", repo_name)`
unfoldable pub safe_name : String → String
safe_name String.[] = String.[]
safe_name (String.◌∷◌ c s) = String.◌∷◌ (if is_safe (code c) then c else "_") (safe_name s)

-- `f"{safe_name}.quiescence"`
unfoldable pub receipt_name : String → String
receipt_name repo = append (safe_name repo) ".quiescence"

-- The files of the directory by their name without `.json`: those that hold a journal, and those that
-- hold a receipt. The receipt of `app` and the journal of `app.quiescence` are one file, whose last
-- writer counts. What the code makes of a receipt that it reads as a journal is not modelled: it is no
-- journal here.
pub record Store : Type 0 where
  pub journals : Dict Journal
  pub receipts : Dict Json

unfoldable pub read : Store → String → Option Journal
read s repo = Dict.get (safe_name repo) s.journals

module _ (redaction : Redaction) where
  unfoldable pub write : String → Journal → Store → Store
  write repo j s = record {
    journals = Dict.put (safe_name repo) (redact_journal redaction j) s.journals;
    receipts = Dict.remove (safe_name repo) s.receipts;
  }

  unfoldable pub write_receipt : String → Json → Store → Store
  unfolding receipt_name
  write_receipt repo receipt s = record {
    journals = Dict.remove (receipt_name repo) s.journals;
    receipts = Dict.put (receipt_name repo) (redaction.value receipt) s.receipts;
  }

  -- A receipt takes the place of the journal of its file's name, and of no other.
  pub read-write_receipt :
      (repo other : String) (receipt : Json) (s : Store)
      → read (write_receipt repo receipt s) other
        ≡ (if receipt_name repo == safe_name other then none else read s other)
  unfolding write_receipt read
  read-write_receipt repo other receipt s =
      get-remove (receipt_name repo) (safe_name other) s.journals

-- The receipt of a repository is in another file than its journal.
pub own_receipt : (repo : String) → (receipt_name repo == safe_name repo) ≡ false
unfolding receipt_name
own_receipt repo = elim (Bool-cases (receipt_name repo == safe_name repo)) [
  | inr t ↦ t
  | inl t ↦ absurd (longer (safe_name repo) ((eq_iff _ _).0 t))
]
  where
    longer : (s : String) → append s ".quiescence" ≢ s
    longer s e = omega (arith, ap text_length e, length-append s ".quiescence")
