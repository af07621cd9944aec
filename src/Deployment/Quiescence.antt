-- ===== src/Deployment/Quiescence.antt =====
-- `validate_quiescence_receipt` of src/haniel/core/deployment_quiescence.py.
use haniel.Prelude.{
  String, Bool, true, false, not, ◌&&◌, Option, none, some, List, [], ◌∷◌, ◌++◌, contains, is_some,
  truthy, ◌==◌, if◌then◌else◌,
}
use haniel.Prelude.Json.{Json, string, arr, Items, nil, cons, Fields, member}
use haniel.Errors.{plain_error}
use haniel.Errors.Result.{Result, ok, raise}

abbrev pub all_in : List String → List String → Bool
all_in [] ys = true
all_in (x ∷ xs) ys = contains x ys && all_in xs ys

-- `not (xs & ys)`
abbrev pub disjoint : List String → List String → Bool
disjoint [] ys = true
disjoint (x ∷ xs) ys = not (contains x ys) && disjoint xs ys

-- `set(xs) == set(ys)`
abbrev pub same_set : List String → List String → Bool
same_set xs ys = all_in xs ys && all_in ys xs

-- `len(xs) == len(set(xs))`
abbrev pub distinct : List String → Bool
distinct [] = true
distinct (x ∷ xs) = not (contains x xs) && distinct xs

abbrev join : Option String → Option (List String) → Option (List String)
join (some s) (some ss) = some (s ∷ ss)
join _ _ = none

-- A text that counts as true.
abbrev text_of : Json → Option String
text_of (string s) = if s == "" then none else some s
text_of _ = none

abbrev texts : Items → Option (List String)
texts nil = some []
texts (cons j js) = join (text_of j) (texts js)

-- A list of texts, none of them empty.
abbrev pub texts_of : Json → Option (List String)
texts_of (arr js) = texts js
texts_of _ = none

-- `receipt.get(key) == expected`
abbrev pub is_text : Json → Option String → Bool
is_text (string s) (some e) = s == e
is_text _ _ = false

-- What the deployment expects of its receipt.
pub record Expected : Type 0 where
  pub request_id : Option String
  pub repo_name : String
  pub target_head : String
  pub owner_instance : Option String
  pub quiescence_nonce : Option String
  pub config_digest : Option String
  pub writer_services : List String

-- A field is expected as a text that counts as true, and the receipt has it.
abbrev pub field_agrees : Fields → String → Option String → Bool
field_agrees receipt key expected = truthy expected && is_text (member key receipt) expected

unfoldable pub identity_agrees : Expected → Fields → Bool
identity_agrees x receipt =
    field_agrees receipt "request_id" x.request_id
    && (field_agrees receipt "repo" (some x.repo_name)
        && (field_agrees receipt "target_head" (some x.target_head)
            && (field_agrees receipt "owner_instance" x.owner_instance
                && (field_agrees receipt "quiescence_nonce" x.quiescence_nonce
                    && (if is_some x.config_digest
                        then field_agrees receipt "config_digest" x.config_digest
                        else true)))))

abbrev is_empty : List String → Bool
is_empty [] = true
is_empty (_ ∷ _) = false

unfoldable pub sets_agree : (writers stopped already quiesced : List String) → Bool
sets_agree writers stopped already quiesced =
    not (is_empty writers)
    && (disjoint stopped already
        && (same_set (stopped ++ already) writers
            && (same_set quiesced writers
                && (distinct stopped && (distinct already && distinct quiesced)))))

unfoldable pub services_agree :
    (writers : List String) → (stopped already quiesced : Option (List String)) → Bool
services_agree writers (some stopped) (some already) (some quiesced) =
    sets_agree writers stopped already quiesced
services_agree writers _ _ _ = false

unfoldable pub validate_quiescence_receipt : Expected → Option Fields → Result (Unit {0})
validate_quiescence_receipt x none =
    raise (plain_error "QUIESCENCE_REQUIRED: resident owner did not acknowledge stop")
validate_quiescence_receipt x (some receipt) =
    if identity_agrees x receipt
      && services_agree x.writer_services (texts_of (member "stopped_services" receipt))
          (texts_of (member "already_stopped_services" receipt))
          (texts_of (member "quiesced_services" receipt))
    then ok tt
    else raise (plain_error "QUIESCENCE_REQUIRED: receipt does not match current deployment intent")
