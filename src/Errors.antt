-- ===== src/Errors.antt =====
-- src/haniel/core/deployment_errors.py: exceptions as values, and the stable code of an exception.
pub mod Codes
pub mod Chain
pub mod Result
mod Examples
use haniel.Prelude.{
  ℕ, zero, suc, ◌+◌, String, Bool, true, false, Option, none, some, List, [], ◌∷◌, ◌++◌, truthy,
  same, ◌==◌, ◌&&◌, ◌||◌, is_some, contains, if◌then◌else◌,
}

-- The classes that the code tells apart by `isinstance` or `except`.
pub data Class : Type 0 where
  plain stable deployment verification : Class

-- An exception: its class, its attribute `code` if that is a text, its message, its attribute
-- `recovery_error` and its `__cause__`.
mutual
  pub data Exn : Type 0 where
    exn : Class → Option String → String → Link → Link → Exn

  pub data Link : Type 0 where
    nothing : Link
    linked : Exn → Link

abbrev pub class_of : Exn → Class
class_of (exn c _ _ _ _) = c

abbrev pub code_of : Exn → Option String
code_of (exn _ code _ _ _) = code

abbrev pub message_of : Exn → String
message_of (exn _ _ message _ _) = message

abbrev pub recovery_of : Exn → Link
recovery_of (exn _ _ _ recovery _) = recovery

abbrev pub cause_of : Exn → Link
cause_of (exn _ _ _ _ cause) = cause

-- `raise ValueError(message)`, `raise RuntimeError(message)`
abbrev pub plain_error : String → Exn
plain_error message = exn plain none message nothing nothing

-- `raise StableDeploymentError(code, message)` where the code is a literal of the known set.
abbrev pub stable_error : String → String → Exn
stable_error code message = exn stable (some code) message nothing nothing

abbrev pub unclassified : String
unclassified = "UNCLASSIFIED_DEPLOYMENT_ERROR"

abbrev links : Link → List Exn
links nothing = []
links (linked e) = e ∷ []

-- The number of exceptions in the tree, the fuel of the walk.
abbrev mutual
  pub size : Exn → ℕ
  size (exn _ _ _ recovery cause) = suc (size_link recovery + size_link cause)

  pub size_link : Link → ℕ
  size_link nothing = 0
  size_link (linked e) = size e

-- Whether two exceptions are equal in all that the model keeps of them. It stands for the identity of
-- objects: one object that is reached twice is equal to itself, and of two equal objects either one
-- answers for the other.
abbrev pub same_class : Class → Class → Bool
same_class plain plain = true
same_class stable stable = true
same_class deployment deployment = true
same_class verification verification = true
same_class _ _ = false

unfoldable mutual
  pub same_exn : Exn → Exn → Bool
  same_exn (exn c k m r u) (exn c' k' m' r' u') =
      same_class c c' && (same k k' && ((m == m') && (same_link r r' && same_link u u')))

  pub same_link : Link → Link → Bool
  same_link nothing nothing = true
  same_link nothing (linked y) = false
  same_link (linked x) nothing = false
  same_link (linked x) (linked y) = same_exn x y

-- `identity in seen`
unfoldable pub is_seen : Exn → List Exn → Bool
unfolding same_exn
is_seen e [] = false
is_seen e (x ∷ seen) = same_exn e x || is_seen e seen

-- `_error_chain` over the queue `pending`, as the list of exceptions that it yields.
unfoldable pub chain : ℕ → (seen pending : List Exn) → List Exn
unfolding is_seen
chain zero seen pending = []
chain (suc fuel) seen [] = []
chain (suc fuel) seen (e ∷ pending) = elim (is_seen e seen) [
  | true ↦ chain fuel seen pending
  | false ↦ e ∷ chain fuel (e ∷ seen) (pending ++ (links (recovery_of e) ++ links (cause_of e)))
]

unfoldable pub error_chain : Exn → List Exn
unfolding chain
error_chain e = chain (size e) [] (e ∷ [])

first_code : List Exn → Option String
first_code [] = none
first_code (e ∷ es) = if truthy (code_of e) then code_of e else first_code es

abbrev tail_codes : List Exn → Option String
tail_codes [] = none
tail_codes (e ∷ es) = first_code es

abbrev has_link : Link → Bool
has_link nothing = false
has_link (linked _) = true

abbrev code_or : Option String → String → String
code_or none d = d
code_or (some c) d = c

-- `stable_deployment_error_code`
unfoldable pub stable_code : Exn → String
unfolding error_chain first_code
stable_code e =
    if truthy (code_of e)
    then code_or (code_of e) unclassified
    else if has_link (recovery_of e)
    then "RECOVERY_FAILED"
    else code_or (tail_codes (error_chain e)) unclassified
