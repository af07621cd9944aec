-- ===== src/Deployment/Receipts.antt =====
-- What `validate_quiescence_receipt` of src/haniel/core/deployment_quiescence.py makes sure of.
use haniel.Prelude.{
  String, sym, ◌∙◌, ◌≡◌, refl, inl, inr, true, false, ◌||◌, ◌==◌, eq_iff, arith, Option, none, some,
  List, [], ◌∷◌, ◌++◌, contains, Bool-cases,
}
use haniel.Prelude.Json.{Fields, member}
use haniel.Errors.Result.{ok}
use haniel.Deployment.Quiescence.{
  all_in, disjoint, same_set, texts_of, Expected, identity_agrees, sets_agree, services_agree,
  validate_quiescence_receipt,
}

all_in-contains :
    (xs ys : List String) (s : String)
    → all_in xs ys ≡ true
    → contains s xs ≡ true
    → contains s ys ≡ true
all_in-contains [] ys s h k = cc
all_in-contains (x ∷ xs) ys s h k = elim (Bool-cases (x == s)) [
  | inl e ↦ ground (arith, (eq_iff x s).0 e)
  | inr e ↦ ground (arith, all_in-contains xs ys s)
]

disjoint-contains :
    (xs ys : List String) (s : String)
    → disjoint xs ys ≡ true
    → contains s xs ≡ true
    → contains s ys ≡ false
disjoint-contains [] ys s h k = cc
disjoint-contains (x ∷ xs) ys s h k = elim (Bool-cases (x == s)) [
  | inl e ↦ ground (arith, (eq_iff x s).0 e)
  | inr e ↦ ground (arith, disjoint-contains xs ys s)
]

contains-append :
    (s : String) (xs ys : List String) → contains s (xs ++ ys) ≡ (contains s xs || contains s ys)
contains-append s [] ys = refl
contains-append s (x ∷ xs) ys = ground (arith, contains-append s xs ys)

same_set-contains :
    (xs ys : List String) (s : String) → same_set xs ys ≡ true → contains s xs ≡ contains s ys
same_set-contains xs ys s h = ground (arith, all_in-contains xs ys s, all_in-contains ys xs s)

-- Every writer is quiescent, and either was stopped or had stopped already, and not both; no other
-- service is named.
pub record IsQuiescent (writers : List String) (receipt : Fields) : Type 0 where
  pub stopped_services : List String
  pub already_stopped_services : List String
  pub quiesced_services : List String
  pub reads_stopped : texts_of (member "stopped_services" receipt) ≡ some stopped_services
  pub reads_already :
      texts_of (member "already_stopped_services" receipt) ≡ some already_stopped_services
  pub reads_quiesced : texts_of (member "quiesced_services" receipt) ≡ some quiesced_services
  pub quiet : (s : String) → contains s quiesced_services ≡ contains s writers
  pub covered :
      (s : String)
      → (contains s stopped_services || contains s already_stopped_services) ≡ contains s writers
  pub apart :
      (s : String)
      → contains s stopped_services ≡ true
      → contains s already_stopped_services ≡ false

sets_parts :
    (writers stopped already quiesced : List String)
    → sets_agree writers stopped already quiesced ≡ true
    → (disjoint stopped already ≡ true)
      × (same_set (stopped ++ already) writers ≡ true)
      × (same_set quiesced writers ≡ true)
unfolding sets_agree
sets_parts writers stopped already quiesced h = ground arith

services-IsQuiescent :
    (writers : List String) (receipt : Fields) (a b c : Option (List String))
    → texts_of (member "stopped_services" receipt) ≡ a
    → texts_of (member "already_stopped_services" receipt) ≡ b
    → texts_of (member "quiesced_services" receipt) ≡ c
    → services_agree writers a b c ≡ true
    → IsQuiescent writers receipt
unfolding services_agree
services-IsQuiescent writers receipt (some stopped) (some already) (some quiesced) ha hb hc h =
    let (no_overlap, all_named, all_quiet) = sets_parts writers stopped already quiesced h in
    record {
      stopped_services = stopped;
      already_stopped_services = already;
      quiesced_services = quiesced;
      reads_stopped = ha;
      reads_already = hb;
      reads_quiesced = hc;
      quiet = λ s. same_set-contains quiesced writers s all_quiet;
      covered = λ s.
          sym (contains-append s stopped already)
          ∙ same_set-contains (stopped ++ already) writers s all_named;
      apart = λ s. disjoint-contains stopped already s no_overlap;
    }
services-IsQuiescent writers receipt none b c ha hb hc h = cc
services-IsQuiescent writers receipt (some stopped) none c ha hb hc h = cc
services-IsQuiescent writers receipt (some stopped) (some already) none ha hb hc h = cc

-- A receipt that is accepted shows every writer of the release quiescent: it names the writers and no
-- other service as quiesced, and each of them as stopped now or as stopped before, not as both.
pub validate-IsQuiescent :
    (x : Expected) (receipt : Fields)
    → validate_quiescence_receipt x (some receipt) ≡ ok tt
    → IsQuiescent x.writer_services receipt
unfolding validate_quiescence_receipt
validate-IsQuiescent x receipt h =
    let stopped = texts_of (member "stopped_services" receipt) in
    let already = texts_of (member "already_stopped_services" receipt) in
    let quiesced = texts_of (member "quiesced_services" receipt) in
    let services = services_agree x.writer_services stopped already quiesced in
    elim (Bool-cases (identity_agrees x receipt)) [
      | inr e ↦ cc (rw e at h)
      | inl e ↦ elim (Bool-cases services) [
        | inl k ↦
            services-IsQuiescent x.writer_services receipt stopped already quiesced refl refl refl k
        | inr k ↦ cc (rw (e, k) at h)
      ]
    ]
