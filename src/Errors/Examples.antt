-- ===== src/Errors/Examples.antt =====
-- Tests of the codes: a chain of three exceptions, and one whose recovery error is its cause.
use haniel.Prelude.{◌≡◌, refl, some, [], ◌∷◌}
use haniel.Errors.{
  Exn, exn, deployment, linked, plain_error, stable_error, same_exn, is_seen, chain, error_chain,
}

abbrev recovery : Exn
recovery = plain_error "no process"

abbrev cause : Exn
cause = stable_error "APPLY_FAILED" "exit 1"

abbrev failure : Exn
failure =
    exn deployment (some "RECOVERY_FAILED") "deployment failed" (linked recovery) (linked cause)

chain_test : error_chain failure ≡ failure ∷ recovery ∷ cause ∷ []
unfolding error_chain chain is_seen same_exn
chain_test = refl

-- An exception that is reached twice is yielded once.
abbrev shared : Exn
shared = exn deployment (some "RECOVERY_FAILED") "deployment failed" (linked cause) (linked cause)

shared_test : error_chain shared ≡ shared ∷ cause ∷ []
unfolding error_chain chain is_seen same_exn
shared_test = refl
