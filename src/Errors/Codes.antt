-- ===== src/Errors/Codes.antt =====
-- `KNOWN_DEPLOYMENT_ERROR_CODES` of src/haniel/core/deployment_errors.py.
use haniel.Prelude.{String, Bool, List, [], ◌∷◌, contains}

unfoldable pub known_codes : List String
known_codes =
    "HANDOVER_FAILED" ∷ "UNCLASSIFIED_DEPLOYMENT_ERROR" ∷ "COMMAND_NOT_FOUND"
    ∷ "COMMAND_START_FAILED" ∷ "COMMAND_TIMEOUT" ∷ "COMMAND_EXIT_NONZERO"
    ∷ "COMMAND_RESULT_TOO_LARGE" ∷ "COMMAND_RESULT_INVALID" ∷ "PROVENANCE_PROBE_FAILED"
    ∷ "OPERATION_MISMATCH" ∷ "TARGET_IDENTITY_MISMATCH" ∷ "MANIFEST_IDENTITY_MISMATCH"
    ∷ "PULL_TIMEOUT" ∷ "PULL_FAILED" ∷ "PREFLIGHT_FAILED" ∷ "QUIESCENCE_REQUIRED"
    ∷ "BACKUP_CREATE_FAILED" ∷ "BACKUP_VERIFY_FAILED" ∷ "JOURNAL_GATE_FAILED" ∷ "APPLY_FAILED"
    ∷ "AMBIGUOUS_COMMIT_STATE" ∷ "BUILD_RETRIES_EXHAUSTED" ∷ "BUILD_RETRY_INTERRUPTED"
    ∷ "POST_VERIFY_FAILED" ∷ "POST_VERIFY_RETRIES_EXHAUSTED" ∷ "VERIFY_RETRY_INTERRUPTED"
    ∷ "RECOVERY_FAILED" ∷ "CONFIG_GENERATION_CHANGED" ∷ "CONFIG_DIGEST_MISMATCH"
    ∷ "CONFIG_DIGEST_REQUIRED" ∷ "CONFIG_RELOAD_FAILED" ∷ "CONFIG_RELOAD_UNSAFE"
    ∷ "SERVICE_ENV_FILE_REQUIRED" ∷ "SERVICE_ENV_FILE_INVALID" ∷ "SERVICE_ENV_FILE_CHANGED"
    ∷ "LIFECYCLE_OWNER_REQUIRED" ∷ "LIFECYCLE_OWNER_MISSING" ∷ "LIFECYCLE_OWNER_ACTIVE"
    ∷ "LIFECYCLE_OWNER_CONFLICT" ∷ "REQUEST_IDENTITY_CONFLICT" ∷ "REQUEST_IN_PROGRESS"
    ∷ "DEPLOYMENT_LEASE_CONFLICT" ∷ "RUNTIME_OWNER_LOST" ∷ "REQUEST_TIMEOUT" ∷ "OWNER_START_FAILED"
    ∷ "MALFORMED_REQUEST" ∷ "REQUEST_HANDLER_FAILED" ∷ "UNSUPPORTED_REQUEST_KIND"
    ∷ "EXPECTED_INSTANCE_MISMATCH" ∷ "DATABASE_COMMAND_FAILED" ∷ "STARTUP_UPDATE_FAILED"
    ∷ "POLL_CYCLE_FAILED" ∷ "AUTO_DEPLOY_FAILED" ∷ "CONFIG_LOCK_TIMEOUT" ∷ "CONFIG_SEMANTIC_INVALID"
    ∷ "CONFIG_IDENTITY_DRIFT" ∷ "CONFIG_WRITE_FAILED" ∷ []

unfoldable pub is_known : String → Bool
unfolding known_codes
is_known code = contains code known_codes
