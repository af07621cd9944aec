-- ===== src/Retry/Plans.antt =====
-- When a plan is to recover from evidence, and what a revalidation lets pass.
use haniel.Prelude.{
  String, ◌≡◌, ◌≢◌, refl, ◌↔◌, inl, inr, true, Option, none, some, same, same_iff, truthy, is_some,
  eq_iff, arith, ap, sym, Option-cases, Bool-cases,
}
use haniel.Errors.{Exn, message_of}
use haniel.Errors.Result.{ok, raise, Result-cases}
use haniel.Journal.Record.{Journal}
use haniel.Journal.Path.{Store, read}
use haniel.Retry.Messages.{Mode, execute, evidence_recovery, fail_closed, Probe, Evidence}
use haniel.Retry.Planner.{
  Planner, Approval, same_mode, current_head, manifest_snapshot, from_read, evidence_of, build,
  plan_journal, plan_with, plan, revalidate,
}
use haniel.Retry.Durable.{IsDurable, plan_journal-recovers, IsDurable-recovers}

-- What a plan to recover rests on.
pub record Recovers (p : Planner) (s : Store) (probe : Probe) : Type 0 where
  pub path : String
  pub digest : String
  pub journal : Journal
  pub managed : p.manifest_path ≡ some path
  pub hashed : p.digest_at probe.target_head path ≡ ok digest
  pub expected_identity : probe.expected_manifest_identity ≡ some path
  pub expected_digest : probe.expected_manifest_digest ≡ some digest
  pub at_target : current_head p ≡ probe.target_head
  pub found : read s probe.repo ≡ some journal
  pub durable : IsDurable probe (some path) (some digest) journal

plan_with-recovers :
    (p : Planner) (probe : Probe) (path digest : String) (o : Option Journal)
    → p.manifest_path ≡ some path
    → (plan_with p probe (some path) (some digest) none o).mode ≡ evidence_recovery
    → (probe.expected_manifest_identity ≡ some path)
      × (probe.expected_manifest_digest ≡ some digest)
      × (current_head p ≡ probe.target_head)
      × ((plan_journal p probe
            (evidence_of (current_head p) o (some path) (some digest))
            (some path)
            (some digest)
            o).mode
          ≡ evidence_recovery)
unfolding plan_with build
plan_with-recovers p probe path digest o m h = ground (
  arith,
  same_iff (some path) probe.expected_manifest_identity,
  same_iff (some digest) probe.expected_manifest_digest,
  eq_iff (current_head p) probe.target_head,
)

-- An error of Git carries a message.
abbrev pub Speaks : Planner → Type 0
Speaks p =
    (commit path : String) (e : Exn)
    → p.digest_at commit path ≡ raise e
    → truthy (some (message_of e)) ≡ true

plan_with-unmanaged :
    (p : Planner) (probe : Probe) (i d e : Option String) (o : Option Journal)
    → p.manifest_path ≡ none
    → (plan_with p probe i d e o).mode ≡ execute
unfolding plan_with build
plan_with-unmanaged p probe i d e o h = rw h

pub plan_with-unread :
    (p : Planner) (probe : Probe) (i d e : Option String) (o : Option Journal)
    → is_some p.manifest_path ≡ true
    → truthy e ≡ true
    → (plan_with p probe i d e o).mode ≡ fail_closed
unfolding plan_with build
plan_with-unread p probe i d e o h k = rw (h, k)

pub missing-fails :
    (p : Planner) (probe : Probe) (e : Evidence) (i d : Option String)
    → (plan_journal p probe e i d none).mode ≡ fail_closed
unfolding plan_journal build
missing-fails p probe e i d = refl

snapshot-none :
    (p : Planner) (t : String) → p.manifest_path ≡ none → manifest_snapshot p t ≡ (none, none, none)
unfolding manifest_snapshot
snapshot-none p t m = rw m

pub snapshot-read :
    (p : Planner) (t path : String)
    → p.manifest_path ≡ some path
    → manifest_snapshot p t ≡ from_read path (p.digest_at t path)
unfolding manifest_snapshot
snapshot-read p t path m = rw m

Recovers-of_parts :
    (p : Planner) (s : Store) (probe : Probe) (path digest : String) (o : Option Journal)
    → p.manifest_path ≡ some path
    → p.digest_at probe.target_head path ≡ ok digest
    → read s probe.repo ≡ o
    → (plan_with p probe (some path) (some digest) none o).mode ≡ evidence_recovery
    → Recovers p s probe
Recovers-of_parts p s probe path digest none m d r h =
    let (_, _, _, k) = plan_with-recovers p probe path digest none m h in
    cc (missing-fails p probe _ (some path) (some digest), k)
Recovers-of_parts p s probe path digest (some j) m d r h =
    let (identity, hash, at_target, k) = plan_with-recovers p probe path digest (some j) m h in
    record {
      path = path;
      digest = digest;
      journal = j;
      managed = m;
      hashed = d;
      expected_identity = identity;
      expected_digest = hash;
      at_target = at_target;
      found = r;
      durable = plan_journal-recovers p probe _ (some path) (some digest) j k;
    }

pub Recovers-of-plan :
    (p : Planner) (s : Store) (probe : Probe)
    → Speaks p
    → (plan p s probe).mode ≡ evidence_recovery
    → Recovers p s probe
unfolding plan
Recovers-of-plan p s probe speaks h = elim (Option-cases p.manifest_path) [
  | inl m ↦ cc (
    plan_with-unmanaged p probe none none none (read s probe.repo) m,
    rw (snapshot-none p probe.target_head m) at h,
  )
  | inr (path, m) ↦ elim (Result-cases (p.digest_at probe.target_head path)) [
    | inl (digest, d) ↦
        Recovers-of_parts p s probe path digest (read s probe.repo) m d refl
          (rw (snapshot-read p probe.target_head path m, d) at h)
    | inr (e, d) ↦ cc (
      plan_with-unread p probe (some path) none (some (message_of e)) (read s probe.repo)
          (ap is_some m) (speaks probe.target_head path e d),
      rw (snapshot-read p probe.target_head path m, d) at h,
    )
  ]
]

plan_with-of-Recovers :
    (p : Planner) (probe : Probe) (i d : Option String) (o : Option Journal)
    → is_some p.manifest_path ≡ true
    → i ≡ probe.expected_manifest_identity
    → d ≡ probe.expected_manifest_digest
    → current_head p ≡ probe.target_head
    → plan_with p probe i d none o ≡ plan_journal p probe (evidence_of (current_head p) o i d) i d o
unfolding plan_with
plan_with-of-Recovers p probe i d o m hi hd at = rw (
  m,
  (same_iff i probe.expected_manifest_identity).1 hi,
  (same_iff d probe.expected_manifest_digest).1 hd,
  (eq_iff (current_head p) probe.target_head).1 at,
)

plan-of-Recovers :
    (p : Planner) (s : Store) (probe : Probe)
    → Recovers p s probe
    → (plan p s probe).mode ≡ evidence_recovery
unfolding plan build
plan-of-Recovers p s probe v =
    rw (snapshot-read p probe.target_head v.path v.managed, v.hashed, v.found)
      (rw
        (plan_with-of-Recovers p probe (some v.path) (some v.digest) (some v.journal)
          (ap is_some v.managed) (sym v.expected_identity) (sym v.expected_digest) v.at_target)
        (rw (IsDurable-recovers p probe _ (some v.path) (some v.digest) v.journal v.durable)))

-- The node proposes to recover from evidence, with no execution, exactly when its checkout is at the
-- target, the manifest there is the one that the orchestrator expects, and the journal is a completed
-- success of that target, scope and manifest, linked to an attempt of the retried lineage.
pub plan-recovery_iff :
    (p : Planner) (s : Store) (probe : Probe)
    → Speaks p
    → ((plan p s probe).mode ≡ evidence_recovery) ↔ Recovers p s probe
plan-recovery_iff p s probe speaks = (Recovers-of-plan p s probe speaks, plan-of-Recovers p s probe)

same_mode_sound : (m : Mode) (a : Option Mode) → same_mode m a ≡ true → a ≡ some m
same_mode_sound execute (some execute) h = refl
same_mode_sound evidence_recovery (some evidence_recovery) h = refl
same_mode_sound fail_closed (some fail_closed) h = refl
same_mode_sound m a h = cc

-- A revalidation that does not fail closed returns the plan of the state that it finds, and that plan
-- has the fingerprint and the mode that were approved.
pub revalidate_approved :
    (p : Planner) (s : Store) (probe : Probe) (a : Approval)
    → (revalidate p s probe a).mode ≢ fail_closed
    → (revalidate p s probe a ≡ plan p s probe)
      × (a.preflight_fingerprint ≡ some (plan p s probe).fingerprint)
      × (a.execution_mode ≡ some (plan p s probe).mode)
unfolding revalidate build
revalidate_approved p s probe a h =
    elim (Bool-cases (same (some (plan p s probe).fingerprint) a.preflight_fingerprint)) [
      | inr e ↦ elim (h (rw e)) [ ]
      | inl e ↦ elim (Bool-cases (same_mode (plan p s probe).mode a.execution_mode)) [
        | inr k ↦ elim (h (rw (e, k))) [ ]
        | inl k ↦ (
          rw (e, k),
          sym ((same_iff (some (plan p s probe).fingerprint) a.preflight_fingerprint).0 e),
          same_mode_sound (plan p s probe).mode a.execution_mode k,
        )
      ]
    ]
