-- ===== src/Journal/Identity.antt =====
-- The target of a handover is bound once.
use mathlib.Core.Path.{subst}
use haniel.Prelude.{
  List, All, ◌≢◌, ◌∙◌, String, ◌≡◌, refl, true, false, some, eq_iff, eq_refl, same, same_iff,
  Bool-cases, Option-cases, arith, inl, inr,
}
use haniel.Errors.Result.{ok, OnOk}
use haniel.Journal.Record.{Journal, Redaction, redact_attempt, redact_journal}
use haniel.Journal.Path.{Store, safe_name, read, write}
use haniel.Journal.Invariant.{Call, file_of, run}
use haniel.Journal.Retention.{run-frame}
use haniel.Journal.Sound.{read-write}
use haniel.Journal.Handover.{is_resolving, bound_to, bind_with, bind_handover_target}

-- The journal of `repo` is bound to this target, and resolves no other.
record IsBound (repo head release digest : String) (s : Store) : Type 0 where
  journal : Journal
  found : read s repo ≡ some journal
  settled : is_resolving journal.state ≡ false
  bound : bound_to head release digest journal ≡ true

module _ (redaction : Redaction) where
  -- Redaction on the way to the disk leaves the text as it is.
  abbrev pub IsClean : String → Type 0
  IsClean t = redaction.text t ≡ t

  write-IsBound :
      (repo head release digest : String) (s : Store) (k : Journal)
      → IsClean head
      → IsClean release
      → IsClean digest
      → is_resolving k.state ≡ false
      → k.target_head ≡ head
      → k.release_id ≡ release
      → k.manifest_digest ≡ some digest
      → IsBound repo head release digest (write redaction repo k s)
  unfolding redact_journal redact_attempt
  write-IsBound repo head release digest s k ch cr cd settled p q r = record {
    journal = redact_journal redaction k;
    found = rw (read-write redaction repo repo k s, eq_refl) refl;
    settled = settled;
    bound = ground (
      arith,
      p,
      q,
      r,
      ch,
      cr,
      cd,
      eq_iff (redaction.text k.target_head) head,
      eq_iff (redaction.text k.release_id) release,
      eq_iff (redaction.text digest) digest,
    );
  }

  bind-IsBound :
      (now repo request head release digest : String) (s : Store)
      → IsClean head
      → IsClean release
      → IsClean digest
      → OnOk
          (IsBound repo head release digest)
          (bind_handover_target redaction now repo request head release digest s)
  unfolding bind_handover_target bind_with
  bind-IsBound now repo request head release digest s ch cr cd = elim (Option-cases (read s repo)) [
    | inl e ↦ rw (e, bind_with) tt
    | inr (j, e) ↦
        rw (e, bind_with)
          (elim (Bool-cases (same j.request_id (some request))) [
            | inr f ↦ rw f tt
            | inl f ↦ rw f (elim (Bool-cases (is_resolving j.state)) [
              | inl g ↦
                  rw g (write-IsBound repo head release digest s _ ch cr cd refl refl refl refl)
              | inr g ↦ rw g (elim (Bool-cases (bound_to head release digest j)) [
                | inl b ↦ rw b (record { journal = j; found = e; settled = g; bound = b })
                | inr b ↦ rw b tt
              ])
            ])
          ])
  ]

  rebind :
      (later repo request' head release digest head' release' digest' : String) (j : Journal)
      (t u : Store)
      → is_resolving j.state ≡ false
      → bound_to head release digest j ≡ true
      → bind_with redaction later repo request' head' release' digest' (some j) t ≡ ok u
      → (u ≡ t) × (head' ≡ head) × (release' ≡ release) × (digest' ≡ digest)
  unfolding bind_with
  rebind later repo request' head release digest head' release' digest' j t u settled bound k =
      ground (
        arith,
        eq_iff j.target_head head,
        eq_iff j.target_head head',
        eq_iff j.release_id release,
        eq_iff j.release_id release',
        same_iff j.manifest_digest (some digest),
        same_iff j.manifest_digest (some digest'),
      )

  -- Once a call has bound a target (of texts that redaction leaves alone), and whatever calls write
  -- other files after it, the next call that succeeds in binding a target names the same head, release
  -- and digest, and changes nothing.
  pub bind_once :
      (now later repo request request' head release digest head' release' digest' : String)
      (calls : List Call) (s t u : Store)
      → IsClean head
      → IsClean release
      → IsClean digest
      → All (λ call. file_of call ≢ safe_name repo) calls
      → bind_handover_target redaction now repo request head release digest s ≡ ok t
      → bind_handover_target redaction later repo request' head' release' digest'
          (run redaction calls t)
        ≡ ok u
      → (u ≡ run redaction calls t) × (head' ≡ head) × (release' ≡ release) × (digest' ≡ digest)
  bind_once now later repo request request' head release digest head' release' digest' calls s t u
        ch cr cd apart h k =
      let v =
        subst (OnOk (IsBound repo head release digest)) h
          (bind-IsBound now repo request head release digest s ch cr cd) in
      let found = run-frame redaction calls t repo apart ∙ v.found in
      rebind later repo request' head release digest head' release' digest' v.journal
        (run redaction calls t) u v.settled v.bound (unfold bind_handover_target in rw found at k)
