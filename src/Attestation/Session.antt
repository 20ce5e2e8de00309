-- ===== src/Attestation/Session.antt =====
-- Verifications one after the other on one replay store.
use mathlib.Core.Bool.{false≢true}
use locus_mesh.Base.{
  String, ◌≡◌, refl, ap, sym, ◌∙◌, subst, ◌⊎◌, inl, inr, Bool, true, false, Option, none, some,
  arith, is_empty, Bool-cases, if-cases, eq_iff, string_eq,
}
use locus_mesh.Fail.{ok, ok-injective, bind-eq-ok}
use locus_mesh.Runtime.{Runtime, DateTime}
use locus_mesh.Scope.{minimum_evidence}
use locus_mesh.Models.Topology.{AdmissionPolicy}
use locus_mesh.Models.Route.{RouteAttestation}
use locus_mesh.Models.Decision.{AdmissionDecision}
use locus_mesh.Policy.Admit.{admit_plan}
use locus_mesh.Replay.{ReplayStore, SqliteReplayStore, connect, has_nonce, close, sqlite_port}
use locus_mesh.Replay.Laws.{Recorded, record_if_new_lem, connect_keeps, close_keeps}
use locus_mesh.Attestation.Verify.{
  Trail, check_receipts, consult, least_evidence, start, finish, conclude, attestation_hash, deny,
  verify_attestation,
}

module _ {S : Type 0} (rt : Runtime) (attestation : RouteAttestation) (policy : AdmissionPolicy)
    (now : DateTime) (store : Option (ReplayStore S)) where
  abbrev Asked : S → Bool → S → Type 0
  Asked s fresh s' =
      consult store attestation.plan.nonce attestation.plan.request_commitment
        (attestation_hash rt attestation policy now store) s
      ≡ ok (fresh, s')

  -- Either nothing was asked and nothing admitted, or the store was asked once.
  abbrev Ended : S → AdmissionDecision → S → Type 0
  Ended s d s' =
      ((d.admitted ≡ false) × (s' ≡ s))
      ⊎ ((fresh : Bool) × Asked s fresh s' × (d.admitted ≡ true → fresh ≡ true))

  finish_inv :
      (fresh : Bool) (base : AdmissionDecision) (t : Trail) (s s' : S) {d : AdmissionDecision}
      → finish rt attestation policy now store fresh base t s ≡ ok (d, s')
      → (s ≡ s') × (d.admitted ≡ true → fresh ≡ true)
  unfolding finish deny
  finish_inv true base t s s' h =
      let (level, least, made) = bind-eq-ok (least_evidence (minimum_evidence t.evidence)) _ h in
      (ap (λ (p : AdmissionDecision × S). p.1) (ok-injective made), λ a. refl)
  finish_inv false base t s s' h =
      let e = ok-injective h in
      (
        ap (λ (p : AdmissionDecision × S). p.1) e,
        λ a. ap (λ (p : AdmissionDecision × S). p.0.admitted) e ∙ a,
      )

  conclude_inv :
      (base : AdmissionDecision) (t : Trail) (s s' : S) {d : AdmissionDecision}
      → conclude rt attestation policy now store base t s ≡ ok (d, s')
      → Ended s d s'
  unfolding conclude deny
  conclude_inv base t s s' {d} h = elim (Bool-cases (is_empty t.reasons)) [
    | inl empty ↦
        let ((fresh, s1), asked, finished) = bind-eq-ok _ _ (rw empty at h) in
        let (same, only) = finish_inv fresh base t s1 s' finished in
        inr (fresh, subst (Asked s fresh) same asked, only)
    | inr found ↦
        let e = ok-injective (rw found at h) in
        inl (
          sym (ap (λ (p : AdmissionDecision × S). p.0.admitted) e),
          sym (ap (λ (p : AdmissionDecision × S). p.1) e),
        )
  ]

  pub verify_inv :
      (s s' : S) {d : AdmissionDecision}
      → verify_attestation rt attestation policy now store s ≡ ok (d, s')
      → Ended s d s'
  unfolding verify_attestation
  verify_inv s s' {d} h =
      let (base, decided, rest) = bind-eq-ok (admit_plan rt attestation.plan policy now) _ h in
      elim (if-cases base.admitted _ _ rest) [
        | inl (admitted, go) ↦
            let (t, ran, ended) =
              bind-eq-ok
                (check_receipts rt attestation.plan policy now 0 attestation.receipts
                  (start rt attestation policy now store))
                (λ t. conclude rt attestation policy now store base t s) go in
            conclude_inv base t s s' ended
        | inr (denied, made) ↦
            let e = ok-injective made in
            inl (
              sym (ap (λ (p : AdmissionDecision × S). p.0.admitted) e) ∙ denied,
              sym (ap (λ (p : AdmissionDecision × S). p.1) e),
            )
      ]

-- A nonce that the next call on the store will see.
abbrev pub Remembers : String → SqliteReplayStore → Type 0
Remembers nonce s = has_nonce nonce (connect s).rows ≡ true

-- The life of a store on a file: verifications that return, whatever they answer, and closings.
pub data Session (rt : Runtime) (s : SqliteReplayStore) : SqliteReplayStore → Type 0 where
  begin : Session rt s s
  verify :
      {s1 s2 : SqliteReplayStore} {d : AdmissionDecision} (attestation : RouteAttestation)
      (policy : AdmissionPolicy) (now : DateTime)
      → Session rt s s1
      → verify_attestation rt attestation policy now (some (sqlite_port none)) s1 ≡ ok (d, s2)
      → Session rt s s2
  reopen : {s1 : SqliteReplayStore} → Session rt s s1 → s1.memory ≡ false → Session rt s (close s1)

module _ (rt : Runtime) (attestation : RouteAttestation) (policy : AdmissionPolicy)
    (now : DateTime) where
  abbrev Run : SqliteReplayStore → AdmissionDecision → SqliteReplayStore → Type 0
  Run s d s' = verify_attestation rt attestation policy now (some (sqlite_port none)) s ≡ ok (d, s')

  -- The answer of the store in such a run.
  pub Asked-Recorded :
      (s s' : SqliteReplayStore) (fresh : Bool)
      → Asked rt attestation policy now (some (sqlite_port none)) s fresh s'
      → Recorded attestation.plan.nonce s fresh s'
  unfolding consult sqlite_port
  Asked-Recorded s s' fresh asked =
      let (fresh', after, made, recorded) =
        record_if_new_lem attestation.plan.nonce attestation.plan.request_commitment
          (attestation_hash rt attestation policy now (some (sqlite_port none))) s in
      let e = ok-injective (sym made ∙ asked) in
      subst (λ (p : Bool × SqliteReplayStore). Recorded attestation.plan.nonce s p.0 p.1) e recorded

  Run-keeps :
      (nonce : String) (s s' : SqliteReplayStore) {d : AdmissionDecision}
      → Run s d s'
      → Remembers nonce s
      → Remembers nonce s'
  Run-keeps nonce s s' ran known =
      elim (verify_inv rt attestation policy now (some (sqlite_port none)) s s' ran) [
        | inl (denied, same) ↦ rw same known
        | inr (fresh, asked, only) ↦
            let recorded = Asked-Recorded s s' fresh asked in
            ground (arith, connect_keeps nonce s' recorded.open_after, recorded.stored nonce, known)
      ]

  Run-admits :
      (s s' : SqliteReplayStore) {d : AdmissionDecision}
      → Run s d s'
      → d.admitted ≡ true
      → (has_nonce attestation.plan.nonce (connect s).rows ≡ false)
        × Remembers attestation.plan.nonce s'
  Run-admits s s' ran admitted =
      elim (verify_inv rt attestation policy now (some (sqlite_port none)) s s' ran) [
        | inl (denied, same) ↦ absurd (false≢true (sym denied ∙ admitted))
        | inr (fresh, asked, only) ↦
            let recorded = Asked-Recorded s s' fresh asked in
            let nonce = attestation.plan.nonce in
            (
              ground (arith, recorded.answer, only admitted),
              ground (
                arith,
                connect_keeps nonce s' recorded.open_after,
                recorded.stored nonce,
                eq_iff nonce nonce,
              ),
            )
      ]

Session-keeps :
    (rt : Runtime) (nonce : String) {s s' : SqliteReplayStore}
    → Session rt s s'
    → Remembers nonce s
    → Remembers nonce s'
Session-keeps rt nonce begin known = known
Session-keeps rt nonce (verify {s1 = s1} {s2 = s2} attestation policy now session ran) known =
    Run-keeps rt attestation policy now nonce s1 s2 ran (Session-keeps rt nonce session known)
Session-keeps rt nonce (reopen {s1 = s1} session file) known =
    close_keeps nonce s1 file ∙ Session-keeps rt nonce session known

-- Once an attestation is admitted on a store, no attestation with its nonce is admitted again, after
-- any verifications and closings of the file in between, under any policies and times.
pub admitted_once :
    (rt : Runtime) (first second : RouteAttestation) (policy1 policy2 : AdmissionPolicy)
    (now1 now2 : DateTime) (s s1 s2 s3 : SqliteReplayStore) (d1 d2 : AdmissionDecision)
    → verify_attestation rt first policy1 now1 (some (sqlite_port none)) s ≡ ok (d1, s1)
    → d1.admitted ≡ true
    → Session rt s1 s2
    → second.plan.nonce ≡ first.plan.nonce
    → verify_attestation rt second policy2 now2 (some (sqlite_port none)) s2 ≡ ok (d2, s3)
    → d2.admitted ≡ false
admitted_once rt first second policy1 policy2 now1 now2 s s1 s2 s3 d1 d2 ran admitted session same
      again =
    let (_, known) = Run-admits rt first policy1 now1 s s1 ran admitted in
    let later = Session-keeps rt first.plan.nonce session known in
    elim (Bool-cases d2.admitted) [
      | inr denied ↦ denied
      | inl accepted ↦
          let (new, _) = Run-admits rt second policy2 now2 s2 s3 again accepted in
          absurd
            (false≢true (sym (subst (λ n. has_nonce n (connect s2).rows ≡ false) same new) ∙ later))
    ]
