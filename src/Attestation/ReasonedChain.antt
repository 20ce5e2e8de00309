-- ===== src/Attestation/ReasonedChain.antt =====
-- verify_attestation of attestation.py: the reasons of its loop follow the table of causes.
use mathlib.Core.List.{append_assoc, append-nil}
use locus_mesh.Base.{
  ℕ, suc, String, ◌≡◌, sym, ap, ◌∙◌, subst, inl, inr, Option, none, some, List, [], ◌∷◌, ◌++◌,
  get_elem?, nat_eq, string_eq, Option-cases, Table, Explains, explain_none, explain_both,
  explain_one,
}
use locus_mesh.Fail.{ok, bind-eq-ok, ok-injective}
use locus_mesh.Runtime.{Runtime, DateTime}
use locus_mesh.Crypto.{derive_key_id}
use locus_mesh.Models.Topology.{PeerManifest, AdmissionPolicy, floor_of}
use locus_mesh.Models.Route.{RoutePlan, HopReceipt}
use locus_mesh.Policy.Admit.{peer_of}
use locus_mesh.Attestation.Verify.{Trail, required_floor, check_receipt, check_receipts}
use locus_mesh.Attestation.Chain.{floor-eq-ok}
use locus_mesh.Attestation.Causes.{receipt_causes, chain_causes}
use locus_mesh.Attestation.Reasoned.{
  exact_fields-Explains, moment_reasons-Explains, key_reasons-Explains, evidence_reasons-Explains,
}

same_trail :
    {t t' : Trail} {table : Table} → t ≡ t' → Explains t.reasons table → Explains t'.reasons table
same_trail {t} {t'} {table} e h = subst (λ (x : Trail). Explains x.reasons table) e h

module _ (rt : Runtime) (plan : RoutePlan) (policy : AdmissionPolicy) (now : DateTime) where
  check_receipt-Explains :
      (index : ℕ) (peer_id : String) (manifest : Option PeerManifest) (r : HopReceipt)
      (t t' : Trail) (table : Table)
      → check_receipt rt plan policy now index peer_id manifest r t ≡ ok t'
      → Explains t.reasons table
      → Explains t'.reasons
          (table ++ receipt_causes rt plan policy now index peer_id manifest t.previous r)
        × (t'.previous ≡ some r)
  unfolding check_receipt
  check_receipt-Explains index peer_id none r t t' table h before = (
    same_trail (ok-injective h) (
        explain_both before (
          explain_both (exact_fields-Explains rt plan policy now index peer_id t.previous r)
            (explain_one _ tt explain_none))),
    sym (ap (λ (x : Trail). x.previous) (ok-injective h)),
  )
  check_receipt-Explains index peer_id (some manifest) r t t' table h before =
      let (required, floor, made) =
        bind-eq-ok
          (required_floor rt plan policy now (floor_of plan.intent policy.minimum_evidence)) _ h in
      (
        same_trail (ok-injective made) (
            explain_both before (
              explain_both (exact_fields-Explains rt plan policy now index peer_id t.previous r) (
                explain_both (moment_reasons-Explains rt plan policy now manifest t.previous r) (
                  explain_both
                    (key_reasons-Explains rt plan policy now manifest r
                      (derive_key_id rt manifest.public_key))
                    (evidence_reasons-Explains rt plan policy now manifest r required
                      (floor-eq-ok rt plan policy now _ floor)))))),
        sym (ap (λ (x : Trail). x.previous) (ok-injective made)),
      )

  pub check_receipts-Explains :
      (index : ℕ) (receipts : List HopReceipt) (t t' : Trail) (table : Table)
      → check_receipts rt plan policy now index receipts t ≡ ok t'
      → Explains t.reasons table
      → Explains t'.reasons (table ++ chain_causes rt plan policy now index t.previous receipts)
  unfolding check_receipts chain_causes
  check_receipts-Explains index [] t t' table h before =
      same_trail (ok-injective h) (subst (Explains t.reasons) (sym (append-nil table)) before)
  check_receipts-Explains index (r ∷ receipts) t t' table h before =
      elim (Option-cases (get_elem? plan.hop_peer_ids index)) [
        | inl beyond ↦
            rw (beyond, chain_causes)
              (same_trail (ok-injective (rw (beyond, check_receipts) at h))
                (explain_both before (explain_one "EXTRA_RECEIPT" tt explain_none)))
        | inr (peer_id, found) ↦
            let (t1, first, rest) =
              bind-eq-ok
                (check_receipt rt plan policy now index peer_id
                  (peer_of peer_id policy.topology.peers) r t)
                (check_receipts rt plan policy now (suc index) receipts)
                (rw (found, check_receipts) at h) in
            let (here, last) = check_receipt-Explains index peer_id _ r t t1 table first before in
            let later = check_receipts-Explains (suc index) receipts t1 t' _ rest here in
            let causes =
              receipt_causes rt plan policy now index peer_id
                (peer_of peer_id policy.topology.peers) t.previous r in
            rw (found, chain_causes)
              (subst (Explains t'.reasons)
                (append_assoc table causes _
                  ∙ ap
                      (λ o.
                        table ++ (causes ++ chain_causes rt plan policy now (suc index) o receipts))
                      last)
                later)
      ]
