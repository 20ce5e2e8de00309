-- ===== src/Scope/Bounds.antt =====
-- `_minimum_scope` is the widest of the scopes, `_minimum_evidence` the weakest of the levels.
use locus_mesh.Base.{◌≤◌, ◌≡◌, refl, some, List, [], ◌∷◌, arith, All, Bool-cases, inl, inr, ltb}
use locus_mesh.Scope.{
  ExecutionIntent, EvidenceLevel, scope_rank, evidence_rank, max_scope, min_evidence, minimum_scope,
  minimum_evidence,
}

-- What holds of all scopes in the list holds of this one, and none of them is wider.
pub record IsWidest (P : ExecutionIntent → Type 0) (scopes : List ExecutionIntent)
    (scope : ExecutionIntent) : Type 0 where
  pub kept : P scope
  pub widest : All (λ s. scope_rank s ≤ scope_rank scope) scopes

pub record IsWeakest (P : EvidenceLevel → Type 0) (levels : List EvidenceLevel)
    (level : EvidenceLevel) : Type 0 where
  pub kept : P level
  pub weakest : All (λ e. evidence_rank level ≤ evidence_rank e) levels

module _ (P : ExecutionIntent → Type 0) where
  max_scope-IsWidest :
      (best : ExecutionIntent) (scopes : List ExecutionIntent)
      → P best
      → All P scopes
      → IsWidest P (best ∷ scopes) (max_scope best scopes)
  unfolding max_scope
  max_scope-IsWidest best [] p h = record { kept = p; widest = (omega arith, tt) }
  max_scope-IsWidest best (s ∷ scopes) p h =
      elim (Bool-cases (ltb (scope_rank best) (scope_rank s))) [
        | inl below ↦
            let rest = max_scope-IsWidest s scopes h.0 h.1 in
            let small : scope_rank best ≤ scope_rank s = ground arith in
            rw below (record {
              kept = rest.kept;
              widest = (omega (arith, small, rest.widest.0), rest.widest);
            })
        | inr not_below ↦
            let rest = max_scope-IsWidest best scopes p h.1 in
            let small : scope_rank s ≤ scope_rank best = ground arith in
            rw not_below (record {
              kept = rest.kept;
              widest = (rest.widest.0, (omega (arith, small, rest.widest.0), rest.widest.1));
            })
      ]

  pub minimum_scope-IsWidest :
      (scope : ExecutionIntent) (scopes : List ExecutionIntent)
      → All P (scope ∷ scopes)
      → (widest : ExecutionIntent) × (minimum_scope (scope ∷ scopes) ≡ some widest)
        × IsWidest P (scope ∷ scopes) widest
  unfolding minimum_scope
  minimum_scope-IsWidest scope scopes h =
      (max_scope scope scopes, refl, max_scope-IsWidest scope scopes h.0 h.1)

module _ (P : EvidenceLevel → Type 0) where
  min_evidence-IsWeakest :
      (least : EvidenceLevel) (levels : List EvidenceLevel)
      → P least
      → All P levels
      → IsWeakest P (least ∷ levels) (min_evidence least levels)
  unfolding min_evidence
  min_evidence-IsWeakest least [] p h = record { kept = p; weakest = (omega arith, tt) }
  min_evidence-IsWeakest least (e ∷ levels) p h =
      elim (Bool-cases (ltb (evidence_rank e) (evidence_rank least))) [
        | inl below ↦
            let rest = min_evidence-IsWeakest e levels h.0 h.1 in
            let small : evidence_rank e ≤ evidence_rank least = ground arith in
            rw below (record {
              kept = rest.kept;
              weakest = (omega (arith, small, rest.weakest.0), rest.weakest);
            })
        | inr not_below ↦
            let rest = min_evidence-IsWeakest least levels p h.1 in
            let small : evidence_rank least ≤ evidence_rank e = ground arith in
            rw not_below (record {
              kept = rest.kept;
              weakest = (rest.weakest.0, (omega (arith, small, rest.weakest.0), rest.weakest.1));
            })
      ]

  pub minimum_evidence-IsWeakest :
      (level : EvidenceLevel) (levels : List EvidenceLevel)
      → All P (level ∷ levels)
      → (weakest : EvidenceLevel) × (minimum_evidence (level ∷ levels) ≡ some weakest)
        × IsWeakest P (level ∷ levels) weakest
  unfolding minimum_evidence
  minimum_evidence-IsWeakest level levels h =
      (min_evidence level levels, refl, min_evidence-IsWeakest level levels h.0 h.1)
