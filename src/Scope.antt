-- ===== src/Scope.antt =====
-- The vocabulary of models.py and the ranks of policy.py: execution scopes and evidence levels.
pub mod Bounds
use locus_mesh.Base.{
  ℕ, String, ◌≡◌, ◌↔◌, Bool, true, false, Option, none, some, List, [], ◌∷◌, arith, Eq, ltb,
  if◌then◌else◌,
}

pub data ExecutionIntent : Type 0 where
  device_only private_mesh public_mesh : ExecutionIntent

pub data EvidenceLevel : Type 0 where
  observed peer_asserted hardware_attested : EvidenceLevel

abbrev pub intent_value : ExecutionIntent → String
intent_value device_only = "device_only"
intent_value private_mesh = "private_mesh"
intent_value public_mesh = "public_mesh"

abbrev pub evidence_value : EvidenceLevel → String
evidence_value observed = "observed"
evidence_value peer_asserted = "peer_asserted"
evidence_value hardware_attested = "hardware_attested"

abbrev pub scope_rank : ExecutionIntent → ℕ
scope_rank device_only = 0
scope_rank private_mesh = 1
scope_rank public_mesh = 2

abbrev pub evidence_rank : EvidenceLevel → ℕ
evidence_rank observed = 0
evidence_rank peer_asserted = 1
evidence_rank hardware_attested = 2

abbrev pub intent_beq : ExecutionIntent → ExecutionIntent → Bool
intent_beq device_only device_only = true
intent_beq private_mesh private_mesh = true
intent_beq public_mesh public_mesh = true
intent_beq _ _ = false

pub intent_beq_iff : (a b : ExecutionIntent) → (intent_beq a b ≡ true) ↔ (a ≡ b)
intent_beq_iff a b = ground arith

instance abbrev pub intent_eq : Eq ExecutionIntent
intent_eq = record { beq = intent_beq; beq_iff = intent_beq_iff }

abbrev pub evidence_beq : EvidenceLevel → EvidenceLevel → Bool
evidence_beq observed observed = true
evidence_beq peer_asserted peer_asserted = true
evidence_beq hardware_attested hardware_attested = true
evidence_beq _ _ = false

pub evidence_beq_iff : (a b : EvidenceLevel) → (evidence_beq a b ≡ true) ↔ (a ≡ b)
evidence_beq_iff a b = ground arith

instance abbrev pub evidence_eq : Eq EvidenceLevel
evidence_eq = record { beq = evidence_beq; beq_iff = evidence_beq_iff }

-- hardware evidence is not implemented, so a claim of it counts as the peer's word
abbrev pub effective_evidence : EvidenceLevel → EvidenceLevel
effective_evidence hardware_attested = peer_asserted
effective_evidence level = level

-- max(scopes, key=rank), which keeps the first of equals
max_scope : ExecutionIntent → List ExecutionIntent → ExecutionIntent
max_scope best [] = best
max_scope best (s ∷ scopes) =
    max_scope (if ltb (scope_rank best) (scope_rank s) then s else best) scopes

min_evidence : EvidenceLevel → List EvidenceLevel → EvidenceLevel
min_evidence least [] = least
min_evidence least (e ∷ levels) =
    min_evidence (if ltb (evidence_rank e) (evidence_rank least) then e else least) levels

unfoldable pub minimum_scope : List ExecutionIntent → Option ExecutionIntent
unfolding max_scope
minimum_scope [] = none
minimum_scope (s ∷ scopes) = some (max_scope s scopes)

unfoldable pub minimum_evidence : List EvidenceLevel → Option EvidenceLevel
unfolding min_evidence
minimum_evidence [] = none
minimum_evidence (e ∷ levels) = some (min_evidence e levels)
