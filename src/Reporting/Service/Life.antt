-- ===== src/Reporting/Service/Life.antt =====
-- The life of a report: the diagram of its states, its evidence under review, and the steps that the changes are.
use onyx_ifem.Prelude.{
  ℕ, suc, ◌≡◌, refl, ◌⊎◌, subst, Bool, true, false, not, ◌||◌, List, if◌then◌else◌, inl, inr,
}
use onyx_ifem.Json.{Json}
use onyx_ifem.Contracts.Errors.{ok, throw_if-eq-ok, ok-injective}
use onyx_ifem.Services.Envelopes.{CommandEnvelope, at}
use onyx_ifem.Reporting.Types.{
  ReportingCommandType, create_report, add_evidence, verify_evidence, reject_evidence,
  submit_report, approve_report, reject_report, archive_report, Report, ReportStatus, draft,
  submitted, approved, rejected, archived, EvidenceRecord,
}
use onyx_ifem.Reporting.Commands.{
  change, allowed_from, includes_status, has_evidence, some_verified,
}
use onyx_ifem.Reporting.Service.{next_version}

-- The states in which evidence is gathered.
pub data IsOpen : ReportStatus → Type 0 where
  draft_open : IsOpen draft
  rejected_open : IsOpen rejected

-- The diagram: which command leads from which state to which.
pub data Leads : ReportStatus → ReportingCommandType → ReportStatus → Type 0 where
  adds : {s : ReportStatus} → IsOpen s → Leads s add_evidence s
  verifies : {s : ReportStatus} → IsOpen s → Leads s verify_evidence s
  refutes : {s : ReportStatus} → IsOpen s → Leads s reject_evidence s
  submits : {s : ReportStatus} → IsOpen s → Leads s submit_report submitted
  approves : Leads submitted approve_report approved
  rejects : Leads submitted reject_report rejected
  archives : Leads approved archive_report archived
  archives_rejected : Leads rejected archive_report archived

abbrev target_of : ReportingCommandType → ReportStatus → ReportStatus
target_of submit_report s = submitted
target_of approve_report s = approved
target_of reject_report s = rejected
target_of archive_report s = archived
target_of _ s = s

Leads-target_of :
    (type : ReportingCommandType) (s : ReportStatus)
    → includes_status (allowed_from type) s ≡ true
    → Leads s type (target_of type s)
Leads-target_of add_evidence draft h = adds draft_open
Leads-target_of add_evidence rejected h = adds rejected_open
Leads-target_of verify_evidence draft h = verifies draft_open
Leads-target_of verify_evidence rejected h = verifies rejected_open
Leads-target_of reject_evidence draft h = refutes draft_open
Leads-target_of reject_evidence rejected h = refutes rejected_open
Leads-target_of submit_report draft h = submits draft_open
Leads-target_of submit_report rejected h = submits rejected_open
Leads-target_of approve_report submitted h = approves
Leads-target_of reject_report submitted h = rejects
Leads-target_of archive_report approved h = archives
Leads-target_of archive_report rejected h = archives_rejected
Leads-target_of type s h = cc

abbrev pub is_under_review : ReportStatus → Bool
is_under_review submitted = true
is_under_review approved = true
is_under_review _ = false

-- A report that is submitted or approved has evidence that is verified.
abbrev is_supported : ReportStatus → List EvidenceRecord → Bool
is_supported s es = not (is_under_review s) || some_verified es

abbrev pub IsSupported : Report → Type 0
IsSupported r = is_supported r.status r.evidence ≡ true

-- The commands that edit the evidence.
abbrev pub gathers : ReportingCommandType → Bool
gathers add_evidence = true
gathers verify_evidence = true
gathers reject_evidence = true
gathers _ = false

abbrev pub is_submission : ReportingCommandType → Bool
is_submission submit_report = true
is_submission _ = false

-- The commands that end a period of a report's life.
abbrev pub ends_epoch : ReportingCommandType → Bool
ends_epoch reject_report = true
ends_epoch archive_report = true
ends_epoch _ = false

-- One step of a report's life.
pub record IsStep (type : ReportingCommandType) (r r' : Report) : Type 0 where
  pub leads : Leads r.status type r'.status
  pub has_verified : (not (is_submission type) || some_verified r.evidence) ≡ true
  pub next_version : r'.version ≡ suc r.version
  pub next_epoch :
      r'.lifecycle_epoch ≡ (if ends_epoch type then suc r.lifecycle_epoch else r.lifecycle_epoch)
  pub same_evidence : (gathers type ≡ true) ⊎ (r'.evidence ≡ r.evidence)
  pub same_report : r'.report_id ≡ r.report_id
  pub same_organization : r'.organization_id ≡ r.organization_id
  pub same_authority : r'.authority_epoch ≡ r.authority_epoch

step_supported :
    {s s' : ReportStatus} {es es' : List EvidenceRecord} {type : ReportingCommandType}
    → Leads s type s'
    → (not (is_submission type) || some_verified es) ≡ true
    → (gathers type ≡ true) ⊎ (es' ≡ es)
    → is_supported s es ≡ true
    → is_supported s' es' ≡ true
step_supported (adds draft_open) h k v = refl
step_supported (adds rejected_open) h k v = refl
step_supported (verifies draft_open) h k v = refl
step_supported (verifies rejected_open) h k v = refl
step_supported (refutes draft_open) h k v = refl
step_supported (refutes rejected_open) h k v = refl
step_supported (submits o) h (inl k) v = cc
step_supported (submits o) h (inr k) v = rw k h
step_supported approves h (inl k) v = cc
step_supported approves h (inr k) v = rw k v
step_supported rejects h k v = refl
step_supported archives h k v = refl
step_supported archives_rejected h k v = refl

-- A step leaves no report under review without verified evidence.
pub IsStep-IsSupported :
    (type : ReportingCommandType) (r r' : Report)
    → IsStep type r r'
    → IsSupported r
    → IsSupported r'
IsStep-IsSupported type r r' step v =
    step_supported step.leads step.has_verified step.same_evidence v

pub not-eq-false : (b : Bool) → not b ≡ false → b ≡ true
not-eq-false true h = refl
not-eq-false false h = cc

-- A report that comes to another state with the same evidence.
moved :
    (type : ReportingCommandType) (r : Report) (s : ReportStatus) (epoch : ℕ)
    → Leads r.status type s
    → (not (is_submission type) || some_verified r.evidence) ≡ true
    → epoch ≡ (if ends_epoch type then suc r.lifecycle_epoch else r.lifecycle_epoch)
    → IsStep type r (next_version (record r { status = s; lifecycle_epoch = epoch }))
moved type r s epoch leads verified_ next_epoch = record {
  leads = leads;
  has_verified = verified_;
  next_version = refl;
  next_epoch = next_epoch;
  same_evidence = inr refl;
  same_report = refl;
  same_organization = refl;
  same_authority = refl;
}

-- A report whose evidence is edited.
module _ (type : ReportingCommandType) (r : Report) (es : List EvidenceRecord)
    (stays : Leads r.status type r.status) (keeps : ends_epoch type ≡ false)
    (no_submission : is_submission type ≡ false) (edits : gathers type ≡ true) where
  gathered : IsStep type r (next_version (record r { evidence = es }))
  gathered = record {
    leads = stays;
    has_verified = rw no_submission refl;
    next_version = refl;
    next_epoch = rw keeps refl;
    same_evidence = inl edits;
    same_report = refl;
    same_organization = refl;
    same_authority = refl;
  }

pub change-IsStep :
    (type : ReportingCommandType) (c : CommandEnvelope) (r r' : Report) (payload : Json)
    → includes_status (allowed_from type) r.status ≡ true
    → change type c r ≡ ok (r', payload)
    → IsStep type r (next_version r')
unfolding change
change-IsStep create_report c r r' payload a h = cc
change-IsStep add_evidence c r r' payload a h =
    let (_, h1) = throw_if-eq-ok (has_evidence (at "evidence_id" c) r.evidence) _ _ h in
    subst (λ x. IsStep add_evidence r (next_version (x.0))) (ok-injective h1)
      (gathered add_evidence r _ (Leads-target_of add_evidence r.status a) refl refl refl)
change-IsStep verify_evidence c r r' payload a h =
    let (_, h1) = throw_if-eq-ok (not (has_evidence (at "evidence_id" c) r.evidence)) _ _ h in
    subst (λ x. IsStep verify_evidence r (next_version (x.0))) (ok-injective h1)
      (gathered verify_evidence r _ (Leads-target_of verify_evidence r.status a) refl refl refl)
change-IsStep reject_evidence c r r' payload a h =
    let (_, h1) = throw_if-eq-ok (not (has_evidence (at "evidence_id" c) r.evidence)) _ _ h in
    subst (λ x. IsStep reject_evidence r (next_version (x.0))) (ok-injective h1)
      (gathered reject_evidence r _ (Leads-target_of reject_evidence r.status a) refl refl refl)
change-IsStep submit_report c r r' payload a h =
    let (missing, h1) = throw_if-eq-ok (not (some_verified r.evidence)) _ _ h in
    subst (λ x. IsStep submit_report r (next_version (x.0))) (ok-injective h1)
      (moved submit_report r submitted _ (Leads-target_of submit_report r.status a)
        (not-eq-false _ missing) refl)
change-IsStep approve_report c r r' payload a h =
    subst (λ x. IsStep approve_report r (next_version (x.0))) (ok-injective h)
      (moved approve_report r approved _ (Leads-target_of approve_report r.status a) refl refl)
change-IsStep reject_report c r r' payload a h =
    subst (λ x. IsStep reject_report r (next_version (x.0))) (ok-injective h)
      (moved reject_report r rejected _ (Leads-target_of reject_report r.status a) refl refl)
change-IsStep archive_report c r r' payload a h =
    subst (λ x. IsStep archive_report r (next_version (x.0))) (ok-injective h)
      (moved archive_report r archived _ (Leads-target_of archive_report r.status a) refl refl)
