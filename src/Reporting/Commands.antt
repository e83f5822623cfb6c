-- ===== src/Reporting/Commands.antt =====
-- src/reporting-evidence/service.ts: what each command asks for, does to the report, and publishes.
use onyx_ifem.Prelude.{
  suc, Bool, true, false, not, ◌||◌, Option, none, some, String, List, [], ◌∷◌, ◌++◌, ◌==◌,
  if◌then◌else◌,
}
use onyx_ifem.Json.{Json, field, done, get}
use onyx_ifem.Contracts.Errors.{
  Result, ok, onyx, version_conflict, not_found, invalid_state_transition, ◌>>◌, throw_if,
}
use onyx_ifem.Services.Envelopes.{
  CommandEnvelope, natural_of, optional_text, json_of, at, authority, organization_id,
}
use onyx_ifem.Reporting.Types.{
  Report, ReportStatus, draft, submitted, approved, rejected, archived, status_name, EvidenceRecord,
  EvidenceStatus, added, verified, refuted, ReportingCommandType, create_report, add_evidence,
  verify_evidence, reject_evidence, submit_report, approve_report, reject_report, archive_report,
  type_name,
}

-- The scope that each command asks for.
abbrev pub scope_of : ReportingCommandType → String
scope_of create_report = "reporting-evidence:create"
scope_of add_evidence = "reporting-evidence:evidence:add"
scope_of verify_evidence = "reporting-evidence:evidence:verify"
scope_of reject_evidence = "reporting-evidence:evidence:reject"
scope_of submit_report = "reporting-evidence:submit"
scope_of approve_report = "reporting-evidence:approve"
scope_of reject_report = "reporting-evidence:reject"
scope_of archive_report = "reporting-evidence:archive"

-- The states that `#mutate` is called with.
abbrev pub allowed_from : ReportingCommandType → List ReportStatus
allowed_from create_report = []
allowed_from add_evidence = draft ∷ rejected ∷ []
allowed_from verify_evidence = draft ∷ rejected ∷ []
allowed_from reject_evidence = draft ∷ rejected ∷ []
allowed_from submit_report = draft ∷ rejected ∷ []
allowed_from approve_report = submitted ∷ []
allowed_from reject_report = submitted ∷ []
allowed_from archive_report = approved ∷ rejected ∷ []

-- `allowed.includes(report.status)`, by the names of the states.
abbrev pub includes_status : List ReportStatus → ReportStatus → Bool
includes_status [] s = false
includes_status (t ∷ ts) s = (status_name t == status_name s) || includes_status ts s

-- The type of the event that each command publishes.
abbrev pub event_type_of : ReportingCommandType → String
event_type_of create_report = "ReportCreated"
event_type_of add_evidence = "EvidenceAdded"
event_type_of verify_evidence = "EvidenceVerified"
event_type_of reject_evidence = "EvidenceRejected"
event_type_of submit_report = "ReportSubmitted"
event_type_of approve_report = "ReportApproved"
event_type_of reject_report = "ReportRejected"
event_type_of archive_report = "ReportArchived"

-- `report.evidence[id]` is there.
unfoldable pub has_evidence : String → List EvidenceRecord → Bool
has_evidence i [] = false
has_evidence i (e ∷ es) = (e.evidence_id == i) || has_evidence i es

-- `report.evidence[id].status = status`
unfoldable pub set_status : String → EvidenceStatus → List EvidenceRecord → List EvidenceRecord
set_status i status [] = []
set_status i status (e ∷ es) =
    (if e.evidence_id == i then record e { status = status } else e) ∷ set_status i status es

abbrev pub is_verified : EvidenceStatus → Bool
is_verified verified = true
is_verified _ = false

-- `Object.values(report.evidence).some((item) => item.status === "VERIFIED")`
unfoldable pub some_verified : List EvidenceRecord → Bool
some_verified [] = false
some_verified (e ∷ es) = is_verified e.status || some_verified es

abbrev new_evidence : CommandEnvelope → EvidenceRecord
new_evidence c = record {
  evidence_id = at "evidence_id" c;
  evidence_type = at "evidence_type" c;
  uri = at "uri" c;
  content_hash = json_of (get "content_hash" c.payload);
  description = optional_text (get "description" c.payload);
  status = added;
}

abbrev judged : String → CommandEnvelope → Json
judged status c = Json.object (
    field "evidence_id" (Json.text (at "evidence_id" c))
      (field "verification_status" (Json.text status) done))

abbrev moves : ReportStatus → Json
moves status = Json.object (field "new_status" (Json.text (status_name status)) done)

-- VerifyEvidence and RejectEvidence.
abbrev judge : EvidenceStatus → String → CommandEnvelope → Report → Result (Report × Json)
judge status name c r = do
  throw_if (not (has_evidence (at "evidence_id" c) r.evidence))
      (onyx not_found "evidence not found")
  ok (record r { evidence = set_status (at "evidence_id" c) status r.evidence }, judged name c)

-- The change that `#mutate` is called with, and the payload that it returns. `#create` changes none.
unfoldable pub change : ReportingCommandType → CommandEnvelope → Report → Result (Report × Json)
unfolding has_evidence set_status some_verified
change create_report c r = ok (r, Json.object c.payload)
change add_evidence c r = do
  throw_if (has_evidence (at "evidence_id" c) r.evidence)
      (onyx version_conflict "evidence already exists")
  ok (record r { evidence = r.evidence ++ new_evidence c ∷ [] }, Json.object c.payload)
change verify_evidence c r = judge verified "VERIFIED" c r
change reject_evidence c r = judge refuted "REJECTED" c r
change submit_report c r = do
  throw_if (not (some_verified r.evidence))
      (onyx invalid_state_transition "at least one verified evidence item is required")
  ok (record r { status = submitted }, moves submitted)
change approve_report c r = ok (record r { status = approved }, moves approved)
change reject_report c r =
    ok (record r { status = rejected; lifecycle_epoch = suc r.lifecycle_epoch }, moves rejected)
change archive_report c r =
    ok (record r { status = archived; lifecycle_epoch = suc r.lifecycle_epoch }, moves archived)

-- The report that `#create` makes.
abbrev pub new_report : CommandEnvelope → Report
new_report c = record {
  report_id = at "report_id" c;
  organization_id = organization_id c;
  report_type = at "report_type" c;
  subject_ref = json_of (get "subject_ref" c.payload);
  author_id = at "author_id" c;
  title = at "title" c;
  version = 1;
  status = draft;
  lifecycle_epoch = 0;
  authority_epoch = natural_of (get "authority_epoch" (authority c));
  evidence = [];
}

-- The cases of the switch in `execute`.
abbrev types_in : List ReportingCommandType → String → Option ReportingCommandType
types_in [] s = none
types_in (type ∷ types) s = if type_name type == s then some type else types_in types s

abbrev pub type_of : String → Option ReportingCommandType
type_of = types_in (
    create_report ∷ add_evidence ∷ verify_evidence ∷ reject_evidence ∷ submit_report
    ∷ approve_report ∷ reject_report ∷ archive_report ∷ [])
