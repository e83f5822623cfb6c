-- ===== src/Reporting/Types.antt =====
-- src/reporting-evidence/types.ts and repository.ts: a report, its evidence, its commands, and reports in a
-- repository. Every report has its state, epochs and evidence; `??=` gives them to one that was stored without.
use onyx_ifem.Prelude.{ℕ, Option, String, List}
use onyx_ifem.Json.{Json, Host}
use onyx_ifem.Services.Store.{Repository, Entry, InMemory, in_memory}
use onyx_ifem.Services.Calls.{Aggregate}

pub data EvidenceStatus : Type 0 where
  added verified refuted : EvidenceStatus

-- The content hash is kept as the JSON value that the payload gives.
pub record EvidenceRecord : Type 0 where
  pub evidence_id : String
  pub evidence_type : String
  pub uri : String
  pub content_hash : Json
  pub description : Option String
  pub status : EvidenceStatus

pub data ReportStatus : Type 0 where
  draft submitted approved rejected archived : ReportStatus

abbrev pub status_name : ReportStatus → String
status_name draft = "DRAFT"
status_name submitted = "SUBMITTED"
status_name approved = "APPROVED"
status_name rejected = "REJECTED"
status_name archived = "ARCHIVED"

-- The evidence is the values of the object, whose keys are their ids, in its order.
pub record Report : Type 0 where
  pub report_id : String
  pub organization_id : String
  pub report_type : String
  pub subject_ref : Json
  pub author_id : String
  pub title : String
  pub version : ℕ
  pub status : ReportStatus
  pub lifecycle_epoch : ℕ
  pub authority_epoch : ℕ
  pub evidence : List EvidenceRecord

-- The types of `ReportingCommand`.
pub data ReportingCommandType : Type 0 where
  create_report add_evidence verify_evidence reject_evidence : ReportingCommandType
  submit_report approve_report reject_report archive_report : ReportingCommandType

abbrev pub type_name : ReportingCommandType → String
type_name create_report = "CreateReport"
type_name add_evidence = "AddEvidence"
type_name verify_evidence = "VerifyEvidence"
type_name reject_evidence = "RejectEvidence"
type_name submit_report = "SubmitReport"
type_name approve_report = "ApproveReport"
type_name reject_report = "RejectReport"
type_name archive_report = "ArchiveReport"

-- `ReportView` names the properties of a report in the style of the wire, and has all of them.
abbrev pub ReportView : Type 0
ReportView = Report

abbrev pub to_report_view : Report → ReportView
to_report_view r = record {
  report_id = r.report_id;
  organization_id = r.organization_id;
  report_type = r.report_type;
  subject_ref = r.subject_ref;
  author_id = r.author_id;
  title = r.title;
  version = r.version;
  status = r.status;
  lifecycle_epoch = r.lifecycle_epoch;
  authority_epoch = r.authority_epoch;
  evidence = r.evidence;
}

-- `ReportingRepository`, over a state `S`.
abbrev pub ReportingRepository : Type 0 → Type 0
ReportingRepository S = Repository Report S

-- What `InMemoryReportingRepository` knows of a report.
abbrev pub report_entry : Entry Report
report_entry = record {
  name = "report";
  id_of = λ r. r.report_id;
  owner_of = λ r. r.organization_id;
}

-- `InMemoryReportingRepository`
abbrev pub in_memory_reports : Host → ReportingRepository (InMemory Report)
in_memory_reports host = in_memory host report_entry

-- What the events of a report tell of it.
abbrev pub report_aggregate : Aggregate Report
report_aggregate = record {
  aggregate_type = "Report";
  head = λ r. record {
    object_id = r.report_id;
    version = r.version;
    lifecycle_epoch = r.lifecycle_epoch;
    authority_epoch = r.authority_epoch;
  };
}
