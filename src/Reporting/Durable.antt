-- ===== src/Reporting/Durable.antt =====
-- src/reporting-evidence/sqlite-repository.ts: the reports in the SQLite store. The keys of a stored report are
-- those of the record `Report`; the order of the keys of an evidence record, which nothing reads, puts the
-- optional one at the end.
use onyx_ifem.Prelude.{
  ℕ, ◌≡◌, refl, ap, ◌∙◌, Option, none, some, String, List, [], ◌∷◌, ◌==◌, if◌then◌else◌,
}
use onyx_ifem.Json.{Json, Host, Fields, field, done, get}
use onyx_ifem.Sqlite.Instants.{Instant}
use onyx_ifem.Sqlite.Store.{Store}
use onyx_ifem.Services.Envelopes.{text_of, natural_of, fields_of, json_of, optional_text}
use onyx_ifem.Services.Fields.{with_optional, get_own}
use onyx_ifem.Services.Durable.{Codec, durable}
use onyx_ifem.Reporting.Types.{
  Report, ReportStatus, draft, submitted, approved, rejected, archived, status_name, EvidenceRecord,
  EvidenceStatus, added, verified, refuted, ReportingRepository, report_entry, report_aggregate,
}

abbrev status_in : List ReportStatus → String → ReportStatus
status_in [] s = draft
status_in (t ∷ ts) s = if status_name t == s then t else status_in ts s

abbrev statuses : List ReportStatus
statuses = draft ∷ submitted ∷ approved ∷ rejected ∷ archived ∷ []

status_in-status_name : (t : ReportStatus) → status_in statuses (status_name t) ≡ t
status_in-status_name draft = refl
status_in-status_name submitted = refl
status_in-status_name approved = refl
status_in-status_name rejected = refl
status_in-status_name archived = refl

abbrev pub evidence_status_name : EvidenceStatus → String
evidence_status_name added = "ADDED"
evidence_status_name verified = "VERIFIED"
evidence_status_name refuted = "REJECTED"

abbrev evidence_status_of : String → EvidenceStatus
evidence_status_of s =
    if "VERIFIED" == s then verified else (if "REJECTED" == s then refuted else added)

evidence_status_read : (s : EvidenceStatus) → evidence_status_of (evidence_status_name s) ≡ s
evidence_status_read added = refl
evidence_status_read verified = refl
evidence_status_read refuted = refl

abbrev optional_json : Option String → Option Json
optional_json none = none
optional_json (some s) = some (Json.text s)

optional_text_read : (d : Option String) → optional_text (optional_json d) ≡ d
optional_text_read none = refl
optional_text_read (some s) = refl

-- The optional description.
unfoldable described : Option String → Fields
described d = with_optional "description" (optional_json d) done

description_read : (d : Option String) → optional_text (get "description" (described d)) ≡ d
unfolding described
description_read d =
    ap optional_text (get_own "description" (optional_json d) done refl) ∙ optional_text_read d

unfoldable pub encode_evidence : EvidenceRecord → Json
unfolding described
encode_evidence e = Json.object (
    field "evidenceId" (Json.text e.evidence_id) (
      field "evidenceType" (Json.text e.evidence_type) (
        field "uri" (Json.text e.uri) (
          field "contentHash" e.content_hash (
            field "status" (Json.text (evidence_status_name e.status))
              (described e.description))))))

unfoldable pub decode_evidence : Json → EvidenceRecord
decode_evidence v =
    let fs = fields_of (some v) in
    record {
      evidence_id = text_of (get "evidenceId" fs);
      evidence_type = text_of (get "evidenceType" fs);
      uri = text_of (get "uri" fs);
      content_hash = json_of (get "contentHash" fs);
      description = optional_text (get "description" fs);
      status = evidence_status_of (text_of (get "status" fs));
    }

evidence_read : (e : EvidenceRecord) → decode_evidence (encode_evidence e) ≡ e
unfolding decode_evidence encode_evidence
evidence_read e = rw (description_read e.description, evidence_status_read e.status) refl

-- The object of the evidence records by their ids.
unfoldable pub encode_evidences : List EvidenceRecord → Fields
unfolding encode_evidence
encode_evidences [] = done
encode_evidences (e ∷ es) = field e.evidence_id (encode_evidence e) (encode_evidences es)

-- `Object.values(report.evidence)`
unfoldable pub decode_evidences : Fields → List EvidenceRecord
unfolding decode_evidence
decode_evidences done = []
decode_evidences (field name v fs) = decode_evidence v ∷ decode_evidences fs

evidences_read : (es : List EvidenceRecord) → decode_evidences (encode_evidences es) ≡ es
unfolding decode_evidences encode_evidences
evidences_read [] = refl
evidences_read (e ∷ es) = rw (evidence_read e, evidences_read es) refl

unfoldable pub encode_report : Report → Json
unfolding encode_evidences
encode_report r = Json.object (
    field "reportId" (Json.text r.report_id) (
      field "organizationId" (Json.text r.organization_id) (
        field "reportType" (Json.text r.report_type) (
          field "subjectRef" r.subject_ref (
            field "authorId" (Json.text r.author_id) (
              field "title" (Json.text r.title) (
                field "version" (Json.natural r.version) (
                  field "status" (Json.text (status_name r.status)) (
                    field "lifecycleEpoch" (Json.natural r.lifecycle_epoch) (
                      field "authorityEpoch" (Json.natural r.authority_epoch) (
                        field "evidence" (Json.object (encode_evidences r.evidence)) done)))))))))))

unfoldable pub decode_report : Json → Report
unfolding decode_evidences
decode_report v =
    let fs = fields_of (some v) in
    record {
      report_id = text_of (get "reportId" fs);
      organization_id = text_of (get "organizationId" fs);
      report_type = text_of (get "reportType" fs);
      subject_ref = json_of (get "subjectRef" fs);
      author_id = text_of (get "authorId" fs);
      title = text_of (get "title" fs);
      version = natural_of (get "version" fs);
      status = status_in statuses (text_of (get "status" fs));
      lifecycle_epoch = natural_of (get "lifecycleEpoch" fs);
      authority_epoch = natural_of (get "authorityEpoch" fs);
      evidence = decode_evidences (fields_of (get "evidence" fs));
    }

-- A report is read as it was written.
pub decode_report-encode_report : (r : Report) → decode_report (encode_report r) ≡ r
unfolding decode_report encode_report
decode_report-encode_report r = rw (status_in-status_name r.status, evidences_read r.evidence) refl

abbrev pub report_codec : Codec Report
report_codec = record {
  encode = encode_report;
  decode = decode_report;
  decode_encode = decode_report-encode_report;
}

-- `SqliteReportingRepository`
abbrev pub sqlite_reports : Host → (String → Instant) → ℕ → ReportingRepository Store
sqlite_reports host place now =
    durable host place now "reporting-evidence" report_entry report_aggregate report_codec
