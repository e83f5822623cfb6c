-- ===== src/Reporting/Service.antt =====
-- src/reporting-evidence/service.ts: the service's calls. `requireSubject`, which asks the other services, is a
-- parameter.
pub mod Life
pub mod Commits
mod Tests
use onyx_ifem.Prelude.{
  ℕ, suc, Bool, true, false, not, Option, none, some, String, List, map, is_some,
}
use Prim.Native.String.{◌++◌ as ◌<>◌}
use onyx_ifem.Json.{Json, Host, get}
use onyx_ifem.Contracts.Errors.{
  Result, ok, err, onyx, invalid_argument, version_conflict, invalid_state_transition, ◌>>=◌, ◌>>◌,
  throw_if,
}
use onyx_ifem.Contracts.Checks.{fail}
use onyx_ifem.Contracts.Validation.{validate_command_envelope}
use onyx_ifem.Services.Envelopes.{
  CommandEnvelope, EventEnvelope, Moment, text_of, optional_natural, json_of, at, organization_id,
  differs,
}
use onyx_ifem.Services.Calls
use onyx_ifem.Services.Calls.{authorize, check_expected, check_history, found_in}
use onyx_ifem.Reporting.Types.{
  Report, status_name, ReportingCommandType, create_report, type_name, ReportView, to_report_view,
  ReportingRepository, report_aggregate,
}
use onyx_ifem.Reporting.Payloads.{validate_reporting_command}
use onyx_ifem.Reporting.Commands.{
  scope_of, allowed_from, includes_status, event_type_of, change, new_report, type_of,
}

-- `report.version += 1`, at the end of `#mutate`.
abbrev pub next_version : Report → Report
next_version r = record r { version = suc r.version }

-- `value?.command_type`, a text; any other value is of no type.
abbrev pub command_type : Json → String
command_type (Json.object fs) = text_of (get "command_type" fs)
command_type _ = ""

module _ {S : Type 0} (host : Host) (replica : String)
    (require_subject : String → Json → S → Result (Unit {0}))
    (repository : ReportingRepository S) where
  open repository use {find}

  -- `!report || report.organizationId !== organizationId`
  abbrev pub owned : String → Option Report → Result Report
  owned = found_in (λ r. r.organization_id) "report"

  -- The checks of `#load` on the report that it has found.
  unfoldable pub check_loaded :
      ReportingCommandType → CommandEnvelope → Option Report → Result Report
  unfolding check_expected
  check_loaded type c found = do
    r ← owned (organization_id c) found
    throw_if (not (includes_status (allowed_from type) r.status)) (
        onyx invalid_state_transition
          (type_name type <> (" is not valid from " <> status_name r.status)))
    check_expected c (report_aggregate.head r)
    ok r

  -- `#publish`
  unfoldable pub publish :
      ReportingCommandType
      → CommandEnvelope
      → Report
      → (payload : Json) → (create : Bool) → Moment
      → S
      → Result (EventEnvelope × S)
  unfolding Calls.publish
  publish type c r payload create moment s =
      Calls.publish host replica report_aggregate repository (event_type_of type) c r payload create
        moment s

  -- `#load`, the change and `#publish`.
  unfoldable pub mutate :
      ReportingCommandType → CommandEnvelope → Moment → S → Result (EventEnvelope × S)
  unfolding authorize check_loaded change publish
  mutate type c moment s = do
    authorize host (scope_of type) c moment
    found ← find (at "report_id" c) s
    r ← check_loaded type c found
    changed ← change type c r
    publish type c (next_version (changed.0)) (changed.1) false moment s

  -- `#create`
  unfoldable pub create_new : CommandEnvelope → Moment → S → Result (EventEnvelope × S)
  unfolding authorize publish
  create_new c moment s = do
    authorize host (scope_of create_report) c moment
    throw_if (differs (optional_natural (get "expected_version" c.fields)) 0)
        (onyx version_conflict "a new report must expect version 0")
    found ← find (at "report_id" c) s
    throw_if (is_some found) (onyx version_conflict "report already exists")
    require_subject (organization_id c) (json_of (get "subject_ref" c.payload)) s
    publish create_report c (new_report c) (Json.object c.payload) true moment s

  unfoldable pub perform :
      ReportingCommandType → CommandEnvelope → Moment → S → Result (EventEnvelope × S)
  unfolding create_new mutate
  perform create_report c moment s = create_new c moment s
  perform type c moment s = mutate type c moment s

  -- A command of one type, replay included.
  unfoldable pub handle : ReportingCommandType → Json → Moment → S → Result (EventEnvelope × S)
  unfolding Calls.handle
  handle type =
      Calls.handle host replica report_aggregate repository (validate_reporting_command host type)
        (perform type)

  -- A command of an unknown type fails after the checks of its envelope.
  unfoldable pub execute : Json → Moment → S → Result (EventEnvelope × S)
  unfolding handle
  execute input moment s = elim (type_of (command_type input)) [
    | some type ↦ handle type input moment s
    | none ↦ validate_command_envelope host input (command_type input) "Report" >>= λ _.
        fail "command is not implemented"
  ]

  -- `createReport`: a valid command of another type is refused.
  unfoldable pub create : Json → Moment → S → Result (EventEnvelope × S)
  unfolding handle
  create input moment s = elim (type_of (command_type input)) [
    | some create_report ↦ handle create_report input moment s
    | some type ↦ validate_reporting_command host type input >>= λ _.
        err (onyx invalid_argument "CreateReport is required")
    | none ↦ validate_command_envelope host input (command_type input) "Report" >>= λ _.
        fail "command is not implemented"
  ]

  -- `getReport`
  unfoldable pub get_report : String → String → S → Result ReportView
  get_report organization i s = do
    found ← find i s
    r ← owned organization found
    ok (to_report_view r)

  -- `listReports`
  unfoldable pub list_reports : String → Option String → ℕ → S → Result (List ReportView)
  list_reports organization after limit s = do
    reports ← repository.list organization after limit s
    ok (map to_report_view reports)

  unfoldable pub get_history : String → String → ℕ → ℕ → S → Result (List EventEnvelope)
  unfolding get_report
  get_history organization i after limit s = do
    view ← get_report organization i s
    check_history limit
    repository.history i after limit s
