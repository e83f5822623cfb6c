-- ===== src/Reporting/Service/Commits.antt =====
-- What a command that succeeds has found, made of it, and committed.
use onyx_ifem.Prelude.{
  is_some, ◌≡◌, refl, sym, ap, ◌∙◌, subst, Bool, true, false, not, Option, none, some, String,
}
use onyx_ifem.Json.{Json, Host, sha256, get}
use onyx_ifem.Contracts.Errors.{Result, ok, >>=-eq-ok, throw_if-eq-ok, ok-injective}
use onyx_ifem.Services.Envelopes.{
  CommandEnvelope, EventEnvelope, Moment, at, operation_id, organization_id, optional_natural,
  json_of, differs,
}
use onyx_ifem.Services.Calls.{authorize, check_expected}
use onyx_ifem.Services.Publication.{found_in-eq-ok, publish-eq-ok, check_expected-version}
use onyx_ifem.Reporting.Types.{
  ReportingCommandType, create_report, Report, ReportingRepository, report_aggregate,
}
use onyx_ifem.Reporting.Commands.{
  new_report, event_type_of, scope_of, change, allowed_from, includes_status,
}
use onyx_ifem.Reporting.Service.{
  create_new, perform, mutate, publish, check_loaded, next_version, owned,
}
use onyx_ifem.Reporting.Service.Life.{
  IsStep, IsStep-IsSupported, IsSupported, change-IsStep, not-eq-false,
}

none_of : {A : Type 0} (found : Option A) → is_some found ≡ false → found ≡ none
none_of none h = refl
none_of (some a) h = cc

abbrev pub is_creation : ReportingCommandType → Bool
is_creation create_report = true
is_creation _ = false

-- What a command makes of what it has found, for the answer of `requireSubject`: CreateReport a new report of
-- none, and every other command one step of a report of the command's organization, at the version that it
-- expects if it expects one.
pub data Becomes (subject : Result (Unit {0})) (c : CommandEnvelope)
    : ReportingCommandType → Option Report → Report → Type 0 where
  created : subject ≡ ok tt → Becomes subject c create_report none (new_report c)
  changed :
      {type : ReportingCommandType} {r r' : Report}
      → r.organization_id ≡ organization_id c
      → differs (optional_natural (get "expected_version" c.fields)) r.version ≡ false
      → IsStep type r r'
      → Becomes subject c type (some r) r'

-- The report that is found, if any, has what its review needs.
abbrev pub AreSupported : Option Report → Type 0
AreSupported none = Unit
AreSupported (some r) = IsSupported r

Becomes-IsSupported :
    {subject : Result (Unit {0})} {c : CommandEnvelope} {type : ReportingCommandType}
    {found : Option Report} {r' : Report}
    → Becomes subject c type found r'
    → AreSupported found
    → IsSupported r'
Becomes-IsSupported (created h) v = refl
Becomes-IsSupported (changed {type} {r} {r'} h k step) v = IsStep-IsSupported type r r' step v

module _ {S : Type 0} (host : Host) (replica : String)
    (require_subject : String → Json → S → Result (Unit {0}))
    (repository : ReportingRepository S) where
  open repository use {find, commit}

  check_loaded-eq-ok :
      (type : ReportingCommandType) (c : CommandEnvelope) (found : Option Report) (r : Report)
      → check_loaded host replica require_subject repository type c found ≡ ok r
      → (found ≡ some r)
        × (r.organization_id ≡ organization_id c)
        × (differs (optional_natural (get "expected_version" c.fields)) r.version ≡ false)
        × (includes_status (allowed_from type) r.status ≡ true)
  unfolding check_loaded
  check_loaded-eq-ok type c found r h =
      let (k, e, h1) =
        >>=-eq-ok (owned host replica require_subject repository (organization_id c) found) _ h in
      let (a, h2) = throw_if-eq-ok (not (includes_status (allowed_from type) k.status)) _ _ h1 in
      let (_, e2, h3) = >>=-eq-ok (check_expected c (report_aggregate.head k)) _ h2 in
      let (there, mine) =
        found_in-eq-ok (λ x. x.organization_id) "report" (organization_id c) found k e in
      subst
        (λ x.
          (found ≡ some x)
          × (x.organization_id ≡ organization_id c)
          × (differs (optional_natural (get "expected_version" c.fields)) x.version ≡ false)
          × (includes_status (allowed_from type) x.status ≡ true))
        (ok-injective h3)
        (there, mine, check_expected-version c (report_aggregate.head k) e2, not-eq-false _ a)

  -- What a command has found, made of it, and committed.
  abbrev pub Commits : ReportingCommandType → CommandEnvelope → S → EventEnvelope → S → Type 0
  Commits type c s event s' =
      (found : Option Report) × (r : Report) × (find (at "report_id" c) s ≡ ok found)
      × Becomes (require_subject (organization_id c) (json_of (get "subject_ref" c.payload)) s) c
          type found r
      × (event.aggregate_version ≡ r.version)
      × (commit r event (operation_id c)
            (record { fingerprint = sha256 host c.value; event = event }) (is_creation type) s
          ≡ ok s')

  create_new-Commits :
      (c : CommandEnvelope) (moment : Moment) (s s' : S) (event : EventEnvelope)
      → create_new host replica require_subject repository c moment s ≡ ok (event, s')
      → Commits create_report c s event s'
  unfolding create_new publish
  create_new-Commits c moment s s' event h =
      let (_, _, h1) = >>=-eq-ok (authorize host (scope_of create_report) c moment) _ h in
      let (_, h2) =
        throw_if-eq-ok (differs (optional_natural (get "expected_version" c.fields)) 0) _ _ h1 in
      let (found, e3, h3) = >>=-eq-ok (find (at "report_id" c) s) _ h2 in
      let (absent, h4) = throw_if-eq-ok (is_some found) _ _ h3 in
      let (_, e5, h5) =
        >>=-eq-ok (require_subject (organization_id c) (json_of (get "subject_ref" c.payload)) s) _
          h4 in
      let (version, committed) =
        publish-eq-ok host replica report_aggregate repository (event_type_of create_report) c
          (new_report c) (Json.object c.payload) true moment s s' event h5 in
      (none, new_report c, e3 ∙ ap ok (none_of found absent), created e5, version, committed)

  mutate-Commits :
      (type : ReportingCommandType) (c : CommandEnvelope) (moment : Moment) (s s' : S)
      (event : EventEnvelope)
      → is_creation type ≡ false
      → mutate host replica require_subject repository type c moment s ≡ ok (event, s')
      → Commits type c s event s'
  unfolding mutate publish
  mutate-Commits type c moment s s' event old h =
      let (_, _, h1) = >>=-eq-ok (authorize host (scope_of type) c moment) _ h in
      let (found, e1, h2) = >>=-eq-ok (find (at "report_id" c) s) _ h1 in
      let (r, e2, h3) =
        >>=-eq-ok (check_loaded host replica require_subject repository type c found) _ h2 in
      let ((r', payload), e3, h4) = >>=-eq-ok (change type c r) _ h3 in
      let (there, mine, version, allowed) = check_loaded-eq-ok type c found r e2 in
      let (at_version, committed) =
        publish-eq-ok host replica report_aggregate repository (event_type_of type) c
          (next_version r') payload false moment s s' event h4 in
      (
        some r,
        next_version r',
        e1 ∙ ap ok there,
        changed mine version (change-IsStep type c r r' payload allowed e3),
        at_version,
        rw old committed,
      )

  -- A command on reports that succeeds commits one of two things, with an event of its version, under the command's
  -- operation id and fingerprint. CreateReport has found no report and the subject, and commits the new report.
  -- Every other command has found a report of the command's organization, at the version that the command expects
  -- if it expects one, and commits one step of its life: a transition of the diagram, the next version, and the next
  -- lifecycle epoch exactly if it rejects or archives the report. A submission has found verified evidence, only the
  -- three commands on evidence edit the evidence, and the identity, the organization and the authority epoch stay.
  pub perform-Becomes :
      (type : ReportingCommandType) (c : CommandEnvelope) (moment : Moment) (s s' : S)
      (event : EventEnvelope)
      → perform host replica require_subject repository type c moment s ≡ ok (event, s')
      → Commits type c s event s'
  unfolding perform
  perform-Becomes create_report c moment s s' event h = create_new-Commits c moment s s' event h
  perform-Becomes type c moment s s' event h = mutate-Commits type c moment s s' event refl h

  -- No command brings a report to SUBMITTED or APPROVED without verified evidence, or takes the verified evidence
  -- of such a report away: if the report that a command finds, if any, has verified evidence in these states, so
  -- does the one that the command commits.
  pub perform-IsSupported :
      (type : ReportingCommandType) (c : CommandEnvelope) (moment : Moment) (s s' : S)
      (event : EventEnvelope) (found : Option Report)
      → find (at "report_id" c) s ≡ ok found
      → AreSupported found
      → perform host replica require_subject repository type c moment s ≡ ok (event, s')
      → (r : Report) × IsSupported r
        × (commit r event
              (operation_id c)
              (record { fingerprint = sha256 host c.value; event = event })
              (is_creation type)
              s
            ≡ ok s')
  perform-IsSupported type c moment s s' event found there v h =
      let (found', r, e, becomes, _, committed) = perform-Becomes type c moment s s' event h in
      let same : found ≡ found' = ok-injective (sym there ∙ e) in
      (r, Becomes-IsSupported becomes (subst AreSupported same v), committed)
