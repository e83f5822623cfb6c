-- ===== src/Mission/Durable.antt =====
-- src/mission/sqlite-repository.ts: the missions in the SQLite store. The keys of a stored mission are those of
-- the record `Mission`; their order, which nothing reads, puts the optional ones at the end.
use onyx_ifem.Prelude.{
  ℕ, ◌≡◌, refl, ap, ◌∙◌, Option, some, String, List, [], ◌∷◌, ◌==◌, if◌then◌else◌,
}
use onyx_ifem.Json.{Json, Host, Fields, field, done, get}
use onyx_ifem.Sqlite.Instants.{Instant}
use onyx_ifem.Sqlite.Store.{Store}
use onyx_ifem.Services.Envelopes.{text_of, natural_of, fields_of, json_of, optional_text}
use onyx_ifem.Services.Fields.{with_optional, as_text, optional_text-as_text, get_other, get_own}
use onyx_ifem.Services.Durable.{Codec, durable}
use onyx_ifem.Mission.Types.{
  Mission, MissionStatus, draft, planning, awaiting_approval, active, paused, halted, review,
  closed, archived, cancelled, status_name, BlueprintRevision,
}
use onyx_ifem.Mission.Repository.{MissionRepository, mission_entry, mission_aggregate}

abbrev statuses : List MissionStatus
statuses =
    draft ∷ planning ∷ awaiting_approval ∷ active ∷ paused ∷ halted ∷ review ∷ closed ∷ archived
    ∷ cancelled ∷ []

abbrev status_in : List MissionStatus → String → MissionStatus
status_in [] s = draft
status_in (t ∷ ts) s = if status_name t == s then t else status_in ts s

status_in-status_name : (t : MissionStatus) → status_in statuses (status_name t) ≡ t
status_in-status_name draft = refl
status_in-status_name planning = refl
status_in-status_name awaiting_approval = refl
status_in-status_name active = refl
status_in-status_name paused = refl
status_in-status_name halted = refl
status_in-status_name review = refl
status_in-status_name closed = refl
status_in-status_name archived = refl
status_in-status_name cancelled = refl

unfoldable encode_revision : BlueprintRevision → Fields
encode_revision r = field "revisionId" (Json.text r.revision_id) (
    field "content" r.content (
      field "changeSummary" (Json.text r.change_summary)
        (with_optional "baseRevisionId" (as_text r.base_revision_id) done)))

unfoldable decode_revision : Fields → BlueprintRevision
decode_revision fs = record {
  revision_id = text_of (get "revisionId" fs);
  base_revision_id = optional_text (get "baseRevisionId" fs);
  content = json_of (get "content" fs);
  change_summary = text_of (get "changeSummary" fs);
}

-- `mission.revisions`, keyed by the id of the revision.
unfoldable encode_revisions : List BlueprintRevision → Fields
unfolding encode_revision
encode_revisions [] = done
encode_revisions (r ∷ rs) =
    field r.revision_id (Json.object (encode_revision r)) (encode_revisions rs)

unfoldable decode_revisions : Fields → List BlueprintRevision
unfolding decode_revision
decode_revisions done = []
decode_revisions (field k v fs) = decode_revision (fields_of (some v)) ∷ decode_revisions fs

decode_revision-encode_revision : (r : BlueprintRevision) → decode_revision (encode_revision r) ≡ r
unfolding decode_revision encode_revision
decode_revision-encode_revision r =
    ap
      (λ o. record {
        revision_id = r.revision_id;
        base_revision_id = o;
        content = r.content;
        change_summary = r.change_summary;
      })
      (ap optional_text (get_own "baseRevisionId" (as_text r.base_revision_id) done refl)
        ∙ optional_text-as_text r.base_revision_id)

decode_revisions-encode_revisions :
    (rs : List BlueprintRevision) → decode_revisions (encode_revisions rs) ≡ rs
unfolding decode_revisions encode_revisions
decode_revisions-encode_revisions [] = refl
decode_revisions-encode_revisions (r ∷ rs) =
    ap (λ x. x ∷ decode_revisions (encode_revisions rs)) (decode_revision-encode_revision r)
    ∙ ap (λ xs. r ∷ xs) (decode_revisions-encode_revisions rs)

-- The optional fields of a mission.
unfoldable optional_fields : (title initial active_ submitted timeline : Option String) → Fields
optional_fields title initial active_ submitted timeline = with_optional "title" (as_text title) (
    with_optional "initialBlueprintId" (as_text initial) (
      with_optional "activeBlueprintRevisionId" (as_text active_) (
        with_optional "submittedBlueprintRevisionId" (as_text submitted)
          (with_optional "timelineId" (as_text timeline) done))))

unfoldable pub encode_mission : Mission → Json
unfolding encode_revisions optional_fields
encode_mission m = Json.object (
    field "missionId" (Json.text m.mission_id) (
      field "organizationId" (Json.text m.organization_id) (
        field "ownerId" (Json.text m.owner_id) (
          field "objective" (Json.text m.objective) (
            field "settings" m.settings (
              field "status" (Json.text (status_name m.status)) (
                field "version" (Json.natural m.version) (
                  field "lifecycleEpoch" (Json.natural m.lifecycle_epoch) (
                    field "authorityEpoch" (Json.natural m.authority_epoch) (
                      field "revisions" (Json.object (encode_revisions m.revisions)) (
                        optional_fields m.title m.initial_blueprint_id
                          m.active_blueprint_revision_id m.submitted_blueprint_revision_id
                          m.timeline_id)))))))))))

unfoldable decode_fields : Fields → Mission
unfolding decode_revisions
decode_fields fs = record {
  mission_id = text_of (get "missionId" fs);
  organization_id = text_of (get "organizationId" fs);
  owner_id = text_of (get "ownerId" fs);
  objective = text_of (get "objective" fs);
  title = optional_text (get "title" fs);
  initial_blueprint_id = optional_text (get "initialBlueprintId" fs);
  settings = json_of (get "settings" fs);
  status = status_in statuses (text_of (get "status" fs));
  version = natural_of (get "version" fs);
  lifecycle_epoch = natural_of (get "lifecycleEpoch" fs);
  authority_epoch = natural_of (get "authorityEpoch" fs);
  active_blueprint_revision_id = optional_text (get "activeBlueprintRevisionId" fs);
  submitted_blueprint_revision_id = optional_text (get "submittedBlueprintRevisionId" fs);
  timeline_id = optional_text (get "timelineId" fs);
  revisions = decode_revisions (fields_of (get "revisions" fs));
}

unfoldable pub decode_mission : Json → Mission
unfolding decode_fields
decode_mission v = decode_fields (fields_of (some v))

module _ (title initial active_ submitted timeline : Option String) where
  -- Each optional field is read as it was written.
  abbrev Reads : String → Option String → Type 0
  Reads k o = optional_text (get k (optional_fields title initial active_ submitted timeline)) ≡ o

  title_read : Reads "title" title
  unfolding optional_fields
  title_read =
      ap optional_text (
        get_own "title" (as_text title) _ (
          get_other "title" "initialBlueprintId" (as_text initial) _ refl
          ∙ get_other "title" "activeBlueprintRevisionId" (as_text active_) _ refl
          ∙ get_other "title" "submittedBlueprintRevisionId" (as_text submitted) _ refl
          ∙ get_other "title" "timelineId" (as_text timeline) _ refl))
      ∙ optional_text-as_text title

  initial_read : Reads "initialBlueprintId" initial
  unfolding optional_fields
  initial_read =
      ap optional_text (
        get_other "initialBlueprintId" "title" (as_text title) _ refl
        ∙ get_own "initialBlueprintId" (as_text initial) _ (
            get_other "initialBlueprintId" "activeBlueprintRevisionId" (as_text active_) _ refl
            ∙ get_other "initialBlueprintId" "submittedBlueprintRevisionId" (as_text submitted) _
                refl
            ∙ get_other "initialBlueprintId" "timelineId" (as_text timeline) _ refl))
      ∙ optional_text-as_text initial

  active_read : Reads "activeBlueprintRevisionId" active_
  unfolding optional_fields
  active_read =
      ap optional_text (
        get_other "activeBlueprintRevisionId" "title" (as_text title) _ refl
        ∙ get_other "activeBlueprintRevisionId" "initialBlueprintId" (as_text initial) _ refl
        ∙ get_own "activeBlueprintRevisionId" (as_text active_) _ (
            get_other "activeBlueprintRevisionId" "submittedBlueprintRevisionId" (as_text submitted)
              _ refl
            ∙ get_other "activeBlueprintRevisionId" "timelineId" (as_text timeline) _ refl))
      ∙ optional_text-as_text active_

  submitted_read : Reads "submittedBlueprintRevisionId" submitted
  unfolding optional_fields
  submitted_read =
      ap optional_text (
        get_other "submittedBlueprintRevisionId" "title" (as_text title) _ refl
        ∙ get_other "submittedBlueprintRevisionId" "initialBlueprintId" (as_text initial) _ refl
        ∙ get_other "submittedBlueprintRevisionId" "activeBlueprintRevisionId" (as_text active_) _
            refl
        ∙ get_own "submittedBlueprintRevisionId" (as_text submitted) _
            (get_other "submittedBlueprintRevisionId" "timelineId" (as_text timeline) _ refl))
      ∙ optional_text-as_text submitted

  timeline_read : Reads "timelineId" timeline
  unfolding optional_fields
  timeline_read =
      ap optional_text (
        get_other "timelineId" "title" (as_text title) _ refl
        ∙ get_other "timelineId" "initialBlueprintId" (as_text initial) _ refl
        ∙ get_other "timelineId" "activeBlueprintRevisionId" (as_text active_) _ refl
        ∙ get_other "timelineId" "submittedBlueprintRevisionId" (as_text submitted) _ refl
        ∙ get_own "timelineId" (as_text timeline) _ (refl))
      ∙ optional_text-as_text timeline

-- Every mission is read from its stored state as it was written: all fields, the optional ones, the state, and the
-- blueprint revisions in their order.
pub decode_mission-encode_mission : (m : Mission) → decode_mission (encode_mission m) ≡ m
unfolding decode_mission encode_mission decode_fields
decode_mission-encode_mission m =
    let t = m.title in
    let b = m.initial_blueprint_id in
    let a = m.active_blueprint_revision_id in
    let u = m.submitted_blueprint_revision_id in
    let l = m.timeline_id in
    rw
      (
        title_read t b a u l,
        initial_read t b a u l,
        active_read t b a u l,
        submitted_read t b a u l,
        timeline_read t b a u l,
        status_in-status_name m.status,
        decode_revisions-encode_revisions m.revisions,
      )
      refl

abbrev pub mission_codec : Codec Mission
mission_codec = record {
  encode = encode_mission;
  decode = decode_mission;
  decode_encode = decode_mission-encode_mission;
}

-- `SqliteMissionRepository`
abbrev pub sqlite_missions : Host → (String → Instant) → ℕ → MissionRepository Store
sqlite_missions host place now =
    durable host place now "mission" mission_entry mission_aggregate mission_codec
