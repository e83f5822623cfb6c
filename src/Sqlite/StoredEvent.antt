-- ===== src/Sqlite/StoredEvent.antt =====
-- `storedEvent` and `EXECUTABLE_EVENT_PROFILES` of database.ts: the integrity check of an event read back.
-- A column of JSON text holds here the value that the text is of.
use onyx_ifem.Prelude.{
  ℕ, Bool, false, not, Option, none, some, String, List, [], ◌∷◌, ◌==◌, if◌then◌else◌,
}
use onyx_ifem.Json.{Json, Host, get}
use onyx_ifem.Contracts.Errors.{Result, ok, err, failure, ◌>>=◌, ◌>>◌, throw_if}
use onyx_ifem.Contracts.Checks.{has_text}
use onyx_ifem.Contracts.Validation.{is_the_text, is_the_number, validate_event_envelope}

pub record Profile : Type 0 where
  pub aggregate_type : String
  pub event_types : List String

abbrev profile : String → List String → Profile
profile aggregate event_types = record { aggregate_type = aggregate; event_types = event_types }

pub record StoredEventExpectation : Type 0 where
  pub context : String
  pub aggregate_id : Option String
  pub aggregate_version : Option ℕ
  pub organization_id : Option String
  pub event_id : Option String
  pub event_type : Option String
  pub operation_id : Option String

-- `expected !== undefined && value !== expected`
abbrev pub is_other : Option String → Option Json → Bool
is_other none v = false
is_other (some t) v = not (is_the_text v t)

abbrev is_other_number : Option ℕ → Option Json → Bool
is_other_number none v = false
is_other_number (some n) v = not (is_the_number v n)

-- `value?.[key]`
abbrev pub property : String → Option Json → Option Json
property k (some (Json.object fs)) = get k fs
property k _ = none

abbrev pub type_of_event : Option Json → String
type_of_event (some (Json.text s)) = s
type_of_event _ = ""

abbrev pub mission_profile : Profile
mission_profile = profile "Mission" (
    "MissionCreated" ∷ "MissionBlueprintRevisionCreated" ∷ "MissionBlueprintSubmitted"
    ∷ "MissionActivated" ∷ "MissionPaused" ∷ "MissionResumed" ∷ "MissionOperationallyHalted"
    ∷ "MissionRestarted" ∷ "MissionClosed" ∷ "MissionCancelled" ∷ "MissionArchived" ∷ [])

abbrev pub task_profile : Profile
task_profile = profile "Task" (
    "TaskCreated" ∷ "TaskOwnerAssigned" ∷ "TaskPriorityChanged" ∷ "TaskDependencyAdded"
    ∷ "TaskStarted" ∷ "TaskPaused" ∷ "TaskBlocked" ∷ "TaskCompletionSubmitted" ∷ "TaskApproved"
    ∷ "TaskReopened" ∷ "TaskClosed" ∷ "TaskCancelled" ∷ [])

unfoldable pub executable_event_profiles : List (String × Profile)
executable_event_profiles =
    ("mission", mission_profile)
    ∷ ("work", task_profile)
    ∷ (
      "timeline",
      profile "Timeline" (
          "TimelineCreated" ∷ "DeadlineChanged" ∷ "DeadlineMoved" ∷ "DeadlineReached"
          ∷ "MilestoneAdded" ∷ "CriticalMarkerDefined" ∷ "CriticalMarkerReached"
          ∷ "PenaltyZoneActivated" ∷ "ScheduleExceptionRaised" ∷ "TimelineArchived" ∷ []),
    )
    ∷ (
      "reporting-evidence",
      profile "Report" (
          "ReportCreated" ∷ "EvidenceAdded" ∷ "EvidenceVerified" ∷ "EvidenceRejected"
          ∷ "ReportSubmitted" ∷ "ReportApproved" ∷ "ReportRejected" ∷ "ReportArchived" ∷ []),
    )
    ∷ (
      "organization",
      profile "Organization" (
          "OrganizationCreated" ∷ "WorkspaceCreated" ∷ "DepartmentCreated" ∷ "TeamCreated"
          ∷ "GroupCreated" ∷ "TeamMoved" ∷ "DepartmentArchived" ∷ "OrganizationArchived" ∷ []),
    )
    ∷ (
      "identity-authority",
      profile "User" (
          "UserCreated" ∷ "RoleAssigned" ∷ "RoleRevoked" ∷ "DeviceRegistered" ∷ "DeviceRevoked"
          ∷ "AuthorityDelegated" ∷ "DelegationRevoked" ∷ "UserDisabled" ∷ "UserEnabled" ∷ []),
    )
    ∷ (
      "context",
      profile "ContextLink" (
          "ContextLinkCreated" ∷ "ContextMetadataUpdated" ∷ "ContextStrengthChanged"
          ∷ "ContextLinkArchived" ∷ "ContextLinkRestored" ∷ []),
    )
    ∷ (
      "meeting",
      profile "Meeting" (
          "MeetingCreated" ∷ "ParticipantInvited" ∷ "ParticipantRemoved" ∷ "MeetingStarted"
          ∷ "DecisionRecorded" ∷ "ActionItemProposed" ∷ "MeetingEnded" ∷ "MeetingCancelled" ∷ []),
    )
    ∷ (
      "communication",
      profile "Conversation" (
          "ConversationCreated" ∷ "ConversationMemberAdded" ∷ "MessagePosted" ∷ "MessageEdited"
          ∷ "MessageRedacted" ∷ "ReactionAdded" ∷ "ReactionRemoved" ∷ "ConversationArchived" ∷ []),
    )
    ∷ (
      "file",
      profile "FileAsset" (
          "FileAssetCreated" ∷ "UploadStarted" ∷ "ChunkAccepted" ∷ "UploadFinalized"
          ∷ "FileVersionCreated" ∷ "FileAccessGranted" ∷ "FileAccessRevoked" ∷ "FileQuarantined"
          ∷ "FileArchived" ∷ []),
    )
    ∷ (
      "approval",
      profile "Approval" (
          "ApprovalCreated" ∷ "ApproverAssigned" ∷ "ApprovalGranted" ∷ "ApprovalRejected"
          ∷ "ChangesRequested" ∷ "ApprovalDelegated" ∷ "ApprovalEscalated" ∷ "ApprovalCancelled"
          ∷ "ApprovalReversed" ∷ "ApprovalReopened" ∷ []),
    )
    ∷ (
      "capacity",
      profile "CapacityProfile" (
          "CapacityProfileCreated" ∷ "AvailabilityUpdated" ∷ "WorkloadAllocated"
          ∷ "CapacitySnapshotCaptured" ∷ "CapacityRecalculated" ∷ "CapacityProfileArchived" ∷ []),
    )
    ∷ (
      "forecasting",
      profile "Forecast" (
          "ForecastGenerated" ∷ "ScenarioCreated" ∷ "ForecastRecalculated" ∷ "ForecastPublished"
          ∷ "ForecastArchived" ∷ []),
    )
    ∷ (
      "automation",
      profile "AutomationRule" (
          "AutomationRuleCreated" ∷ "AutomationRuleEnabled" ∷ "AutomationRuleDisabled"
          ∷ "AutomationRuleTriggered" ∷ "AutomationActionExecuted" ∷ "AutomationExecutionFailed"
          ∷ "AutomationExecutionCompensated" ∷ "AutomationRuleArchived" ∷ []),
    )
    ∷ (
      "notification",
      profile "Notification" (
          "NotificationCreated" ∷ "RecipientsResolved" ∷ "NotificationSent"
          ∷ "NotificationDeliveryFailed" ∷ "NotificationEscalated" ∷ "NotificationAcknowledged"
          ∷ "NotificationArchived" ∷ []),
    )
    ∷ (
      "synchronization",
      profile "Synchronization" (
          "SynchronizationStarted" ∷ "OperationBatchOffered" ∷ "OperationBatchAccepted"
          ∷ "OperationBatchMerged" ∷ "ConflictDetected" ∷ "ConflictResolved" ∷ "ConflictEscalated"
          ∷ "SynchronizationAcknowledged" ∷ "SynchronizationClosed" ∷ []),
    )
    ∷ (
      "audit",
      profile "AuditPartition" (
          "AuditEntryAppended" ∷ "AuditPartitionSealed" ∷ "AuditExportCreated"
          ∷ "AuditIntegrityVerified" ∷ "AuditPartitionArchived" ∷ []),
    )
    ∷ (
      "policy",
      profile "Policy" (
          "PolicyCreated" ∷ "PolicyVersionCreated" ∷ "PolicyVersionPublished" ∷ "PolicyEvaluated"
          ∷ "PolicyViolationDetected" ∷ "LegalHoldApplied" ∷ "LegalHoldReleased" ∷ "PolicyRetired"
          ∷ "RateLimitPolicyDefined" ∷ "QuotaThresholdReached" ∷ "QuotaExceeded"
          ∷ "RateLimitTriggered" ∷ []),
    )
    ∷ []

abbrev pub lookup_profile : String → List (String × Profile) → Option Profile
lookup_profile context [] = none
lookup_profile context ((name, known) ∷ rest) =
    if name == context then some known else lookup_profile context rest

-- The `try` and its `catch`.
abbrev pub returned : Json → Result (Unit {0}) → Result Json
returned value (ok _) = ok value
returned value (err _) = err (failure "stored event failed integrity validation")

module _ (host : Host) where
  -- The checks under the `try`, on the parsed value.
  unfoldable pub check_stored : Profile → StoredEventExpectation → Json → Result (Unit {0})
  check_stored known expected value = do
    let event = some value
    throw_if (not (has_text known.event_types (property "event_type" event)))
        (failure "stored event type is not executable for its context")
    fields ←
        validate_event_envelope host value (type_of_event (property "event_type" event))
          known.aggregate_type
    throw_if (is_other expected.event_id (property "event_id" event))
        (failure "stored event id does not match its row")
    throw_if (is_other expected.event_type (property "event_type" event))
        (failure "stored event type does not match its row")
    throw_if (is_other expected.organization_id (property "organization_id" event))
        (failure "stored event organization does not match its row")
    throw_if (is_other expected.aggregate_id (property "object_id" (property "aggregate" event)))
        (failure "stored event aggregate does not match its row")
    throw_if (is_other_number expected.aggregate_version (property "aggregate_version" event))
        (failure "stored event version does not match its row")
    throw_if (is_other expected.operation_id (property "operation_id" event))
        (failure "stored event operation does not match its row")

  -- An event of a context with no profile is returned unchecked; any failure is wrapped.
  unfoldable pub stored_event : Json → StoredEventExpectation → Result Json
  stored_event value expected = elim (lookup_profile expected.context executable_event_profiles) [
    | none ↦ ok value
    | some known ↦ returned value (check_stored known expected value)
  ]
