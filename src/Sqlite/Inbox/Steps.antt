-- ===== src/Sqlite/Inbox/Steps.antt =====
-- The calls of the inbox as steps of the table, and as steps of one receipt.
use mathlib.Core.Option
use onyx_ifem.Prelude.{
  ◌+◌, ℕ, Bool, not, ◌&&◌, ◌||◌, Option, none, some, String, List, [], ◌∷◌, ◌==◌, ltb,
  if◌then◌else◌, is_none,
}
use onyx_ifem.Contracts.Errors.{Result, ok, err}
use onyx_ifem.Sqlite.Keys.{Unique}
use onyx_ifem.Sqlite.Instants.{iso, max_time}
use onyx_ifem.Sqlite.Outbox.{slice_units}
use onyx_ifem.Sqlite.Inbox.{
  InboxRow, Inbox, ClaimInboxOptions, is_receipt, is_held, is_later, received, acquire, has_blank,
  claim_inbox, complete, release, complete_inbox, release_inbox,
}

pub data InboxCall : Type 0 where
  claims : ClaimInboxOptions → InboxCall
  completes : (consumer event worker : String) (completed_at : ℕ) → InboxCall
  releases : (consumer event worker error : String) → InboxCall

-- A call that throws leaves the table as it was.
abbrev pub after {ℓ} : {A : Type ℓ} → Inbox → (A → Inbox) → Result A → Inbox
after t table (ok a) = table a
after t table (err _) = t

unfoldable pub step : Inbox → InboxCall → Inbox
step t (claims o) = after t (λ r. r.1) (claim_inbox o t)
step t (completes c e worker at) = after t (λ r. r) (complete_inbox c e worker at t)
step t (releases c e worker error) = after t (λ r. r) (release_inbox c e worker error t)

unfoldable pub run : Inbox → List InboxCall → Inbox
run t [] = t
run t (c ∷ cs) = run (step t c) cs

abbrev pub same_receipt : InboxRow → InboxRow → Bool
same_receipt r s = is_receipt r.consumer_name r.event_id s

abbrev pub HasUniqueReceipts : Inbox → Type 0
HasUniqueReceipts = Unique same_receipt

-- A claim throws before it reads the table: its options are blank, or its lease would not end at a date.
abbrev pub is_refused : ClaimInboxOptions → Bool
is_refused o =
    has_blank o || (ltb o.lease_duration_ms 1 || ltb max_time (o.now + o.lease_duration_ms))

-- A claim leaves a receipt if it throws, the event is completed, or the lease is running.
abbrev pub is_left_by : ClaimInboxOptions → InboxRow → Bool
is_left_by o r =
    (is_refused o || not (r.fingerprint == o.fingerprint))
    || (not (is_none r.completed_at) || is_later r.lease_expires_at (iso o.now))

-- What a claim does to the receipt of its key.
abbrev pub claim_row : ClaimInboxOptions → Option InboxRow → Option InboxRow
claim_row o none = if is_refused o then none else some (received o)
claim_row o (some r) = if is_left_by o r then some r else some (acquire o r)

abbrev pub change_held :
    String → String → String → (InboxRow → InboxRow) → Option InboxRow → Option InboxRow
change_held c e worker f = Option.map (λ r. if is_held c e worker r then f r else r)

-- What a call does to the receipt of the key `c` and `e`.
abbrev pub row_step : String → String → InboxCall → Option InboxRow → Option InboxRow
row_step c e (claims o) r = if (o.consumer_name == c && o.event_id == e) then claim_row o r else r
row_step c e (completes c' e' worker at) r = change_held c' e' worker (complete (iso at)) r
row_step c e (releases c' e' worker error) r =
    change_held c' e' worker (release (slice_units 2048 error)) r

abbrev pub row_run : String → String → List InboxCall → Option InboxRow → Option InboxRow
row_run c e [] r = r
row_run c e (call ∷ calls) r = row_run c e calls (row_step c e call r)
