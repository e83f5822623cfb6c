-- ===== src/Sqlite/Readiness.antt =====
-- `readiness` of database.ts: the counts of the messages and receipts in each state.
pub mod Standing
mod Tests
use onyx_ifem.Prelude.{
  ℕ, suc, ◌+◌, ◌≤◌, ◌≡◌, refl, Bool, true, false, not, ◌&&◌, Option, none, some, List, [], ◌∷◌, ltb,
  leb, is_none, min, arith, All, length, if◌then◌else◌, ◌⊎◌,
}
use onyx_ifem.Sqlite.Table.{count, select}
use onyx_ifem.Sqlite.Instants.{Instant, iso}
use onyx_ifem.Sqlite.Outbox.{OutboxRow, Outbox, is_open, is_ready, has_no_lease}
use onyx_ifem.Sqlite.Outbox.Safety.{IsValidRow}
use onyx_ifem.Sqlite.Inbox.{InboxRow, Inbox, is_later}

pub record OutboxSnapshot : Type 0 where
  pub pending : ℕ
  pub ready : ℕ
  pub leased : ℕ
  pub delivered : ℕ
  pub dead_lettered : ℕ
  pub oldest_pending_at : Option Instant

pub record InboxSnapshot : Type 0 where
  pub processing : ℕ
  pub retryable : ℕ
  pub completed : ℕ
  pub failed : ℕ

pub record MessagingSnapshot : Type 0 where
  pub outbox : OutboxSnapshot
  pub inbox : InboxSnapshot

abbrev earlier : Option Instant → Instant → Option Instant
earlier none t = some t
earlier (some s) t = some (min s t)

-- MIN over the messages that are open.
unfoldable pub oldest : Outbox → Option Instant
oldest [] = none
oldest (r ∷ rs) = let rest = oldest rs in if is_open r then earlier rest r.available_at else rest

abbrev pub is_leased_open : Instant → OutboxRow → Bool
is_leased_open now r = is_open r && is_later r.lease_expires_at now

abbrev pub is_processing : Instant → InboxRow → Bool
is_processing now r = is_none r.completed_at && is_later r.lease_expires_at now

abbrev pub is_retryable : Instant → InboxRow → Bool
is_retryable now r = is_none r.completed_at && has_no_lease r.lease_expires_at now

unfoldable pub readiness : ℕ → Outbox → Inbox → MessagingSnapshot
unfolding oldest
readiness now outbox inbox = record {
  outbox = record {
    pending = count is_open outbox;
    ready = count (is_ready (iso now)) outbox;
    leased = count (is_leased_open (iso now)) outbox;
    delivered = count (λ r. not (is_none r.delivered_at)) outbox;
    dead_lettered = count (λ r. not (is_none r.dead_lettered_at)) outbox;
    oldest_pending_at = oldest outbox;
  };
  inbox = record {
    processing = count (is_processing (iso now)) inbox;
    retryable = count (is_retryable (iso now)) inbox;
    completed = count (λ r. not (is_none r.completed_at)) inbox;
    failed = count (λ r. is_none r.completed_at && not (is_none r.last_error)) inbox;
  };
}
