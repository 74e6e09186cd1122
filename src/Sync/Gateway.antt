-- ===== src/Sync/Gateway.antt =====
-- internal/gateway/sync.go: a sync stream's session and the handlers that send policy on it. The
-- registry's row of the workload is a value; its database's errors are arguments. Queueing never
-- drops a message of an open stream, so that a handler returns the messages that it queues.
use innerwall.Prelude.Tests.{
  ℕ, ◌≤◌, ◌<◌, ◌≡◌, sym, ap, ◌⊎◌, inl, inr, Option, none, some, List, [], ◌∷◌, leb, ◌==◌,
  if◌then◌else◌, Bool-cases, arith,
}
use innerwall.Prelude.Result.{Result, ok, err, ok_injective}
use innerwall.Netip.{Netip}
use innerwall.Rendered.{WorkloadPolicy}
use innerwall.Delta.{delta}
use innerwall.Plan.{policy_or_empty}
use innerwall.Sync.Daemon.{
  SyncResponse, policy_update, snapshot_update, delta_update, PolicyAck, ApplyFailure, ack_applied,
  ack_failed,
}

abbrev pub SyncState : Type 0
SyncState = ℕ

abbrev pub synced : SyncState
synced = 1

abbrev pub pending : SyncState
pending = 2

abbrev pub degraded : SyncState
degraded = 3

-- The mutable fields of a session.
pub record Session : Type 0 where
  pub last_sent : Option WorkloadPolicy
  pub recovery : ℕ

-- What the registry's row says of the stream; the error is what the agent reported.
pub record SyncRow (E : Type 0) : Type 0 where
  pub sync_state : SyncState
  pub applied_version : ℕ
  pub sync_error : Option (ApplyFailure E)

pub data SyncRefusal (F : Type 0) : Type 0 where
  write_failed : F → SyncRefusal F
  loading_policy : F → SyncRefusal F
  ack_unspecified : SyncRefusal F
  unknown_ack_status : SyncRefusal F

-- A session and row with the messages queued on the stream.
pub record Answer (E : Type 0) : Type 0 where
  pub session : Session
  pub row : SyncRow E
  pub sent : List SyncResponse

abbrev pub snapshot_of : WorkloadPolicy → SyncResponse
snapshot_of p = policy_update (snapshot_update (some p))

abbrev pub version_sent : Session → ℕ
version_sent s = (policy_or_empty s.last_sent).version

-- A registry write that fails ends the stream.
abbrev pub after_write :
    {F A : Type 0} → Option F → Result (SyncRefusal F) A → Result (SyncRefusal F) A
after_write none r = r
after_write (some e) r = err (write_failed e)

-- The session of a stream in `Sync` once the policy of its snapshot is loaded, under the session's
-- lock. The snapshot is not queued yet.
unfoldable pub open_session : WorkloadPolicy → Session
open_session policy = record { last_sent = some policy; recovery = 0 }

module _ {E : Type 0} where
  -- The end of a stream's opening in `Sync`: the snapshot of the policy that was loaded is queued,
  -- and the registry's row is written, after the session's lock is free.
  unfoldable pub queue_snapshot : WorkloadPolicy → Session → SyncRow E → Answer E
  queue_snapshot policy s row = record {
    session = s;
    row = record row { sync_state = pending; sync_error = none };
    sent = snapshot_of policy ∷ [];
  }

  abbrev pub quiet : Session → SyncRow E → Answer E
  quiet s row = record { session = s; row = row; sent = [] }

  -- `sendRecoverySnapshot`, with what loading the current policy returns.
  unfoldable pub send_recovery_snapshot :
      {F : Type 0}
      → Result F WorkloadPolicy
      → Session
      → SyncRow E
      → Result (SyncRefusal F) (Answer E)
  send_recovery_snapshot (err e) s row = err (loading_policy e)
  send_recovery_snapshot (ok policy) s row = ok (record {
    session = record { last_sent = some policy; recovery = policy.version };
    row = row;
    sent = snapshot_of policy ∷ [];
  })

  -- `handleAck`, with the outcome of the registry's write and of loading the current policy.
  unfoldable pub handle_ack :
      {F : Type 0}
      → Option F
      → Result F WorkloadPolicy
      → PolicyAck E
      → Session
      → SyncRow E
      → Result (SyncRefusal F) (Answer E)
  unfolding send_recovery_snapshot
  handle_ack fault loaded ack s row =
      if ack.status == ack_applied
      then after_write fault (
          ok (
            quiet s (record row {
              applied_version = ack.version;
              sync_state = if leb (version_sent s) ack.version then synced else pending;
              sync_error = none;
            })))
      else if ack.status == ack_failed
      then (let failed = record row { sync_state = degraded; sync_error = ack.error_detail } in
          after_write fault (
            if leb ack.version s.recovery
            then ok (quiet s failed)
            else send_recovery_snapshot loaded s failed))
      else if ack.status == 0
      then err ack_unspecified
      else err unknown_ack_status

module _ ⦃ip : Netip⦄ {E : Type 0} where
  -- The answers of `handle_ack` where the registry's write and the load succeed.
  pub data IsAcked (p : WorkloadPolicy) (a : PolicyAck E) (s : Session) (r : Answer E)
      : Type 0 where
    kept :
        (a.status ≡ ack_applied) ⊎ (a.version ≤ s.recovery)
        → r.session ≡ s
        → r.sent ≡ []
        → IsAcked p a s r
    recovers :
        a.status ≡ ack_failed
        → s.recovery < a.version
        → r.session ≡ record { last_sent = some p; recovery = p.version }
        → r.sent ≡ snapshot_of p ∷ []
        → IsAcked p a s r

  pub handle_ack-cases :
      (p : WorkloadPolicy) (a : PolicyAck E) (s : Session) (row : SyncRow E) (r : Answer E)
      → handle_ack {F = ⊥} none (ok p) a s row ≡ ok r
      → IsAcked p a s r
  unfolding handle_ack send_recovery_snapshot
  handle_ack-cases p a s row r e = elim (Bool-cases (a.status == ack_applied)) [
    | inl applied ↦
        let same = ok_injective _ r (rw applied at e) in
        kept (inl (ground (arith, applied))) (session_of same) (sent_of same)
    | inr more ↦ elim (Bool-cases (a.status == ack_failed)) [
      | inl failed ↦ elim (Bool-cases (leb a.version s.recovery)) [
        | inl stale ↦
            let same = ok_injective _ r (rw stale at (rw failed at (rw more at e))) in
            kept (inr (ground (arith, stale))) (session_of same) (sent_of same)
        | inr news ↦
            let same = ok_injective _ r (rw news at (rw failed at (rw more at e))) in
            recovers (ground (arith, failed)) (ground (arith, news)) (session_of same)
              (sent_of same)
      ]
      | inr other ↦ elim (Bool-cases (a.status == 0)) [
        | inl z ↦ cc ((rw z at (rw other at (rw more at e))))
        | inr u ↦ cc ((rw u at (rw other at (rw more at e))))
      ]
    ]
  ]
    where
      session_of : {x y : Answer E} → x ≡ y → y.session ≡ x.session
      session_of h = sym (ap (λ (z : Answer E). z.session) h)

      sent_of : {x y : Answer E} → x ≡ y → y.sent ≡ x.sent
      sent_of h = sym (ap (λ (z : Answer E). z.sent) h)

  unfoldable pub push_newer : WorkloadPolicy → WorkloadPolicy → Session → SyncRow E → Answer E
  push_newer last policy s row = if leb policy.version last.version then quiet s row else record {
    session = record s { last_sent = some policy };
    row = record row { sync_state = pending; sync_error = none };
    sent = policy_update (delta_update (delta last policy)) ∷ [];
  }

  unfoldable pub push_since :
      Option WorkloadPolicy → WorkloadPolicy → Session → SyncRow E → Answer E
  unfolding push_newer
  push_since none policy s row = quiet s row
  push_since (some last) policy s row = push_newer last policy s row

  -- `pushLatest`, with the persisted policy that was loaded; none where there is none, or where
  -- loading it failed.
  unfoldable pub push_latest : Option WorkloadPolicy → Session → SyncRow E → Answer E
  unfolding push_since
  push_latest none s row = quiet s row
  push_latest (some policy) s row = push_since s.last_sent policy s row
