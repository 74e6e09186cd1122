-- ===== src/Sync/Daemon.antt =====
-- internal/agent/sync/daemon.go: what the agent does with a message of the control plane. Sending is
-- left to the stream: a handler returns the acknowledgement that it sends.
use innerwall.Prelude.Tests.{ℕ, Option, none, some, map_option}
use innerwall.Prelude.Result.{Result, ok, err}
use innerwall.Netip.{Netip}
use innerwall.Rendered.{WorkloadPolicy, canonical}
use innerwall.Delta.{PolicyDelta, ApplyError, apply}
use innerwall.Plan.{policy_or_empty}
use innerwall.Sync.Store.{PolicyStore}

-- A PolicyUpdate; `no_update` carries neither variant.
pub data Update : Type 0 where
  snapshot_update : Option WorkloadPolicy → Update
  delta_update : PolicyDelta → Update
  no_update : Update

pub data Directive : Type 0 where
  reconnect : Directive
  reenroll : Directive
  unknown_directive : Directive

pub data SyncResponse : Type 0 where
  hello_ack : SyncResponse
  policy_update : Update → SyncResponse
  directive : Directive → SyncResponse
  empty_response : SyncResponse

abbrev pub AckStatus : Type 0
AckStatus = ℕ

abbrev pub ack_applied : AckStatus
ack_applied = 1

abbrev pub ack_failed : AckStatus
ack_failed = 2

-- Why an update was not applied; the wire carries its text.
pub data ApplyFailure (E : Type 0) : Type 0 where
  not_applicable : ApplyError → ApplyFailure E
  store_refused : E → ApplyFailure E

pub record PolicyAck (E : Type 0) : Type 0 where
  pub version : ℕ
  pub status : AckStatus
  pub error_detail : Option (ApplyFailure E)

-- The errors with which a message ends the session.
pub data SessionEnd : Type 0 where
  reconnect_directed : SessionEnd
  reenroll_required : SessionEnd
  second_hello_ack : SessionEnd
  update_carries_nothing : SessionEnd

-- The policy that an update leads to, and the version that its acknowledgement names.
pub record Target : Type 0 where
  pub version : ℕ
  pub next : Result ApplyError WorkloadPolicy

module _ ⦃ip : Netip⦄ where
  unfoldable pub target : WorkloadPolicy → Update → Option Target
  target current (snapshot_update p) = some (record {
    version = (canonical (policy_or_empty p)).version;
    next = ok (canonical (policy_or_empty p));
  })
  target current (delta_update d) = some (record { version = d.to_version; next = apply current d })
  target current no_update = none

  module _ (store : PolicyStore) where
    unfoldable pub install :
        Result ApplyError WorkloadPolicy
        → store.State
        → Option (ApplyFailure store.Error) × store.State
    install (err e) s = (some (not_applicable e), s)
    install (ok p) s = (map_option store_refused (store.apply p s).0, (store.apply p s).1)

    abbrev pub ack_of : ℕ → Option (ApplyFailure store.Error) → PolicyAck store.Error
    ack_of version none = record { version = version; status = ack_applied; error_detail = none }
    ack_of version (some f) = record {
      version = version;
      status = ack_failed;
      error_detail = some f;
    }

    abbrev pub Handled : Type 0
    Handled = store.State × Result SessionEnd (Option (PolicyAck store.Error))

    unfoldable pub finish_update : Option Target → store.State → Handled
    unfolding install
    finish_update none s = (s, err update_carries_nothing)
    finish_update (some t) s =
        ((install t.next s).1, ok (some (ack_of t.version (install t.next s).0)))

    -- `applyUpdate`.
    unfoldable pub apply_update : Update → store.State → Handled
    unfolding finish_update target
    apply_update u s = finish_update (target (policy_or_empty (store.current s)) u) s

    -- `handle`.
    unfoldable pub handle : SyncResponse → store.State → Handled
    unfolding apply_update
    handle (policy_update u) s = apply_update u s
    handle (directive reconnect) s = (s, err reconnect_directed)
    handle (directive reenroll) s = (s, err reenroll_required)
    handle (directive unknown_directive) s = (s, ok none)
    handle hello_ack s = (s, err second_hello_ack)
    handle empty_response s = (s, ok none)
