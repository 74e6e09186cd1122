-- ===== src/Examples/Streams.antt =====
-- Runs of the sync stream on a store in memory.
use innerwall.Prelude.Tests.{
  ℕ, ◌*◌, ◌^◌, ◌<◌, ◌≡◌, refl, inl, inr, Option, none, some, List, [], ◌∷◌, arith,
}
use innerwall.Prelude.Result.{ok}
use innerwall.Rendered.{WorkloadPolicy, canonical}
use innerwall.Sync.Store.{PolicyStore, memory_store, memory_apply, memory_outcome}
use innerwall.Sync.Daemon.{
  SyncResponse, policy_update, delta_update, PolicyAck, ack_failed, handle, apply_update,
  finish_update, install, target,
}
use innerwall.Sync.Backoff.{backoff, least, backoff-limit, backoff-least}
use innerwall.Delta.{delta, apply}
use innerwall.Rendered.{empty}
use innerwall.Sync.Gateway.{
  SyncRow, Answer, synced, handle_ack, snapshot_of, push_latest, push_since, push_newer, pending,
  open_session, queue_snapshot,
}
use innerwall.Sync.Link.{
  Link, answered, opened_link, queued, Run, here, next, Reach, starts, steps, Deliveries, renders,
  pushes, queues, delivers,
}
use innerwall.Sync.History.{IsHeldOf}
use innerwall.Sync.Installed.{Reach-IsHeldOf}
use innerwall.Sync.Converge.{Run-IsInstalled, newest_arrives, recovery_arrives}
use innerwall.Examples.Net.{net}
use innerwall.Examples.Data.{policy_one, policy_two}

abbrev memory : PolicyStore
memory = memory_store {E = ℕ} (λ p. none)

never_refuses : (p : WorkloadPolicy) (s : Option WorkloadPolicy) → (memory.apply p s).0 ≡ none
unfolding memory_apply memory_outcome
never_refuses p s = refl

abbrev fresh_row : SyncRow ℕ
fresh_row = record { sync_state = synced; applied_version = 0; sync_error = none }

abbrev one_history : List WorkloadPolicy
one_history = policy_one ∷ []

-- A stream that opens with the first policy on an empty agent and queues its snapshot; the second
-- policy is rendered, and the agent reads the snapshot.
abbrev first_link : Link memory
first_link = opened_link memory one_history policy_one fresh_row none

abbrev queued_link : Link memory
queued_link = queued memory policy_one first_link

abbrev rendered_link : Link memory
rendered_link = record queued_link { history = policy_two ∷ one_history }

abbrev delivered_link : Link memory
delivered_link = record rendered_link {
  down = [];
  up = record { version = 3; status = 1; error_detail = none } ∷ [];
  agent = (handle memory (snapshot_of policy_one) none).0;
}

delivered-Run : Run memory queued_link delivered_link
unfolding handle apply_update finish_update install target memory_apply memory_outcome canonical
    queue_snapshot
delivered-Run =
    next (next here (renders policy_two (omega arith) (omega arith, tt)))
      (delivers (snapshot_of policy_one) [] _ refl refl)

rendered-Reach : Reach memory first_link rendered_link
rendered-Reach =
    steps (steps starts (queues policy_one refl))
      (renders policy_two (omega arith) (omega arith, tt))

delivered-Reach : Reach memory first_link delivered_link
unfolding handle apply_update finish_update install target memory_apply memory_outcome canonical
    queue_snapshot
delivered-Reach = steps rendered-Reach (delivers (snapshot_of policy_one) [] _ refl refl)

Reach-IsHeldOf_example : IsHeldOf delivered_link.history (memory.current delivered_link.agent)
Reach-IsHeldOf_example =
    Reach-IsHeldOf memory one_history policy_one fresh_row none delivered_link (omega arith, tt, tt)
      (inl refl) tt delivered-Reach

Run-IsInstalled_example :
    (q : WorkloadPolicy) × (delivered_link.session.last_sent ≡ some q)
    × (delivered_link.down ≡ [] → memory.current delivered_link.agent ≡ some (canonical q))
Run-IsInstalled_example =
    Run-IsInstalled memory never_refuses one_history policy_one fresh_row none delivered_link
      delivered-Run

newest_arrives_example :
    ((n : Link memory)
      → Deliveries memory
          (answered memory delivered_link
            (push_latest (some policy_two) delivered_link.session delivered_link.row))
          n
      → n.down ≡ []
      → memory.current n.agent ≡ some (canonical policy_two))
    × ((n : Link memory) × Deliveries memory
          (answered memory delivered_link
            (push_latest (some policy_two) delivered_link.session delivered_link.row))
          n
        × (n.down ≡ []))
newest_arrives_example =
    newest_arrives memory never_refuses one_history policy_one fresh_row none delivered_link
      policy_two one_history (omega arith, tt, tt) (inl refl) tt delivered-Run refl

-- On an agent that holds nothing, the delta that overtook the opening's snapshot fails.
abbrev overtaking : SyncResponse
overtaking = policy_update (delta_update (delta policy_one policy_two))

abbrev two_history : List WorkloadPolicy
two_history = policy_two ∷ one_history

abbrev overtaken_link : Link memory
overtaken_link = record (opened_link memory two_history policy_one fresh_row none) {
  session = record { last_sent = some policy_two; recovery = 0 };
  row = record fresh_row { sync_state = pending };
  unsent = none;
  down = overtaking ∷ snapshot_of policy_one ∷ [];
}

overtaken-Reach :
    Reach memory (opened_link memory two_history policy_one fresh_row none) overtaken_link
unfolding push_latest push_since push_newer open_session queue_snapshot
overtaken-Reach = steps (steps starts (pushes policy_two (inl refl))) (queues policy_one refl)

failing :
    (a : PolicyAck ℕ) × ((handle memory overtaking none).1 ≡ ok (some a))
    × (a.status ≡ ack_failed)
    × (0 < a.version)
unfolding handle apply_update finish_update install target apply delta empty canonical
failing = (_, refl, refl, omega arith)

abbrev failed_link : Link memory
failed_link = record overtaken_link {
  down = snapshot_of policy_one ∷ [];
  up = failing.0 ∷ [];
  agent = (handle memory overtaking none).0;
}

failed-Reach : Reach memory (opened_link memory two_history policy_one fresh_row none) failed_link
failed-Reach =
    steps overtaken-Reach
      (delivers overtaking (snapshot_of policy_one ∷ []) (some failing.0) refl failing.1)

recovery_arrives_example :
    (r : Answer ℕ) × (handle_ack {F = ⊥} none
        (ok policy_two)
        failing.0
        failed_link.session
        failed_link.row
      ≡ ok r)
    × (r.session ≡ record { last_sent = some policy_two; recovery = policy_two.version })
    × ((n : Link memory)
        → Deliveries memory (answered memory (record failed_link { up = [] }) r) n
        → n.down ≡ []
        → memory.current n.agent ≡ some (canonical policy_two))
    × ((n : Link memory) × Deliveries memory (answered memory (record failed_link { up = [] }) r) n
        × (n.down ≡ []))
recovery_arrives_example =
    recovery_arrives memory never_refuses two_history policy_one fresh_row none failed_link
      failing.0 [] policy_two (omega arith, (omega arith, tt), (omega arith, tt, tt))
      (inr (inl refl)) tt failed-Reach refl refl (inl refl) failing.2 failing.3

-- A source of draws that is always the least.
abbrev draw_zero : ℕ → ℕ
draw_zero n = 0

backoff-limit_example : backoff draw_zero 70 1000000000 300000000000 < 300000000000
backoff-limit_example = backoff-limit draw_zero 70 1000000000 300000000000 (λ n h. h) (omega arith)

backoff-least_example :
    backoff draw_zero 3 1000000000 300000000000 < least (1000000000 * 2 ^ least 3 20) 300000000000
backoff-least_example =
    backoff-least draw_zero 3 1000000000 300000000000 (λ n h. h) (omega arith) (omega arith)
      (omega arith)
