-- ===== src/Sync/Link.antt =====
-- internal/gateway/sync.go and internal/agent/sync/daemon.go together: one workload's stream as a
-- relation of steps. Each handler is one step; the policy that a handler loads is any that was
-- persisted by then, since it is loaded outside the session's lock. The opening of a stream is two
-- steps, since the lock is free between them: the session records the policy as sent, and then its
-- snapshot is queued. Nothing is pushed to a session that records no policy, and acknowledgements
-- are read when the opening is over. The directives that a stream also carries are left out: one ends
-- the stream, as it may end at any step.
use innerwall.Prelude.Tests.{◌<◌, ◌≡◌, Option, none, some, List, [], ◌∷◌, ◌++◌, All, Member}
use innerwall.Prelude.Result.{ok}
use innerwall.Netip.{Netip}
use innerwall.Rendered.{WorkloadPolicy}
use innerwall.Sync.Store.{PolicyStore}
use innerwall.Sync.Daemon.{SyncResponse, PolicyAck, handle}
use innerwall.Sync.Gateway.{
  Session, SyncRow, Answer, open_session, queue_snapshot, handle_ack, push_latest,
}

module _ ⦃ip : Netip⦄ (store : PolicyStore) where
  -- The policies that were persisted for the workload, newest first; the control plane's session and
  -- registry row; the policy whose snapshot the opening has still to queue; the messages in flight,
  -- oldest first; the agent's store.
  pub record Link : Type 0 where
    pub history : List WorkloadPolicy
    pub session : Session
    pub row : SyncRow store.Error
    pub unsent : Option WorkloadPolicy
    pub down : List SyncResponse
    pub up : List (PolicyAck store.Error)
    pub agent : store.State

  abbrev pub acks : Option (PolicyAck store.Error) → List (PolicyAck store.Error)
  acks none = []
  acks (some a) = a ∷ []

  abbrev pub answered : Link → Answer store.Error → Link
  answered l a = record l { session = a.session; row = a.row; down = l.down ++ a.sent }

  -- A stream that opens with a policy, whatever the agent holds: the agent reads the HelloAck before
  -- its loop of messages.
  abbrev pub opened_link :
      List WorkloadPolicy → WorkloadPolicy → SyncRow store.Error → store.State → Link
  opened_link history p row agent = record {
    history = history;
    session = open_session p;
    row = row;
    unsent = some p;
    down = [];
    up = [];
    agent = agent;
  }

  -- The opening's snapshot is queued, behind what was pushed since the session was opened.
  abbrev pub queued : WorkloadPolicy → Link → Link
  queued p l = record (answered l (queue_snapshot p l.session l.row)) { unsent = none }

  -- The steps of one stream.
  pub data Step (l : Link) : Link → Type 0 where
    -- A render persists a policy, at a newer version.
    renders :
        (p : WorkloadPolicy)
        → 0 < p.version
        → All (λ (q : WorkloadPolicy). q.version < p.version) l.history
        → Step l (record l { history = p ∷ l.history })
    pushes :
        (p : WorkloadPolicy)
        → Member p l.history
        → Step l (answered l (push_latest (some p) l.session l.row))
    queues : (p : WorkloadPolicy) → l.unsent ≡ some p → Step l (queued p l)
    -- The agent handles the oldest message.
    delivers :
        (m : SyncResponse) (rest : List SyncResponse) (ack : Option (PolicyAck store.Error))
        → l.down ≡ m ∷ rest
        → (handle store m l.agent).1 ≡ ok ack
        → Step l
            (record l { down = rest; up = l.up ++ acks ack; agent = (handle store m l.agent).0 })
    -- The control plane handles the oldest acknowledgement.
    answers :
        (a : PolicyAck store.Error) (rest : List (PolicyAck store.Error)) (p : WorkloadPolicy)
        (r : Answer store.Error)
        → l.unsent ≡ none
        → l.up ≡ a ∷ rest
        → Member p l.history
        → handle_ack {F = ⊥} none (ok p) a l.session l.row ≡ ok r
        → Step l (answered (record l { up = rest }) r)

  -- What one stream's steps lead to.
  pub data Run (l : Link) : Link → Type 0 where
    here : Run l l
    next : {m n : Link} → Run l m → Step m n → Run l n

  -- What is reached where streams also end, and new ones open.
  pub data Reach (l : Link) : Link → Type 0 where
    starts : Reach l l
    steps : {m n : Link} → Reach l m → Step m n → Reach l n
    reopens :
        {m : Link} (p : WorkloadPolicy)
        → Reach l m
        → Member p m.history
        → Reach l (opened_link m.history p m.row m.agent)

  -- What is reached where the agent only handles messages, the oldest first.
  pub data Deliveries (l : Link) : Link → Type 0 where
    none_handled : Deliveries l l
    handled :
        {m : Link} (msg : SyncResponse) (rest : List SyncResponse)
        (ack : Option (PolicyAck store.Error))
        → Deliveries l m
        → m.down ≡ msg ∷ rest
        → (handle store msg m.agent).1 ≡ ok ack
        → Deliveries l
            (record m { down = rest; up = m.up ++ acks ack; agent = (handle store msg m.agent).0 })
