-- ===== src/Sync/Converge.antt =====
-- The sync stream: what the agent holds once it handled every message in flight, after a push, after
-- the answer to a failure, and after an opening that a push overtook.
use innerwall.Prelude.Tests.{
  ◌<◌, ◌≤◌, ◌≡◌, refl, sym, ◌∙◌, ap, ◌⊎◌, inl, inr, Option, none, some, List, [], ◌∷◌, All, Member,
  arith,
}
use mathlib.Core.Path.{subst}
use innerwall.Prelude.Result.{ok}
use innerwall.Netip.{Netip}
use innerwall.Rendered.{WorkloadPolicy, canonical}
use innerwall.Sync.Store.{PolicyStore}
use innerwall.Sync.Daemon.{
  snapshot_update, delta_update, no_update, SyncResponse, hello_ack, policy_update, directive,
  empty_response, PolicyAck, ack_failed, handle, apply_update, finish_update, target,
}
use innerwall.Sync.Gateway.{
  Session, SyncRow, Answer, degraded, handle_ack, send_recovery_snapshot, open_session,
  queue_snapshot, push_newer, push_since, push_latest, snapshot_of,
}
use innerwall.Sync.Link.{
  Link, answered, opened_link, queued, pushes, queues, delivers, answers, Run, here, next, Reach,
  starts, steps, Deliveries, none_handled, handled,
}
use innerwall.Sync.History.{
  IsVersioned, IsSentOf, IsHeldOf, IsMessageOf, All-Member, All-append, push_latest-IsAnswerOf,
}
use innerwall.Sync.Installed.{IsOfHistory, Reach-IsOfHistory, Step-IsOfHistory, opened-IsOfHistory}
use innerwall.Sync.InStep.{
  replay, replay-append, replay-snapshot, push_since-InStep, Run-InStep, queued-InStep,
  Deliveries-replay, Deliveries-session, Deliveries-unsent,
}

module _ ⦃ip : Netip⦄ (store : PolicyStore) where
  -- A message of the history does not end the session.
  handle-goes_on :
      (h : List WorkloadPolicy) (m : SyncResponse) (s : store.State)
      → IsMessageOf h m
      → (ack : Option (PolicyAck store.Error)) × ((handle store m s).1 ≡ ok ack)
  unfolding handle apply_update finish_update target
  handle-goes_on h hello_ack s k = absurd k
  handle-goes_on h (policy_update (snapshot_update none)) s k = absurd k
  handle-goes_on h (policy_update (snapshot_update (some p))) s k = (_, refl)
  handle-goes_on h (policy_update (delta_update d)) s k = (_, refl)
  handle-goes_on h (policy_update no_update) s k = absurd k
  handle-goes_on h (directive d) s k = absurd k
  handle-goes_on h empty_response s k = absurd k

  Run-Reach : (l m n : Link store) → Reach store l m → Run store m n → Reach store l n
  Run-Reach l m n r here = r
  Run-Reach l m n r (next {m = k} st t) = steps (Run-Reach l m k r st) t

  Deliveries-Run : (l m n : Link store) → Run store l m → Deliveries store m n → Run store l n
  Deliveries-Run l m n r none_handled = r
  Deliveries-Run l m n r (handled {m = k} msg rest ack ds e run) =
      next (Deliveries-Run l m k r ds) (delivers msg rest ack e run)

  -- Messages of the history can all be handled.
  abbrev CanDrain : Link store → Type 0
  CanDrain l = (n : Link store) × Deliveries store l n × (n.down ≡ [])

  drain :
      (ms : List SyncResponse) (l m : Link store)
      → m.down ≡ ms
      → All (IsMessageOf m.history) ms
      → Deliveries store l m
      → CanDrain l
  drain [] l m e k ds = (m, ds, e)
  drain (msg ∷ ms) l m e k ds =
      let (ack, run) = handle-goes_on m.history msg m.agent k.0 in
      drain ms l _ refl k.1 (handled msg ms ack ds e run)

  CanDrain-IsOfHistory : (l : Link store) → IsOfHistory store l → CanDrain l
  CanDrain-IsOfHistory l k = drain l.down l l refl k.flight none_handled

  newest_tip :
      (h rest : List WorkloadPolicy) (p q r : WorkloadPolicy)
      → h ≡ p ∷ rest
      → IsVersioned h
      → Member q h
      → ((r ≡ p) × (q.version < p.version)) ⊎ ((r ≡ q) × (p.version ≤ q.version))
      → r ≡ p
  newest_tip h rest p q r e v m (inl (same, lower)) = same
  newest_tip h rest p q r e v m (inr (same, above)) = elim (subst (Member q) e m) [
    | inl is ↦ same ∙ is
    | inr older ↦
        let below =
          All-Member (λ (x : WorkloadPolicy). x.version < p.version) rest q
            (subst IsVersioned e v).1 older in
        ground (arith, below, above)
  ]

  module _ (reliable : (p : WorkloadPolicy) (s : store.State) → (store.apply p s).0 ≡ none) where
    drained :
        (l n : Link store) (o : Option WorkloadPolicy)
        → replay (store.current l.agent) l.down ≡ o
        → Deliveries store l n
        → n.down ≡ []
        → store.current n.agent ≡ o
    drained l n o leads ds e =
        sym (ap (replay (store.current n.agent)) e)
        ∙ Deliveries-replay store reliable l n ds
        ∙ leads

    -- On a stream that opened with a policy and queued its snapshot before any push, for a store that
    -- refuses no policy: through any renders, pushes, deliveries and answers, the control plane's
    -- session records a policy as sent last; and whenever no message is in flight, the agent has the
    -- canonical form of that policy installed.
    pub Run-IsInstalled :
        (h : List WorkloadPolicy) (p : WorkloadPolicy) (row : SyncRow store.Error) (s : store.State)
        (m : Link store)
        → Run store (queued store p (opened_link store h p row s)) m
        → (q : WorkloadPolicy) × (m.session.last_sent ≡ some q)
          × (m.down ≡ [] → store.current m.agent ≡ some (canonical q))
    Run-IsInstalled h p row s m r =
        let (q, k) = Run-InStep store reliable _ m r (queued-InStep store reliable h p row s) in
        (q, k.tip, λ e. sym (ap (replay (store.current m.agent)) e) ∙ k.flight)

    -- On a stream that opened with a persisted policy and queued its snapshot before any push, for an
    -- agent that held nothing or a persisted policy and a store that refuses none, where each
    -- persisted policy has a higher version than those before it: once the newest persisted policy
    -- is pushed, the agent can handle every message in flight, and whenever it handled them all, on
    -- the same stream and with nothing sent besides, it holds the canonical form of that policy.
    pub newest_arrives :
        (h : List WorkloadPolicy) (p : WorkloadPolicy) (row : SyncRow store.Error) (s : store.State)
        (m : Link store) (q : WorkloadPolicy) (rest : List WorkloadPolicy)
        → IsVersioned h
        → Member p h
        → IsHeldOf h (store.current s)
        → Run store (queued store p (opened_link store h p row s)) m
        → m.history ≡ q ∷ rest
        → ((n : Link store)
            → Deliveries store (answered store m (push_latest (some q) m.session m.row)) n
            → n.down ≡ []
            → store.current n.agent ≡ some (canonical q))
          × ((n : Link store) × Deliveries store
                (answered store m (push_latest (some q) m.session m.row))
                n
              × (n.down ≡ []))
    unfolding push_latest
    newest_arrives h p row s m q rest v mp held r e =
        let of =
          Reach-IsOfHistory store _ m (Run-Reach _ _ m (steps starts (queues p refl)) r)
            (opened-IsOfHistory store h p row s v mp held) in
        let (last, k) = Run-InStep store reliable _ m r (queued-InStep store reliable h p row s) in
        let (tip, leads, which) =
          push_since-InStep store reliable m m.session.last_sent q last k.tip k in
        let same =
          newest_tip m.history rest q last tip e of.versioned
            (subst (IsSentOf m.history) k.tip of.tip) which in
        (
          λ n ds.
              drained _ n (some (canonical q)) (leads.flight ∙ ap (λ x. some (canonical x)) same)
                ds,
          CanDrain-IsOfHistory _
              (Step-IsOfHistory store m _ (pushes q (subst (Member q) (sym e) (inl refl))) of),
        )

    -- On any link that streams with persisted policies reach, overtaken openings and failed deltas
    -- included, for an agent that held nothing or a persisted policy and a store that refuses none,
    -- where each persisted policy has a higher version than those before it: where the next
    -- acknowledgement, read once the opening is over, reports a failure above the session's recovery
    -- version, the control plane's answer records the persisted policy that it loads as sent last,
    -- and its version as the recovery version; the agent can handle every message in flight, and
    -- whenever it handled them all, with nothing sent besides, it holds the canonical form of that
    -- policy.
    pub recovery_arrives :
        (h : List WorkloadPolicy) (p : WorkloadPolicy) (row : SyncRow store.Error) (s : store.State)
        (m : Link store) (a : PolicyAck store.Error) (rest : List (PolicyAck store.Error))
        (q : WorkloadPolicy)
        → IsVersioned h
        → Member p h
        → IsHeldOf h (store.current s)
        → Reach store (opened_link store h p row s) m
        → m.unsent ≡ none
        → m.up ≡ a ∷ rest
        → Member q m.history
        → a.status ≡ ack_failed
        → m.session.recovery < a.version
        → (r : Answer store.Error) × (handle_ack {F = ⊥} none (ok q) a m.session m.row ≡ ok r)
          × (r.session ≡ record { last_sent = some q; recovery = q.version })
          × ((n : Link store)
              → Deliveries store (answered store (record m { up = rest }) r) n
              → n.down ≡ []
              → store.current n.agent ≡ some (canonical q))
          × ((n : Link store) × Deliveries store (answered store (record m { up = rest }) r) n
              × (n.down ≡ []))
    recovery_arrives h p row s m a rest q v mp held r ready e mq failed news =
        let answer : Answer store.Error = record {
          session = record { last_sent = some q; recovery = q.version };
          row = record m.row { sync_state = degraded; sync_error = a.error_detail };
          sent = snapshot_of q ∷ [];
        } in
        let run : handle_ack {F = ⊥} none (ok q) a m.session m.row ≡ ok answer =
          unfold handle_ack send_recovery_snapshot in ground (arith, failed, news) in
        let of = Reach-IsOfHistory store _ m r (opened-IsOfHistory store h p row s v mp held) in
        (
          answer,
          run,
          refl,
          λ n ds.
              drained _ n (some (canonical q))
                (replay-append (store.current m.agent) m.down (snapshot_of q)
                  ∙ replay-snapshot (replay (store.current m.agent) m.down) q)
                ds,
          CanDrain-IsOfHistory _
              (Step-IsOfHistory store m _ (answers a rest q answer ready e mq run) of),
        )

    -- Where a newer persisted policy is pushed between the opening of a session and the queueing of
    -- its snapshot, the stream reaches a state with nothing in flight in which the session records
    -- the newer policy as sent last, while the agent has the older one installed, whatever it held.
    pub opening_overtaken :
        (h : List WorkloadPolicy) (p q : WorkloadPolicy) (row : SyncRow store.Error)
        (s : store.State)
        → Member p h
        → Member q h
        → p.version < q.version
        → (n : Link store) × Run store (opened_link store h p row s) n
          × (n.unsent ≡ none)
          × (n.down ≡ [])
          × (n.session.last_sent ≡ some q)
          × (store.current n.agent ≡ some (canonical p))
    opening_overtaken h p q row s mp mq newer =
        let l = opened_link store h p row s in
        let pushed = push_latest (some q) l.session l.row in
        let m = queued store p (answered store l pushed) in
        let sent = push_latest-IsAnswerOf h q mq l.session l.row (unfold open_session in mp) in
        let flight : All (IsMessageOf h) m.down =
          All-append h pushed.sent _ sent.1 (unfold queue_snapshot in (mp, tt)) in
        let (n, ds, silent) = drain m.down m m refl flight none_handled in
        (
          n,
          Deliveries-Run l m n (next (next here (pushes q mq)) (queues p refl)) ds,
          Deliveries-unsent store reliable m n ds,
          silent,
          ap (λ (x : Session). x.last_sent) (Deliveries-session store reliable m n ds)
              ∙ unfold open_session queue_snapshot push_latest push_since push_newer in
                ground (arith, newer),
          drained m n (some (canonical p))
              (unfold queue_snapshot in
                (replay-append (store.current s) pushed.sent (snapshot_of p)
                  ∙ replay-snapshot (replay (store.current s) pushed.sent) p))
              ds silent,
        )
