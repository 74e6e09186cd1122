-- ===== src/Sync/Installed.antt =====
-- The sync stream: whatever fails, an agent only ever holds a policy that the control plane persisted.
use innerwall.Prelude.Tests.{
  ◌≡◌, refl, sym, ◌∙◌, ap, inl, inr, Option, none, some, List, All, Member, Option-cases, arith,
}
use mathlib.Core.Path.{subst}
use innerwall.Prelude.Result.{Result, ok, err, ok_injective}
use innerwall.Netip.{Netip}
use innerwall.Rendered.{WorkloadPolicy, empty, canonical}
use innerwall.Rendered.Canon.{canonical_idem}
use innerwall.Delta.{PolicyDelta, ApplyError, delta, apply}
use innerwall.Delta.Roundtrip.{apply-delta}
use innerwall.Delta.Replay.{apply-canonical, apply_outcome}
use innerwall.Plan.{policy_or_empty}
use innerwall.Sync.Store.{PolicyStore}
use innerwall.Sync.Daemon.{
  snapshot_update, delta_update, no_update, reconnect, reenroll, unknown_directive, SyncResponse,
  hello_ack, policy_update, directive, empty_response, target, install, finish_update, apply_update,
  handle,
}
use innerwall.Sync.Gateway.{SyncRow, open_session, queue_snapshot, push_latest}
use innerwall.Sync.Link.{
  Link, opened_link, Step, renders, pushes, queues, delivers, answers, Reach, starts, steps,
  reopens,
}
use innerwall.Sync.History.{
  IsVersioned, version-injective, version-positive, IsHeldOf, IsSentOf, IsUpdateOf, IsMessageOf,
  IsHeldOf-later, IsSentOf-later, All-later, All-append, push_latest-IsAnswerOf,
  handle_ack-IsAnswerOf,
}

module _ ⦃ip : Netip⦄ where
  version-canonical : (p : WorkloadPolicy) → (canonical p).version ≡ p.version
  unfolding canonical
  version-canonical p = refl

  from_version-delta : (a b : WorkloadPolicy) → (delta a b).from_version ≡ a.version
  unfolding delta
  from_version-delta a b = refl

  -- What a delta of the history leads to, from what an agent holds, is of the history.
  applied-IsHeldOf :
      (h : List WorkloadPolicy) (o : Option WorkloadPolicy) (d : PolicyDelta) (to : WorkloadPolicy)
      → IsVersioned h
      → IsHeldOf h o
      → IsUpdateOf h (delta_update d)
      → apply (policy_or_empty o) d ≡ ok to
      → (p : WorkloadPolicy) × Member p h × (to ≡ canonical p)
  unfolding empty
  applied-IsHeldOf h none d to v k (a, b, ma, mb, e) run =
      let (same, rest, normal) = (apply_outcome empty d).1 to run in
      ground (
        arith,
        version-positive h a v ma,
        ap (λ (x : PolicyDelta). x.from_version) e,
        same,
        from_version-delta a b,
      )
  applied-IsHeldOf h (some q) d to v (p, mp, c) (a, b, ma, mb, e) run =
      let (same, rest, normal) = (apply_outcome q d).1 to run in
      let versions : p.version ≡ a.version =
        sym (ap (λ (x : WorkloadPolicy). x.version) c ∙ version-canonical p)
        ∙ same
        ∙ ap (λ (x : PolicyDelta). x.from_version) e
        ∙ from_version-delta a b in
      let one = version-injective h p a v mp ma versions in
      let gives : apply q d ≡ ok (canonical b) =
        ap (λ x. apply x d) c
        ∙ ap (apply (canonical p)) e
        ∙ ap (λ x. apply (canonical x) (delta a b)) one
        ∙ apply-canonical a (delta a b)
        ∙ apply-delta a b in
      (b, mb, ok_injective to (canonical b) (sym run ∙ gives))

  module _ (store : PolicyStore) where
    -- What an agent holds after it installs a policy, where that policy is of the history, is too.
    install-IsHeldOf :
        (h : List WorkloadPolicy) (t : Result ApplyError WorkloadPolicy) (s : store.State)
        → IsHeldOf h (store.current s)
        → ((to : WorkloadPolicy)
            → t ≡ ok to
            → (p : WorkloadPolicy) × Member p h × (to ≡ canonical p))
        → IsHeldOf h (store.current (install store t s).1)
    unfolding install
    install-IsHeldOf h (err e) s k from = k
    install-IsHeldOf h (ok to) s k from = elim (Option-cases (store.apply to s).0) [
      | inl fine ↦
          let (p, m, e) = from to refl in
          subst (IsHeldOf h) (sym (store.apply-installs to s fine))
            (p, m, ap canonical e ∙ canonical_idem p)
      | inr (e, bad) ↦ subst (IsHeldOf h) (sym (store.apply-keeps to s e bad)) k
    ]

    handle-IsHeldOf :
        (h : List WorkloadPolicy) (m : SyncResponse) (s : store.State)
        → IsVersioned h
        → IsMessageOf h m
        → IsHeldOf h (store.current s)
        → IsHeldOf h (store.current (handle store m s).0)
    unfolding handle apply_update finish_update target
    handle-IsHeldOf h hello_ack s v k c = c
    handle-IsHeldOf h (policy_update (snapshot_update none)) s v k c = absurd k
    handle-IsHeldOf h (policy_update (snapshot_update (some p))) s v k c =
        install-IsHeldOf h (ok (canonical p)) s c
          (λ to e. (p, k, sym (ok_injective (canonical p) to e)))
    handle-IsHeldOf h (policy_update (delta_update d)) s v k c =
        install-IsHeldOf h (apply (policy_or_empty (store.current s)) d) s c
          (λ to e. applied-IsHeldOf h (store.current s) d to v c k e)
    handle-IsHeldOf h (policy_update no_update) s v k c = c
    handle-IsHeldOf h (directive reconnect) s v k c = c
    handle-IsHeldOf h (directive reenroll) s v k c = c
    handle-IsHeldOf h (directive unknown_directive) s v k c = c
    handle-IsHeldOf h empty_response s v k c = c

    -- The agent, the session and the messages in flight are of the history.
    pub record IsOfHistory (l : Link store) : Type 0 where
      pub versioned : IsVersioned l.history
      pub held : IsHeldOf l.history (store.current l.agent)
      pub tip : IsSentOf l.history l.session.last_sent
      pub flight : All (IsMessageOf l.history) l.down
      pub waiting : IsSentOf l.history l.unsent

    pub Step-IsOfHistory : (l m : Link store) → Step store l m → IsOfHistory l → IsOfHistory m
    Step-IsOfHistory l m (renders p positive newer) k = record {
      versioned = (positive, newer, k.versioned);
      held = IsHeldOf-later p l.history (store.current l.agent) k.held;
      tip = IsSentOf-later p l.history l.session.last_sent k.tip;
      flight = All-later p l.history l.down k.flight;
      waiting = IsSentOf-later p l.history l.unsent k.waiting;
    }
    Step-IsOfHistory l m (pushes p mp) k =
        let (tip, sent) = push_latest-IsAnswerOf l.history p mp l.session l.row k.tip in
        record {
          versioned = k.versioned;
          held = k.held;
          tip = tip;
          flight =
              All-append l.history l.down (push_latest (some p) l.session l.row).sent k.flight sent;
          waiting = k.waiting;
        }
    Step-IsOfHistory l m (delivers msg rest ack e run) k =
        let flight = subst (All (IsMessageOf l.history)) e k.flight in
        record {
          versioned = k.versioned;
          held = handle-IsHeldOf l.history msg l.agent k.versioned flight.0 k.held;
          tip = k.tip;
          flight = flight.1;
          waiting = k.waiting;
        }
    Step-IsOfHistory l m (answers a rest p r sent_all e mp run) k =
        let (tip, sent) = handle_ack-IsAnswerOf l.history p mp a l.session l.row r k.tip run in
        record {
          versioned = k.versioned;
          held = k.held;
          tip = tip;
          flight = All-append l.history l.down r.sent k.flight sent;
          waiting = k.waiting;
        }
    Step-IsOfHistory l m (queues p e) k =
        let mp = subst (IsSentOf l.history) e k.waiting in
        record {
          versioned = k.versioned;
          held = k.held;
          tip = unfold queue_snapshot in k.tip;
          flight = All-append l.history l.down _ k.flight (unfold queue_snapshot in (mp, tt));
          waiting = tt;
        }

    pub opened-IsOfHistory :
        (h : List WorkloadPolicy) (p : WorkloadPolicy) (row : SyncRow store.Error) (s : store.State)
        → IsVersioned h
        → Member p h
        → IsHeldOf h (store.current s)
        → IsOfHistory (opened_link store h p row s)
    opened-IsOfHistory h p row s v mp held = record {
      versioned = v;
      held = held;
      tip = unfold open_session in mp;
      flight = tt;
      waiting = mp;
    }

    pub Reach-IsOfHistory : (l m : Link store) → Reach store l m → IsOfHistory l → IsOfHistory m
    Reach-IsOfHistory l m starts k = k
    Reach-IsOfHistory l m (steps {m = n} r st) k =
        Step-IsOfHistory n m st (Reach-IsOfHistory l n r k)
    Reach-IsOfHistory l m (reopens {m = n} p r mp) k =
        let before = Reach-IsOfHistory l n r k in
        opened-IsOfHistory n.history p n.row n.agent before.versioned mp before.held

    -- From a stream's opening with a persisted policy, on an agent that holds nothing or a
    -- persisted policy, where each persisted policy has a higher version than those before it,
    -- and through any pushes, failed or stale messages, answers, newer renders and reopened
    -- streams, the agent holds nothing or the canonical form of a policy that was persisted.
    pub Reach-IsHeldOf :
        (h : List WorkloadPolicy) (p : WorkloadPolicy) (row : SyncRow store.Error) (s : store.State)
        (m : Link store)
        → IsVersioned h
        → Member p h
        → IsHeldOf h (store.current s)
        → Reach store (opened_link store h p row s) m
        → IsHeldOf m.history (store.current m.agent)
    Reach-IsHeldOf h p row s m v mp held r =
        (Reach-IsOfHistory (opened_link store h p row s) m r
          (opened-IsOfHistory h p row s v mp held)).held
