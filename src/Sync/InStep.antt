-- ===== src/Sync/InStep.antt =====
-- The sync stream where the agent's store accepts every policy: where the opening's snapshot is queued
-- before any delta, the messages in flight lead the agent to the policy that the control plane sent
-- last.
use innerwall.Prelude.Tests.{
  ◌<◌, ◌≤◌, ◌≡◌, refl, sym, ◌∙◌, ap, ◌⊎◌, inl, inr, Option, none, some, List, [], ◌∷◌, ◌++◌,
  Bool-cases, leb, arith,
}
use mathlib.Core.List.{append-nil}
use innerwall.Prelude.Result.{Result, ok, err}
use innerwall.Netip.{Netip}
use innerwall.Rendered.{WorkloadPolicy, canonical}
use innerwall.Rendered.Canon.{canonical_idem}
use innerwall.Delta.{ApplyError, delta, apply}
use innerwall.Delta.Roundtrip.{apply-delta}
use innerwall.Delta.Replay.{apply-canonical}
use innerwall.Plan.{policy_or_empty}
use innerwall.Sync.Store.{PolicyStore}
use innerwall.Sync.Daemon.{
  snapshot_update, delta_update, no_update, reconnect, reenroll, unknown_directive, SyncResponse,
  hello_ack, policy_update, directive, empty_response, PolicyAck, Target, target, install,
  finish_update, apply_update, handle,
}
use innerwall.Sync.Gateway.{
  Session, SyncRow, Answer, open_session, queue_snapshot, handle_ack, handle_ack-cases, kept,
  recovers, push_newer, push_since, push_latest, snapshot_of, quiet,
}
use innerwall.Sync.Link.{
  Link, answered, opened_link, queued, Step, renders, pushes, queues, delivers, answers, Run, here,
  next, Deliveries, none_handled, handled,
}

module _ ⦃ip : Netip⦄ where
  pub held_after : Option WorkloadPolicy → Result ApplyError WorkloadPolicy → Option WorkloadPolicy
  held_after o (err e) = o
  held_after o (ok p) = some (canonical p)

  pub update_held : Option WorkloadPolicy → Option Target → Option WorkloadPolicy
  unfolding held_after
  update_held o none = o
  update_held o (some t) = held_after o t.next

  -- What an agent holds after a message that its store does not refuse, whether or not the message
  -- ends the session.
  unfoldable pub replay_one : Option WorkloadPolicy → SyncResponse → Option WorkloadPolicy
  unfolding update_held target
  replay_one o (policy_update u) = update_held o (target (policy_or_empty o) u)
  replay_one o hello_ack = o
  replay_one o (directive d) = o
  replay_one o empty_response = o

  abbrev pub replay : Option WorkloadPolicy → List SyncResponse → Option WorkloadPolicy
  replay o [] = o
  replay o (m ∷ ms) = replay (replay_one o m) ms

  pub replay-append :
      (o : Option WorkloadPolicy) (ms : List SyncResponse) (m : SyncResponse)
      → replay o (ms ++ m ∷ []) ≡ replay_one (replay o ms) m
  replay-append o [] m = refl
  replay-append o (n ∷ ms) m = replay-append (replay_one o n) ms m

  pub replay-snapshot :
      (o : Option WorkloadPolicy) (p : WorkloadPolicy)
      → replay_one o (snapshot_of p) ≡ some (canonical p)
  unfolding replay_one update_held held_after target
  replay-snapshot o p = ap some (canonical_idem p)

  replay-delta :
      (p q : WorkloadPolicy)
      → replay_one (some (canonical p)) (policy_update (delta_update (delta p q)))
        ≡ some (canonical q)
  unfolding replay_one update_held held_after target
  replay-delta p q =
      ap (held_after (some (canonical p))) (apply-canonical p (delta p q) ∙ apply-delta p q)
      ∙ ap some (canonical_idem q)

  module _ (store : PolicyStore)
      (reliable : (p : WorkloadPolicy) (s : store.State) → (store.apply p s).0 ≡ none) where
    install-replay :
        (r : Result ApplyError WorkloadPolicy) (s : store.State)
        → store.current (install store r s).1 ≡ held_after (store.current s) r
    unfolding install held_after
    install-replay (err e) s = refl
    install-replay (ok p) s = store.apply-installs p s (reliable p s)

    pub handle-replay :
        (m : SyncResponse) (s : store.State)
        → store.current (handle store m s).0 ≡ replay_one (store.current s) m
    unfolding handle apply_update finish_update target replay_one update_held
    handle-replay hello_ack s = refl
    handle-replay (policy_update (snapshot_update p)) s =
        install-replay (ok (canonical (policy_or_empty p))) s
    handle-replay (policy_update (delta_update d)) s =
        install-replay (apply (policy_or_empty (store.current s)) d) s
    handle-replay (policy_update no_update) s = refl
    handle-replay (directive reconnect) s = refl
    handle-replay (directive reenroll) s = refl
    handle-replay (directive unknown_directive) s = refl
    handle-replay empty_response s = refl

    -- The session's last policy is this one, and the messages in flight lead the agent to it.
    pub record IsInStep (l : Link store) (p : WorkloadPolicy) : Type 0 where
      pub tip : l.session.last_sent ≡ some p
      pub ready : l.unsent ≡ none
      pub flight : replay (store.current l.agent) l.down ≡ some (canonical p)

    IsInStep-sent :
        (l : Link store) (p q : WorkloadPolicy) (m : SyncResponse) (a : Answer store.Error)
        → IsInStep l p
        → a.session.last_sent ≡ some q
        → a.sent ≡ m ∷ []
        → replay_one (some (canonical p)) m ≡ some (canonical q)
        → IsInStep (answered store l a) q
    IsInStep-sent l p q m a k tip sent leads = record {
      tip = tip;
      ready = k.ready;
      flight =
          ap (λ ms. replay (store.current l.agent) (l.down ++ ms)) sent
          ∙ replay-append (store.current l.agent) l.down m
          ∙ ap (λ o. replay_one o m) k.flight
          ∙ leads;
    }

    IsInStep-quiet :
        (l : Link store) (p : WorkloadPolicy) (a : Answer store.Error)
        → IsInStep l p
        → a.session ≡ l.session
        → a.sent ≡ []
        → IsInStep (answered store l a) p
    IsInStep-quiet l p a k same silent = record {
      tip = ap (λ (s : Session). s.last_sent) same ∙ k.tip;
      ready = k.ready;
      flight =
          ap (λ ms. replay (store.current l.agent) (l.down ++ ms)) silent
          ∙ ap (replay (store.current l.agent)) (append-nil l.down)
          ∙ k.flight;
    }

    abbrev pub InStep : Link store → Type 0
    InStep l = (p : WorkloadPolicy) × IsInStep l p

    pub push_since-InStep :
        (l : Link store) (o : Option WorkloadPolicy) (p q : WorkloadPolicy)
        → o ≡ some q
        → IsInStep l q
        → ((r : WorkloadPolicy) × IsInStep (answered store l (push_since o p l.session l.row)) r
            × (((r ≡ p) × (q.version < p.version)) ⊎ ((r ≡ q) × (p.version ≤ q.version))))
    unfolding push_since push_newer
    push_since-InStep l none p q e k = cc
    push_since-InStep l (some last) p q e k =
        let same : last ≡ q = cc in
        elim (Bool-cases (leb p.version last.version)) [
          | inl old ↦ (
            q,
            rw old (IsInStep-quiet l q (quiet l.session l.row) k refl refl),
            inr (refl, ground (arith, old, ap (λ (x : WorkloadPolicy). x.version) same)),
          )
          | inr new ↦ (
            p,
            rw new (
                IsInStep-sent l q p (policy_update (delta_update (delta last p))) _ k refl refl (
                  ap
                    (λ x.
                      replay_one (some (canonical q)) (policy_update (delta_update (delta x p))))
                    same
                  ∙ replay-delta q p)),
            inl (refl, ground (arith, new, ap (λ (x : WorkloadPolicy). x.version) same)),
          )
        ]

    answer-InStep :
        (l : Link store) (p q : WorkloadPolicy) (a : PolicyAck store.Error) (r : Answer store.Error)
        → IsInStep l q
        → handle_ack {F = ⊥} none (ok p) a l.session l.row ≡ ok r
        → InStep (answered store l r)
    answer-InStep l p q a r k e = elim (handle_ack-cases p a l.session l.row r e) [
      | kept why same silent ↦ (q, IsInStep-quiet l q r k same silent)
      | recovers failed news same sent ↦ (
        p,
        IsInStep-sent l q p (snapshot_of p) r k (ap (λ (s : Session). s.last_sent) same) sent
            (replay-snapshot (some (canonical q)) p),
      )
    ]

    Step-InStep : (l m : Link store) → Step store l m → InStep l → InStep m
    Step-InStep l m (renders p positive newer) (q, k) =
        (q, record { tip = k.tip; ready = k.ready; flight = k.flight })
    Step-InStep l m (pushes p mp) (q, k) =
        let (r, leads, _) = push_since-InStep l l.session.last_sent p q k.tip k in
        (r, unfold push_latest in leads)
    Step-InStep l m (delivers msg rest ack e run) (q, k) = (
      q,
      record {
        tip = k.tip;
        ready = k.ready;
        flight =
            ap (λ o. replay o rest) (handle-replay msg l.agent)
            ∙ sym (ap (replay (store.current l.agent)) e)
            ∙ k.flight;
      },
    )
    Step-InStep l m (answers a rest p r sent_all e mp run) (q, k) =
        answer-InStep (record l { up = rest }) p q a r
          (record { tip = k.tip; ready = k.ready; flight = k.flight }) run
    Step-InStep l m (queues p e) (q, k) = cc

    pub Run-InStep : (l m : Link store) → Run store l m → InStep l → InStep m
    Run-InStep l m here k = k
    Run-InStep l m (next {m = n} r st) k = Step-InStep n m st (Run-InStep l n r k)

    pub queued-InStep :
        (h : List WorkloadPolicy) (p : WorkloadPolicy) (row : SyncRow store.Error) (s : store.State)
        → InStep (queued store p (opened_link store h p row s))
    queued-InStep h p row s = (
      p,
      record {
        tip = unfold open_session queue_snapshot in refl;
        ready = refl;
        flight = unfold queue_snapshot in (replay-snapshot (store.current s) p);
      },
    )

    -- Deliveries leave what the agent holds in the end as it is.
    pub Deliveries-replay :
        (l n : Link store)
        → Deliveries store l n
        → replay (store.current n.agent) n.down ≡ replay (store.current l.agent) l.down
    Deliveries-replay l n none_handled = refl
    Deliveries-replay l n (handled {m = m} msg rest ack ds e run) =
        ap (λ o. replay o rest) (handle-replay msg m.agent)
        ∙ sym (ap (replay (store.current m.agent)) e)
        ∙ Deliveries-replay l m ds

    pub Deliveries-session : (l n : Link store) → Deliveries store l n → n.session ≡ l.session
    Deliveries-session l n none_handled = refl
    Deliveries-session l n (handled {m = m} msg rest ack ds e run) = Deliveries-session l m ds

    pub Deliveries-unsent : (l n : Link store) → Deliveries store l n → n.unsent ≡ l.unsent
    Deliveries-unsent l n none_handled = refl
    Deliveries-unsent l n (handled {m = m} msg rest ack ds e run) = Deliveries-unsent l m ds
