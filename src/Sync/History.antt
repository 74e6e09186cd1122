-- ===== src/Sync/History.antt =====
-- The sync stream: sessions and messages whose policies are of the history that was persisted.
use innerwall.Prelude.Tests.{
  ◌<◌, ◌≡◌, refl, sym, ◌∙◌, ap, inl, inr, Option, none, some, List, [], ◌∷◌, ◌++◌, All, Member,
  Bool-cases, leb, arith,
}
use mathlib.Core.Path.{subst}
use innerwall.Prelude.Result.{ok}
use innerwall.Netip.{Netip}
use innerwall.Rendered.{WorkloadPolicy, canonical}
use innerwall.Delta.{delta}
use innerwall.Sync.Daemon.{
  Update, snapshot_update, delta_update, no_update, SyncResponse, hello_ack, policy_update,
  directive, empty_response, PolicyAck,
}
use innerwall.Sync.Gateway.{
  Session, SyncRow, Answer, quiet, handle_ack, handle_ack-cases, kept, recovers, push_newer,
  push_since, push_latest,
}

-- The versions descend from the newest policy on, and are above that of the empty policy.
abbrev pub IsVersioned : List WorkloadPolicy → Type 0
IsVersioned [] = Unit
IsVersioned (p ∷ ps) =
    (0 < p.version) × All (λ (q : WorkloadPolicy). q.version < p.version) ps × IsVersioned ps

pub All-Member : {A : Type 0} (P : A → Type 0) (xs : List A) (x : A) → All P xs → Member x xs → P x
All-Member P [] x h m = absurd m
All-Member P (y ∷ ys) x h (inl e) = subst P (sym e) h.0
All-Member P (y ∷ ys) x h (inr m) = All-Member P ys x h.1 m

-- One version is one policy.
pub version-injective :
    (h : List WorkloadPolicy) (p q : WorkloadPolicy)
    → IsVersioned h
    → Member p h
    → Member q h
    → p.version ≡ q.version
    → p ≡ q
version-injective [] p q v m n s = absurd m
version-injective (r ∷ rs) p q v (inl e) (inl f) s = e ∙ sym f
version-injective (r ∷ rs) p q v (inl e) (inr m) s =
    let below = All-Member (λ (x : WorkloadPolicy). x.version < r.version) rs q v.1 m in
    ground (arith, below, ap (λ (x : WorkloadPolicy). x.version) e, s)
version-injective (r ∷ rs) p q v (inr m) (inl f) s =
    let below = All-Member (λ (x : WorkloadPolicy). x.version < r.version) rs p v.1 m in
    ground (arith, below, ap (λ (x : WorkloadPolicy). x.version) f, s)
version-injective (r ∷ rs) p q v (inr m) (inr n) s = version-injective rs p q v.2 m n s

pub version-positive :
    (h : List WorkloadPolicy) (p : WorkloadPolicy) → IsVersioned h → Member p h → 0 < p.version
version-positive [] p v m = absurd m
version-positive (r ∷ rs) p v (inl e) =
    ground (arith, v.0, ap (λ (x : WorkloadPolicy). x.version) e)
version-positive (r ∷ rs) p v (inr m) = version-positive rs p v.2 m

module _ ⦃ip : Netip⦄ where
  -- Nothing is held, or the canonical form of a policy of the history is.
  abbrev pub IsHeldOf : List WorkloadPolicy → Option WorkloadPolicy → Type 0
  IsHeldOf h none = Unit
  IsHeldOf h (some q) = (p : WorkloadPolicy) × Member p h × (q ≡ canonical p)

  abbrev pub IsSentOf : List WorkloadPolicy → Option WorkloadPolicy → Type 0
  IsSentOf h none = Unit
  IsSentOf h (some p) = Member p h

  abbrev pub IsUpdateOf : List WorkloadPolicy → Update → Type 0
  IsUpdateOf h (snapshot_update none) = ⊥
  IsUpdateOf h (snapshot_update (some p)) = Member p h
  IsUpdateOf h (delta_update d) =
      (a : WorkloadPolicy) × (b : WorkloadPolicy) × Member a h × Member b h × (d ≡ delta a b)
  IsUpdateOf h no_update = ⊥

  -- A message carries a snapshot of a policy of the history or a delta between two of them.
  abbrev pub IsMessageOf : List WorkloadPolicy → SyncResponse → Type 0
  IsMessageOf h hello_ack = ⊥
  IsMessageOf h (policy_update u) = IsUpdateOf h u
  IsMessageOf h (directive d) = ⊥
  IsMessageOf h empty_response = ⊥

  pub IsHeldOf-later :
      (p : WorkloadPolicy) (h : List WorkloadPolicy) (o : Option WorkloadPolicy)
      → IsHeldOf h o
      → IsHeldOf (p ∷ h) o
  IsHeldOf-later p h none k = tt
  IsHeldOf-later p h (some q) (r, m, e) = (r, inr m, e)

  pub IsSentOf-later :
      (p : WorkloadPolicy) (h : List WorkloadPolicy) (o : Option WorkloadPolicy)
      → IsSentOf h o
      → IsSentOf (p ∷ h) o
  IsSentOf-later p h none k = tt
  IsSentOf-later p h (some q) k = inr k

  IsMessageOf-later :
      (p : WorkloadPolicy) (h : List WorkloadPolicy) (m : SyncResponse)
      → IsMessageOf h m
      → IsMessageOf (p ∷ h) m
  IsMessageOf-later p h hello_ack k = k
  IsMessageOf-later p h (policy_update (snapshot_update none)) k = k
  IsMessageOf-later p h (policy_update (snapshot_update (some q))) k = inr k
  IsMessageOf-later p h (policy_update (delta_update d)) (a, b, ma, mb, e) =
      (a, b, inr ma, inr mb, e)
  IsMessageOf-later p h (policy_update no_update) k = k
  IsMessageOf-later p h (directive d) k = k
  IsMessageOf-later p h empty_response k = k

  pub All-later :
      (p : WorkloadPolicy) (h : List WorkloadPolicy) (ms : List SyncResponse)
      → All (IsMessageOf h) ms
      → All (IsMessageOf (p ∷ h)) ms
  All-later p h [] k = tt
  All-later p h (m ∷ ms) k = (IsMessageOf-later p h m k.0, All-later p h ms k.1)

  pub All-append :
      (h : List WorkloadPolicy) (ms ns : List SyncResponse)
      → All (IsMessageOf h) ms
      → All (IsMessageOf h) ns
      → All (IsMessageOf h) (ms ++ ns)
  All-append h [] ns k l = l
  All-append h (m ∷ ms) ns k l = (k.0, All-append h ms ns k.1 l)

  -- A session and the messages that an answer sends are of the history.
  abbrev pub IsAnswerOf : {E : Type 0} → List WorkloadPolicy → Answer E → Type 0
  IsAnswerOf h a = IsSentOf h a.session.last_sent × All (IsMessageOf h) a.sent

  module _ {E : Type 0} (h : List WorkloadPolicy) (p : WorkloadPolicy) (m : Member p h) where
    push_since-IsAnswerOf :
        (o : Option WorkloadPolicy) (s : Session) (row : SyncRow E)
        → IsSentOf h o
        → IsSentOf h s.last_sent
        → IsAnswerOf h (push_since o p s row)
    unfolding push_since push_newer
    push_since-IsAnswerOf none s row k l = (l, tt)
    push_since-IsAnswerOf (some q) s row k l = elim (Bool-cases (leb p.version q.version)) [
      | inl old ↦ rw old (l, tt)
      | inr new ↦ rw new (m, ((q, p, k, m, refl), tt))
    ]

    pub push_latest-IsAnswerOf :
        (s : Session) (row : SyncRow E)
        → IsSentOf h s.last_sent
        → IsAnswerOf h (push_latest (some p) s row)
    unfolding push_latest
    push_latest-IsAnswerOf s row k = push_since-IsAnswerOf s.last_sent s row k k

    pub handle_ack-IsAnswerOf :
        (a : PolicyAck E) (s : Session) (row : SyncRow E) (r : Answer E)
        → IsSentOf h s.last_sent
        → handle_ack {F = ⊥} none (ok p) a s row ≡ ok r
        → IsAnswerOf h r
    handle_ack-IsAnswerOf a s row r k e = elim (handle_ack-cases p a s row r e) [
      | kept why same quiet ↦ (
        subst (λ (x : Session). IsSentOf h x.last_sent) (sym same) k,
        subst (All (IsMessageOf h)) (sym quiet) tt,
      )
      | recovers failed news same snapshot ↦ (
        subst (λ (x : Session). IsSentOf h x.last_sent) (sym same) m,
        subst (All (IsMessageOf h)) (sym snapshot) (m, tt),
      )
    ]
