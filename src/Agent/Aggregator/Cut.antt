-- ===== src/Agent/Aggregator/Cut.antt =====
-- internal/agent/collect/collect.go, Cut: what a window closed under a clock that may have stepped
-- back reports.
use innerwall.Prelude.Tests.{
  ℕ, suc, ◌≤◌, ◌<◌, ◌≡◌, refl, sym, ◌∙◌, ap, inl, inr, true, some, List, [], ◌∷◌, is_some, length,
  Member, Bool-cases, Option-cases, arith,
}
use mathlib.Core.Path.{subst}
use innerwall.Prelude.Order.{Order, nat_order, eqb→≡, eqb_refl}
use innerwall.Prelude.Sorting.{contains, contains-sort, same_key, insert_by, sort}
use innerwall.Prelude.Dict.{get, keys, contains-keys}
use innerwall.Prelude.Text.{Str}
use innerwall.Policy.{direction_inbound}
use innerwall.Agent.Aggregator.{
  Key, key_order, Tally, Aggregator, FlowRecord, flow_record, found_record, flow_records, close,
}

-- The instant nearest to `t` between the two.
pub record IsHeldIn (start end t x : ℕ) : Type 0 where
  early : t < start → x ≡ start
  late : end < t → x ≡ end
  between : start ≤ t → t ≤ end → x ≡ t

-- The record is that of the key with its tally, seen within the window.
pub record IsReport {A : Type 0} (address_text : A → Str) (start end : ℕ) (k : Key A) (r : Tally)
    (f : FlowRecord) : Type 0 where
  source : f.src_address ≡ address_text k.src
  destination : f.dst_address ≡ address_text k.dst
  port : f.dst_port ≡ k.dst_port
  protocol : f.protocol ≡ k.protocol
  direction : f.direction ≡ direction_inbound
  decision : f.decision ≡ k.decision
  rule : f.matched_rule_id ≡ k.rule_id
  connections : f.connection_count ≡ r.connections
  bytes : f.byte_count ≡ r.bytes
  process : f.process_name ≡ r.process
  first : IsHeldIn start end r.first f.first_seen
  last : IsHeldIn start end r.last f.last_seen

length-insert_by :
    {K : Type 0} ⦃o : Order K⦄ (k : K) (ks : List K)
    → length (insert_by same_key k ks) ≡ suc (length ks)
unfolding insert_by
length-insert_by k [] = refl
length-insert_by k (j ∷ ks) = ground (arith, length-insert_by k ks)

length-sort : {K : Type 0} ⦃o : Order K⦄ (ks : List K) → length (sort ks) ≡ length ks
unfolding sort
length-sort [] = refl
length-sort (k ∷ ks) = length-insert_by k (sort ks) ∙ ap suc (length-sort ks)

module _ {A : Type 0} ⦃order : Order A⦄ (address_text : A → Str) where
  flow_record-IsReport :
      (start end : ℕ) (k : Key A) (r : Tally)
      → start ≤ end
      → IsReport address_text start end k r (flow_record address_text true start end (k, r))
  flow_record-IsReport start end k r h = record {
    source = refl;
    destination = refl;
    port = refl;
    protocol = refl;
    direction = refl;
    decision = refl;
    rule = refl;
    connections = refl;
    bytes = refl;
    process = refl;
    first = record {
      early = λ e. ground (arith, e);
      late = λ e. ground (arith, e, h);
      between = λ e f. ground (arith, e, f);
    };
    last = record {
      early = λ e. ground (arith, e);
      late = λ e. ground (arith, e, h);
      between = λ e f. ground (arith, e, f);
    };
  }

  -- Each held key of the list has a record.
  Member-flow_records :
      (start end : ℕ) (m : List (Key A × Tally)) (ks : List (Key A)) (k : Key A) (r : Tally)
      → contains k ks ≡ true
      → get k m ≡ some r
      → Member
          (flow_record address_text true start end (k, r))
          (flow_records address_text true start end m ks)
  unfolding flow_records found_record
  Member-flow_records start end m [] k r c h = cc
  Member-flow_records start end m (j ∷ ks) k r c h = elim (Bool-cases (key_order.eqb j k)) [
    | inl e ↦ rw (eqb→≡ j k e, h) (inl refl)
    | inr n ↦
        let there = Member-flow_records start end m ks k r (ground (arith, c, n)) h in
        elim (Option-cases (get j m)) [
          | inl none_ ↦ rw none_ there
          | inr (t, found) ↦ rw found (inr there)
        ]
  ]

  -- Each record is that of a held key.
  flow_records-Member :
      (start end : ℕ) (m : List (Key A × Tally)) (ks : List (Key A)) (f : FlowRecord)
      → Member f (flow_records address_text true start end m ks)
      → (k : Key A) × (r : Tally) × (get k m ≡ some r)
        × (f ≡ flow_record address_text true start end (k, r))
  unfolding flow_records found_record
  flow_records-Member start end m [] f h = absurd h
  flow_records-Member start end m (j ∷ ks) f h = elim (Option-cases (get j m)) [
    | inl none_ ↦ flow_records-Member start end m ks f (rw none_ at h)
    | inr (t, found) ↦
        let split : Member f (
            flow_record address_text true start end (j, t)
            ∷ flow_records address_text true start end m ks) =
          rw found at h in
        elim split [
          | inl e ↦ (j, t, found, e)
          | inr rest ↦ flow_records-Member start end m ks f rest
        ]
  ]

  length-flow_records :
      (start end : ℕ) (m : List (Key A × Tally)) (ks : List (Key A))
      → ((k : Key A) → contains k ks ≡ true → is_some (get k m) ≡ true)
      → length (flow_records address_text true start end m ks) ≡ length ks
  unfolding flow_records found_record
  length-flow_records start end m [] h = refl
  length-flow_records start end m (j ∷ ks) h = elim (Option-cases (get j m)) [
    | inl none_ ↦ cc (h j (ground (arith, eqb_refl j)), ap is_some none_)
    | inr (t, found) ↦
        rw found (ap suc (length-flow_records start end m ks (λ k c. h k (ground (arith, c)))))
  ]

  -- Cutting a window that does not end before its start reports as many records as it holds keys:
  -- every held key has a record with its tally, and every record is that of a held key, where the
  -- instants first and last seen are moved to the nearest within the window and are otherwise as
  -- observed. An empty window opens at the next start.
  pub close-IsReport :
      (end next : ℕ) (a : Aggregator A)
      → a.start ≤ end
      → (length (close address_text end next true a).0.records ≡ length (keys a.records))
        × ((k : Key A) (r : Tally)
            → get k a.records ≡ some r
            → (f : FlowRecord) × Member f (close address_text end next true a).0.records
              × IsReport address_text a.start end k r f)
        × ((f : FlowRecord)
            → Member f (close address_text end next true a).0.records
            → (k : Key A) × (r : Tally) × (get k a.records ≡ some r)
              × IsReport address_text a.start end k r f)
        × ((close address_text end next true a).1.records ≡ [])
        × ((close address_text end next true a).1.start ≡ next)
        × ((close address_text end next true a).1.dropped ≡ 0)
  unfolding close
  close-IsReport end next a h =
      let ks = sort (keys a.records) in
      let known : (k : Key A) → contains k ks ≡ is_some (get k a.records) =
        λ k. contains-sort k (keys a.records) ∙ contains-keys k a.records in
      (
        length-flow_records a.start end a.records ks (λ k c. sym (known k) ∙ c)
            ∙ length-sort (keys a.records),
        λ k r held. (
          flow_record address_text true a.start end (k, r),
          Member-flow_records a.start end a.records ks k r (known k ∙ ap is_some held) held,
          flow_record-IsReport a.start end k r h,
        ),
        λ f m.
            let (k, r, held, is) = flow_records-Member a.start end a.records ks f m in
            (
              k,
              r,
              held,
              subst (IsReport address_text a.start end k r) (sym is)
                  (flow_record-IsReport a.start end k r h),
            ),
        refl,
        refl,
        refl,
      )
