-- ===== src/Enforce/Store/Restart.antt =====
-- The store of the applied policy: what a start of the agent reads back of the policy and of the
-- marks that the last successful apply wrote.
use innerwall.Prelude.Tests.{
  ℕ, suc, ◌^◌, ◌<◌, ◌≡◌, refl, sym, ◌∙◌, ap, inl, inr, true, false, Option, none, some, List, [],
  ◌∷◌, Bool-cases, arith, map_option,
}
use innerwall.Prelude.Order.{eqb_refl}
use innerwall.Prelude.Sorting.{contains}
use innerwall.Prelude.Dict.{get}
use innerwall.Prelude.Text.{Str, str_order}
use innerwall.Prelude.Result.{ok}
use innerwall.Netip.{Netip}
use innerwall.Rendered.{WorkloadPolicy, canonical}
use innerwall.Rendered.Canon.{canonical_idem}
use innerwall.Plan.{policy_or_empty}
use innerwall.Enforce.Marks.{
  Slot, Allocator, Marks, max_rules, is_live, carry, give, allocate, rule_of_mark, mark_of_rule,
}
use innerwall.Enforce.Marks.Carry.{is_new, contains-fresh}
use innerwall.Enforce.Marks.Settled.{bumped}
use innerwall.Enforce.Marks.Allocate.{allocate-keeps, mark_known}
use innerwall.Enforce.Marks.Consistent.{IsConsistent}
use innerwall.Enforce.Marks.Saved.{marks_file, load_allocator, load_allocator-IsConsistent}
use innerwall.Enforce.Marks.Reload.{load_allocator-marks_file}
use innerwall.Enforce.Render.{Options}
use innerwall.Enforce.Store.{
  stored, Machine, Store, Applied, new_store, loaded_or_new, loaded_alloc, load_seeded, load_policy,
  load, apply,
}
use innerwall.Enforce.Store.Applied.{apply-contract}
use innerwall.Enforce.Store.Keeps.{is_installed, IsStored, apply-IsStored}

no_member : (xs : List Str) → ((x : Str) → contains x xs ≡ false) → xs ≡ []
no_member [] h = refl
no_member (x ∷ xs) h =
    let found : contains x (x ∷ xs) ≡ true = ground (arith, eqb_refl x) in cc (h x, found)

never : (o : Option Slot) → is_new false o ≡ false
never none = refl
never (some s) = refl

module _ ⦃ip : Netip⦄ where
  -- Where every rule of the policy has a value, Allocate succeeds.
  allocate-known :
      (p : WorkloadPolicy) (installed : Option WorkloadPolicy) (a : Allocator)
      → ((id : Str)
          → is_live id (canonical p).inbound_rules ≡ true
          → (m : ℕ) × (mark_of_rule id a ≡ some m))
      → (out : Marks) × (b : Allocator) × (allocate p installed a ≡ ok (out, b))
  unfolding allocate give
  allocate-known p installed a known =
      let rules = (canonical p).inbound_rules in
      let c = carry rules (bumped a) [] in
      (
        c.out,
        c.alloc,
        ap (λ ids. give installed ids none c.alloc c.out) (no_member c.fresh none_new),
      )
    where
      none_new :
          (id : Str) → contains id (carry (canonical p).inbound_rules (bumped a) []).fresh ≡ false
      none_new id =
          contains-fresh (canonical p).inbound_rules (bumped a) [] id
          ∙ elim (Bool-cases (is_live id (canonical p).inbound_rules)) [
            | inl lives ↦
                let (m, has) = known id lives in
                let (s, slot, marked) = mark_known id m a has in
                ap (is_new (is_live id (canonical p).inbound_rules)) slot
            | inr gone ↦ rw gone (never (get id a.by_id))
          ]

  module _ {E : Type 0} (machine : Machine E) (options : Options) where
    -- A store that starts on the files of another.
    abbrev pub restarted : Store E → Store E
    restarted s = record new_store { marks_file = s.marks_file; policy_file = s.policy_file }

    load_files :
        (t : Store E) (q : WorkloadPolicy) (c : Allocator)
        → t.policy_file ≡ stored q
        → loaded_alloc t.marks_file ≡ c
        → load machine options (restarted t)
          ≡ load_seeded machine options
              (canonical q)
              (restarted t)
              (allocate (canonical q) (some (canonical q)) c)
    unfolding load load_policy
    load_files t q c pfile mfile =
        ap (load_policy machine options (restarted t) (loaded_alloc t.marks_file)) pfile
        ∙ ap
            (λ x.
              load_seeded machine options (canonical q) (restarted t)
                (allocate (canonical q) (some (canonical q)) x))
            mfile

    -- What is read back of the marks file that an allocation was saved in.
    record IsReloaded (a c : Allocator) : Type 0 where
      consistent : IsConsistent c
      same_gen : c.gen ≡ a.gen
      same_marks : (id : Str) (m : ℕ) → mark_of_rule id a ≡ some m → mark_of_rule id c ≡ some m

    reload_marks :
        (t : Store E)
        → IsStored t
        → t.marks_file ≡ stored (marks_file t.alloc)
        → (c : Allocator) × (loaded_alloc t.marks_file ≡ c) × IsReloaded t.alloc c
    unfolding loaded_alloc mark_of_rule
    reload_marks t k mfile =
        let (c, run, gen, slots) = load_allocator-marks_file t.alloc k.consistent in
        let run' : load_allocator max_rules (marks_file t.alloc) ≡ ok c =
          ap (λ n. load_allocator n (marks_file t.alloc)) (sym k.region) ∙ run in
        (
          c,
          ap loaded_alloc mfile ∙ ap loaded_or_new run',
          record {
            consistent = (load_allocator-IsConsistent max_rules (marks_file t.alloc) c run').0;
            same_gen = gen;
            same_marks = λ id m has.
                let (s, slot, marked) = mark_known id m t.alloc has in
                ap (map_option (λ (x : Slot). x.mark)) (slots id s slot)
                ∙ ap (λ (x : ℕ). some x) marked;
          },
        )

    reload :
        (t : Store E) (q : WorkloadPolicy)
        → canonical q ≡ q
        → IsStored t
        → suc t.alloc.gen < 2 ^ 64
        → t.current ≡ some q
        → t.policy_file ≡ stored q
        → t.marks_file ≡ stored (marks_file t.alloc)
        → ((load machine options (restarted t)).0 ≡ none)
          × ((load machine options (restarted t)).1.current ≡ some q)
          × ((id : Str) (m : ℕ)
              → is_installed id t ≡ true
              → mark_of_rule id t.alloc ≡ some m
              → (mark_of_rule id (load machine options (restarted t)).1.alloc ≡ some m)
                × (rule_of_mark m (load machine options (restarted t)).1.alloc ≡ some id))
    unfolding load_seeded
    reload t q normal k small cur pfile mfile =
        let lives_in : (id : Str)
            → is_live id (canonical (canonical q)).inbound_rules ≡ is_installed id t =
          λ id.
            ap (λ (x : WorkloadPolicy). is_live id x.inbound_rules) (ap canonical normal ∙ normal)
            ∙ sym (ap (λ o. is_live id (policy_or_empty o).inbound_rules) cur) in
        let (c, read, again) = reload_marks t k mfile in
        let (out, b, run) = allocate-known (canonical q) (some (canonical q)) c (λ id lives.
          let (m, positive, below, known, named) = k.covered id (sym (lives_in id) ∙ lives) in
          (m, again.same_marks id m known)) in
        let loads : load machine options (restarted t)
            ≡ (none, record (restarted t) { alloc = b; current = some (canonical q) }) =
          load_files t q c pfile read
          ∙ ap (load_seeded machine options (canonical q) (restarted t)) run in
        (
          ap (λ (r : Applied E). r.0) loads,
          ap (λ (r : Applied E). r.1.current) loads ∙ ap some normal,
          λ id m lives known.
              let (known', named) =
                allocate-keeps (canonical q) (some (canonical q)) c out b again.consistent
                  (ground (arith, small, again.same_gen)) run id m (again.same_marks id m known)
                  (inl (lives_in id ∙ lives)) in
              (
                ap (λ (r : Applied E). mark_of_rule id r.1.alloc) loads ∙ known',
                ap (λ (r : Applied E). rule_of_mark m r.1.alloc) loads ∙ named,
              ),
        )

    -- After an apply that succeeds, on a store whose allocation is consistent and covers the
    -- installed policy, where no allocation number has wrapped: a start of the agent on the files
    -- that it wrote, whose marks pass the checks of loadAllocator, loads without an error the policy
    -- that was applied, and each of its rules has the value that it had, which names it.
    pub restart-apply :
        (p : WorkloadPolicy) (s : Store E)
        → IsStored s
        → suc s.alloc.gen < 2 ^ 64
        → suc (apply machine options p s).1.alloc.gen < 2 ^ 64
        → (apply machine options p s).0 ≡ none
        → ((load machine options (restarted (apply machine options p s).1)).0 ≡ none)
          × ((load machine options (restarted (apply machine options p s).1)).1.current
              ≡ some (canonical p))
          × ((id : Str) (m : ℕ)
              → is_installed id (apply machine options p s).1 ≡ true
              → mark_of_rule id (apply machine options p s).1.alloc ≡ some m
              → (mark_of_rule id
                    (load machine options (restarted (apply machine options p s).1)).1.alloc
                  ≡ some m)
                × (rule_of_mark m
                      (load machine options (restarted (apply machine options p s).1)).1.alloc
                    ≡ some id))
    restart-apply p s k small small' fine = elim (apply-contract machine options p s) [
      | inr (e, bad, cur, ker) ↦ cc (bad, fine)
      | inl (none_, cur, pfile, mfile, ran_one) ↦
          let (stored_after, kept) = apply-IsStored machine options p s k small in
          reload (apply machine options p s).1 (canonical p) (canonical_idem p) stored_after small'
            cur pfile mfile
    ]
