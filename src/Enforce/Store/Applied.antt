-- ===== src/Enforce/Store/Applied.antt =====
-- The store of the applied policy: the outcomes of Apply, and that it keeps the contract of the
-- sync loop's store.
use innerwall.Prelude.Tests.{
  ◌≡◌, refl, sym, ap, ◌⊎◌, inl, inr, Option, none, some, ◌∷◌, ltb, Bool-cases, length,
}
use innerwall.Prelude.Text.{Str}
use innerwall.Prelude.Result.{Result, ok, err}
use innerwall.Netip.{Netip}
use innerwall.Rendered.{WorkloadPolicy, canonical}
use innerwall.Enforce.Marks.{Allocator, Marks, MarkError, max_rules, allocate}
use innerwall.Enforce.Marks.Saved.{marks_file}
use innerwall.Enforce.Render.{Options, RenderError, render}
use innerwall.Enforce.Store.{
  Write, written, failed_before, failed_after, failure, file_after, stored, StoreError,
  marks_refused, render_refused, too_many_rules, machine_failed, Machine, Store, Applied, ran,
  run_full, run_delta, run_policy, delta_script, after_policy_file, write_policy, after_marks_file,
  write_marks, apply_allocated, apply_canonical, apply,
}
use innerwall.Sync.Store.{PolicyStore}

module _ ⦃ip : Netip⦄ {E : Type 0} (machine : Machine E) (options : Options) where
  -- The outcomes of an apply: refused with nothing changed but perhaps the marks file, stopped with the marks allocated,
  -- or installed, with both files written and one script run.
  pub data IsApplied (p : WorkloadPolicy) (s : Store E) (r : Applied E) : Type 0 where
    refused :
        (e : StoreError E)
        → r.0 ≡ some e
        → r.1.alloc ≡ s.alloc
        → r.1.current ≡ s.current
        → r.1.policy_file ≡ s.policy_file
        → r.1.kernel ≡ s.kernel
        → IsApplied p s r
    stopped :
        (e : StoreError E) (marks : Marks)
        → r.0 ≡ some e
        → allocate p s.current s.alloc ≡ ok (marks, r.1.alloc)
        → r.1.current ≡ s.current
        → r.1.marks_file ≡ stored (marks_file r.1.alloc)
        → r.1.kernel ≡ s.kernel
        → IsApplied p s r
    installed :
        (marks : Marks) (full script : Str)
        → r.0 ≡ none
        → allocate p s.current s.alloc ≡ ok (marks, r.1.alloc)
        → r.1.current ≡ some p
        → r.1.marks_file ≡ stored (marks_file r.1.alloc)
        → r.1.policy_file ≡ stored p
        → render p marks options ≡ ok full
        → r.1.kernel ≡ script ∷ s.kernel
        → (script ≡ full) ⊎ (delta_script machine options s.current p ≡ some script)
        → IsApplied p s r

  -- The store before the kernel runs: the marks are allocated and both files are written.
  record IsReady (p : WorkloadPolicy) (s t : Store E) (full : Str) : Type 0 where
    marks : Marks
    allocated : allocate p s.current s.alloc ≡ ok (marks, t.alloc)
    rendered : render p marks options ≡ ok full
    same : t.current ≡ s.current
    marks_written : t.marks_file ≡ stored (marks_file t.alloc)
    policy_written : t.policy_file ≡ stored p
    same_kernel : t.kernel ≡ s.kernel

  module _ (p : WorkloadPolicy) (s t : Store E) (full : Str) (k : IsReady p s t full) where
    run_full-IsApplied : (o : Option E) → IsApplied p s (run_full machine options p full t o)
    unfolding run_full ran
    run_full-IsApplied (some e) =
        stopped (machine_failed e) k.marks refl k.allocated k.same k.marks_written k.same_kernel
    run_full-IsApplied none =
        installed k.marks full full refl k.allocated refl k.marks_written k.policy_written
          k.rendered (ap (λ ss. full ∷ ss) k.same_kernel) (inl refl)

    run_policy-IsApplied :
        (d : Option Str)
        → d ≡ delta_script machine options s.current p
        → IsApplied p s (run_policy machine options p full t d)
    unfolding run_policy
    run_policy-IsApplied none is = run_full-IsApplied (machine.run t.kernel full)
    run_policy-IsApplied (some script) is = delta_run (machine.run t.kernel script)
      where
        delta_run : (o : Option E) → IsApplied p s (run_delta machine options p full script t o)
        delta_run (some e) = unfold run_delta in run_full-IsApplied (machine.run t.kernel full)
        delta_run none =
            unfold run_delta ran in
            installed k.marks full script refl k.allocated refl k.marks_written k.policy_written
              k.rendered (ap (λ ss. script ∷ ss) k.same_kernel) (inr (sym is))

  module _ (p : WorkloadPolicy) (s : Store E) where
    write_policy-IsApplied :
        (marks : Marks) (t : Store E) (full : Str)
        → allocate p s.current s.alloc ≡ ok (marks, t.alloc)
        → render p marks options ≡ ok full
        → t.current ≡ s.current
        → t.marks_file ≡ stored (marks_file t.alloc)
        → t.kernel ≡ s.kernel
        → (w : Write E)
        → IsApplied p s (
            after_policy_file machine options p full
              (record t { policy_file = file_after w p t.policy_file })
              (failure w))
    unfolding after_policy_file
    write_policy-IsApplied marks t full allocated rendered same marks_written same_kernel
          (failed_before e) =
        stopped (machine_failed e) marks refl allocated same marks_written same_kernel
    write_policy-IsApplied marks t full allocated rendered same marks_written same_kernel
          (failed_after e) =
        stopped (machine_failed e) marks refl allocated same marks_written same_kernel
    write_policy-IsApplied marks t full allocated rendered same marks_written same_kernel written =
        run_policy-IsApplied p s (record t { policy_file = stored p }) full
          (record {
            marks = marks;
            allocated = allocated;
            rendered = rendered;
            same = same;
            marks_written = marks_written;
            policy_written = refl;
            same_kernel = same_kernel;
          })
          (delta_script machine options t.current p)
          (ap (λ c. delta_script machine options c p) same)

    write_marks-IsApplied :
        (marks : Marks) (alloc : Allocator) (full : Str)
        → allocate p s.current s.alloc ≡ ok (marks, alloc)
        → render p marks options ≡ ok full
        → (w : Write E)
        → IsApplied p s (
            after_marks_file machine options p alloc full
              (record s { marks_file = file_after w (marks_file alloc) s.marks_file })
              (failure w))
    unfolding after_marks_file write_policy
    write_marks-IsApplied marks alloc full allocated rendered (failed_before e) =
        refused (machine_failed e) refl refl refl refl refl
    write_marks-IsApplied marks alloc full allocated rendered (failed_after e) =
        refused (machine_failed e) refl refl refl refl refl
    write_marks-IsApplied marks alloc full allocated rendered written =
        write_policy-IsApplied marks
          (record s { alloc = alloc; marks_file = stored (marks_file alloc) }) full allocated
          rendered refl refl refl (machine.save_policy p)

    render-IsApplied :
        (marks : Marks) (alloc : Allocator) (r : Result RenderError Str)
        → allocate p s.current s.alloc ≡ ok (marks, alloc)
        → render p marks options ≡ r
        → IsApplied p s (write_marks machine options p alloc s r)
    unfolding write_marks
    render-IsApplied marks alloc (err e) allocated rendered =
        refused (render_refused e) refl refl refl refl refl
    render-IsApplied marks alloc (ok full) allocated rendered =
        write_marks-IsApplied marks alloc full allocated rendered (machine.save_marks alloc)

    allocated-IsApplied :
        (r : Result MarkError (Marks × Allocator))
        → allocate p s.current s.alloc ≡ r
        → IsApplied p s (apply_allocated machine options p s r)
    unfolding apply_allocated
    allocated-IsApplied (err e) allocated = refused (marks_refused e) refl refl refl refl refl
    allocated-IsApplied (ok (marks, alloc)) allocated =
        render-IsApplied marks alloc (render p marks options) allocated refl

    apply_canonical-IsApplied : IsApplied p s (apply_canonical machine options p s)
    unfolding apply_canonical
    apply_canonical-IsApplied = elim (Bool-cases (ltb max_rules (length p.inbound_rules))) [
      | inl many ↦
          rw many (refused (too_many_rules (length p.inbound_rules)) refl refl refl refl refl)
      | inr few ↦ rw few (allocated-IsApplied (allocate p s.current s.alloc) refl)
    ]

  pub apply-IsApplied :
      (p : WorkloadPolicy) (s : Store E) → IsApplied (canonical p) s (apply machine options p s)
  unfolding apply
  apply-IsApplied p s = apply_canonical-IsApplied (canonical p) s

  -- An apply either succeeds, and then the canonical policy is the current one, it and the allocation
  -- of marks are written to their files, and the kernel ran one script; or it fails, and then the
  -- current policy is the one before and the kernel ran no script.
  pub apply-contract :
      (p : WorkloadPolicy) (s : Store E)
      → (((apply machine options p s).0 ≡ none)
          × ((apply machine options p s).1.current ≡ some (canonical p))
          × ((apply machine options p s).1.policy_file ≡ stored (canonical p))
          × ((apply machine options p s).1.marks_file
              ≡ stored (marks_file (apply machine options p s).1.alloc))
          × ((script : Str) × ((apply machine options p s).1.kernel ≡ script ∷ s.kernel)))
        ⊎ ((e : StoreError E) × ((apply machine options p s).0 ≡ some e)
            × ((apply machine options p s).1.current ≡ s.current)
            × ((apply machine options p s).1.kernel ≡ s.kernel))
  apply-contract p s = elim (apply-IsApplied p s) [
    | refused e bad alloc cur file ker ↦ inr (e, bad, cur, ker)
    | stopped e marks bad allocated cur file ker ↦ inr (e, bad, cur, ker)
    | installed marks full script fine allocated cur mfile pfile rendered ker which ↦
        inl (fine, cur, pfile, mfile, (script, ker))
  ]

  -- The contract of the sync loop's store.
  pub apply-installs :
      (p : WorkloadPolicy) (s : Store E)
      → (apply machine options p s).0 ≡ none
      → (apply machine options p s).1.current ≡ some (canonical p)
  apply-installs p s h = elim (apply-contract p s) [
    | inl (fine, cur, pfile, mfile, ran_one) ↦ cur
    | inr (e, bad, cur, ker) ↦ cc (bad, h)
  ]

  pub apply-keeps :
      (p : WorkloadPolicy) (s : Store E) (e : StoreError E)
      → (apply machine options p s).0 ≡ some e
      → (apply machine options p s).1.current ≡ s.current
  apply-keeps p s e h = elim (apply-contract p s) [
    | inl (fine, cur, pfile, mfile, ran_one) ↦ cc (fine, h)
    | inr (e', bad, cur, ker) ↦ cur
  ]

  -- The store over the owned table as the store of the sync loop.
  abbrev pub nft_store : PolicyStore
  nft_store = record {
    State = Store E;
    Error = StoreError E;
    current = λ s. s.current;
    apply = apply machine options;
    apply-installs = apply-installs;
    apply-keeps = apply-keeps;
  }
