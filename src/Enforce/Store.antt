-- ===== src/Enforce/Store.antt =====
-- internal/agent/enforce/nft/store.go: the store of the applied policy over the owned table, and the
-- outcomes of internal/agent/enforce/durable.go. Scripts and files are values; the kernel, the disk
-- and the files' encoding are parameters. The laws are in the modules below.
pub mod Applied
pub mod Keeps
pub mod Restart
use innerwall.Prelude.Tests.{
  ℕ, suc, ◌≡◌, Bool, true, false, not, Option, none, some, List, [], ◌∷◌, ltb, leb, ◌==◌,
  if◌then◌else◌, length, map_option,
}
use innerwall.Prelude.Text.{Str, str_order}
use innerwall.Prelude.Result.{Result, ok, err, ◌>>=◌}
use innerwall.Netip.{Netip}
use innerwall.Rendered.{
  Mode, mode_visibility, mode_simulation, mode_enforced, ResolvedRule, WorkloadPolicy, canonical,
}
use innerwall.Enforce.Marks.{
  Allocator, Marks, MarkError, max_rules, new_allocator, allocate, rule_of_mark, mark_of_rule,
}
use innerwall.Enforce.Marks.Saved.{MarksFile, marks_file, load_allocator}
use innerwall.Enforce.Render.{
  Options, RenderError, would_block_index, rule_mark, rule_index, render, render_delta,
}

abbrev pub ApplyKind : Type 0
ApplyKind = ℕ

abbrev pub apply_none : ApplyKind
apply_none = 0

abbrev pub apply_full : ApplyKind
apply_full = 1

abbrev pub apply_delta : ApplyKind
apply_delta = 2

-- What `WriteDurable` does: it fails with the old file in place, or after the rename with the new one.
pub data Write (E : Type 0) : Type 0 where
  written : Write E
  failed_before : E → Write E
  failed_after : E → Write E

-- What is read of a file: nothing is there, it does not verify or cannot be read, or its content.
pub data Stored (E A : Type 0) : Type 0 where
  missing : Stored E A
  unreadable : E → Stored E A
  stored : A → Stored E A

pub data StoreError (E : Type 0) : Type 0 where
  too_many_rules : ℕ → StoreError E
  marks_refused : MarkError → StoreError E
  render_refused : RenderError → StoreError E
  machine_failed : E → StoreError E

-- The outcomes of writing the two files, and of a script on a kernel that ran others, newest first.
pub record Machine (E : Type 0) : Type 0 where
  pub save_marks : Allocator → Write E
  pub save_policy : WorkloadPolicy → Write E
  pub run : List Str → Str → Option E

pub record Store (E : Type 0) : Type 0 where
  pub current : Option WorkloadPolicy
  pub alloc : Allocator
  pub last : ApplyKind
  pub marks_file : Stored E MarksFile
  pub policy_file : Stored E WorkloadPolicy
  pub kernel : List Str

abbrev pub Applied : Type 0 → Type 0
Applied E = Option (StoreError E) × Store E

abbrev pub failure : {E : Type 0} → Write E → Option (StoreError E)
failure written = none
failure (failed_before e) = some (machine_failed e)
failure (failed_after e) = some (machine_failed e)

abbrev pub file_after : {E A : Type 0} → Write E → A → Stored E A → Stored E A
file_after written a old = stored a
file_after (failed_before e) a old = old
file_after (failed_after e) a old = stored a

module _ ⦃ip : Netip⦄ {E : Type 0} (machine : Machine E) (options : Options) where
  unfoldable pub ran : ApplyKind → WorkloadPolicy → Str → Store E → Store E
  ran kind policy script s = record s {
    current = some policy;
    last = kind;
    kernel = script ∷ s.kernel;
  }

  unfoldable pub run_full : WorkloadPolicy → Str → Store E → Option E → Applied E
  unfolding ran
  run_full policy full s (some e) = (some (machine_failed e), s)
  run_full policy full s none = (none, ran apply_full policy full s)

  unfoldable pub run_delta : WorkloadPolicy → Str → Str → Store E → Option E → Applied E
  unfolding run_full ran
  run_delta policy full script s (some e) = run_full policy full s (machine.run s.kernel full)
  run_delta policy full script s none = (none, ran apply_delta policy script s)

  unfoldable pub run_policy : WorkloadPolicy → Str → Store E → Option Str → Applied E
  unfolding run_full run_delta
  run_policy policy full s none = run_full policy full s (machine.run s.kernel full)
  run_policy policy full s (some script) =
      run_delta policy full script s (machine.run s.kernel script)

  -- The set updates from the policy that the kernel holds, where there is one.
  unfoldable pub delta_script : Option WorkloadPolicy → WorkloadPolicy → Option Str
  delta_script none policy = none
  delta_script (some current) policy = render_delta current policy options

  unfoldable pub after_policy_file :
      WorkloadPolicy → Str → Store E → Option (StoreError E) → Applied E
  unfolding run_policy delta_script
  after_policy_file policy full s (some e) = (some e, s)
  after_policy_file policy full s none = run_policy policy full s (delta_script s.current policy)

  unfoldable pub write_policy : WorkloadPolicy → Str → Store E → Applied E
  unfolding after_policy_file
  write_policy policy full s =
      after_policy_file policy full
        (record s { policy_file = file_after (machine.save_policy policy) policy s.policy_file })
        (failure (machine.save_policy policy))

  unfoldable pub after_marks_file :
      WorkloadPolicy → Allocator → Str → Store E → Option (StoreError E) → Applied E
  unfolding write_policy
  after_marks_file policy alloc full s (some e) = (some e, s)
  after_marks_file policy alloc full s none = write_policy policy full (record s { alloc = alloc })

  unfoldable pub write_marks :
      WorkloadPolicy → Allocator → Store E → Result RenderError Str → Applied E
  unfolding after_marks_file
  write_marks policy alloc s (err e) = (some (render_refused e), s)
  write_marks policy alloc s (ok full) =
      after_marks_file policy alloc full
        (record s {
          marks_file = file_after (machine.save_marks alloc) (marks_file alloc) s.marks_file;
        })
        (failure (machine.save_marks alloc))

  unfoldable pub apply_allocated :
      WorkloadPolicy → Store E → Result MarkError (Marks × Allocator) → Applied E
  unfolding write_marks
  apply_allocated policy s (err e) = (some (marks_refused e), s)
  apply_allocated policy s (ok (marks, alloc)) =
      write_marks policy alloc s (render policy marks options)

  unfoldable pub apply_canonical : WorkloadPolicy → Store E → Applied E
  unfolding apply_allocated
  apply_canonical policy s =
      if ltb max_rules (length policy.inbound_rules)
      then (some (too_many_rules (length policy.inbound_rules)), s)
      else apply_allocated policy s (allocate policy s.current s.alloc)

  -- `Apply`.
  unfoldable pub apply : WorkloadPolicy → Store E → Applied E
  unfolding apply_canonical
  apply policy s = apply_canonical (canonical policy) s

-- `New`.
abbrev pub new_store : {E : Type 0} → Store E
new_store = record {
  current = none;
  alloc = new_allocator max_rules;
  last = apply_none;
  marks_file = missing;
  policy_file = missing;
  kernel = [];
}

abbrev pub loaded_or_new : Result MarkError Allocator → Allocator
loaded_or_new (err e) = new_allocator max_rules
loaded_or_new (ok a) = a

-- `LoadAllocator` as `Load` uses it: an allocation that is missing, that does not verify or that is not
-- consistent is an empty one.
unfoldable pub loaded_alloc : {E : Type 0} → Stored E MarksFile → Allocator
loaded_alloc missing = new_allocator max_rules
loaded_alloc (unreadable e) = new_allocator max_rules
loaded_alloc (stored f) = loaded_or_new (load_allocator max_rules f)

abbrev pub PolicyDecision : Type 0
PolicyDecision = ℕ

abbrev pub observed : PolicyDecision
observed = 1

abbrev pub allowed : PolicyDecision
allowed = 2

abbrev pub would_block : PolicyDecision
would_block = 3

abbrev pub blocked : PolicyDecision
blocked = 4

abbrev pub decided : Option Str → PolicyDecision × Str
decided none = (observed, [])
decided (some id) = (allowed, id)

abbrev pub mode_or_visibility : Option WorkloadPolicy → Mode
mode_or_visibility none = mode_visibility
mode_or_visibility (some p) = p.mode

module _ {E : Type 0} where
  -- `Classify`.
  unfoldable pub classify : Store E → ℕ → PolicyDecision × Str
  classify s mark =
      if rule_index mark == would_block_index
      then (would_block, [])
      else decided (rule_of_mark (rule_index mark) s.alloc)

  -- `Mark`.
  unfoldable pub mark : Store E → Str → Option ℕ
  mark s id = map_option rule_mark (mark_of_rule id s.alloc)

  -- `TerminalDecision`.
  unfoldable pub terminal_decision : Store E → PolicyDecision
  terminal_decision s =
      let m = mode_or_visibility s.current in
      if m == mode_enforced then blocked else if m == mode_simulation then would_block else observed

module _ ⦃ip : Netip⦄ {E : Type 0} (machine : Machine E) (options : Options) where
  unfoldable pub load_seeded :
      WorkloadPolicy → Store E → Result MarkError (Marks × Allocator) → Applied E
  load_seeded p s (err e) = (some (marks_refused e), s)
  load_seeded p s (ok (marks, alloc)) = (none, record s { alloc = alloc; current = some p })

  unfoldable pub load_policy : Store E → Allocator → Stored E WorkloadPolicy → Applied E
  unfolding load_seeded
  load_policy s alloc missing = (none, record s { alloc = alloc })
  load_policy s alloc (unreadable e) = (some (machine_failed e), s)
  load_policy s alloc (stored p) =
      load_seeded (canonical p) s (allocate (canonical p) (some (canonical p)) alloc)

  -- `Load`.
  unfoldable pub load : Store E → Applied E
  unfolding load_policy loaded_alloc
  load s = load_policy s (loaded_alloc s.marks_file) s.policy_file

  unfoldable pub restore_run : Str → Store E → Option E → Applied E
  restore_run script s (some e) = (some (machine_failed e), s)
  restore_run script s none = (none, record s { last = apply_full; kernel = script ∷ s.kernel })

  unfoldable pub restore_rendered : Store E → Result RenderError Str → Applied E
  unfolding restore_run
  restore_rendered s (err e) = (some (render_refused e), s)
  restore_rendered s (ok script) = restore_run script s (machine.run s.kernel script)

  unfoldable pub restore_marked :
      WorkloadPolicy → Store E → Result MarkError (Marks × Allocator) → Applied E
  unfolding restore_rendered
  restore_marked p s (err e) = (some (marks_refused e), s)
  restore_marked p s (ok (marks, alloc)) = restore_rendered s (render p marks options)

  unfoldable pub restore_policy : Store E → Option WorkloadPolicy → Applied E
  unfolding restore_marked
  restore_policy s none = (none, s)
  restore_policy s (some p) = restore_marked p s (allocate p (some p) s.alloc)

  -- `Restore`; the clone of the allocation that it makes is not kept.
  unfoldable pub restore : Store E → Applied E
  unfolding restore_policy
  restore s = restore_policy s s.current
