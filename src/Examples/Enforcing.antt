-- ===== src/Examples/Enforcing.antt =====
-- Runs of the allocation of marks and of the store of the applied policy.
use innerwall.Prelude.Tests.{
  ℕ, ◌+◌, ◌≤◌, ◌<◌, ◌≡◌, refl, ◌⊎◌, inr, true, none, some, [], ◌∷◌, ◌++◌, arith,
}
use innerwall.Prelude.Sorting.{sort, sort_by, insert_by, compact, compact_from}
use innerwall.Prelude.Dict.{get, put, keys, values_at, push}
use innerwall.Prelude.Text.{Str, str_order, trim_space, trim_left, trim_right, is_space}
use innerwall.Prelude.Result.{ok, err}
use innerwall.Rendered.{
  canonical, canonical_rules, canonical_rule, canonical_cidrs, canonical_ports, by_id,
  normalize_cidr, prefix_or_else, address_or_text, host_route, mode_enforced, mode_simulation,
}
use innerwall.Enforce.Marks.{
  Allocator, Marks, max_rules, new_allocator, allocate, carry, give, touched, noted, fresh_of,
  take_mark, record_slot, is_live, rule_of_mark, mark_of_rule,
}
use innerwall.Rendered.{empty}
use innerwall.Enforce.Marks.Consistent.{IsConsistent}
use innerwall.Enforce.Marks.Allocate.{allocate-IsConsistent, allocate-marks, allocate-keeps}
use innerwall.Enforce.Marks.Saved.{
  marks_file, is_bad, load_rules, load_allocator, load_allocator-IsConsistent,
}
use innerwall.Enforce.Render.{
  Options, RenderError, render, carries_sets, check_marked, is_marked, terminal, closing, rule_mark,
}
use innerwall.Enforce.Render.Modes.{in_mode, render-in_mode}
use innerwall.Enforce.Store.{
  written, stored, StoreError, Machine, Applied, new_store, load, classify, allowed, apply,
  apply_canonical, apply_allocated, write_marks, after_marks_file, write_policy, after_policy_file,
  run_policy, run_full, run_delta, ran, delta_script,
}
use innerwall.Enforce.Store.Applied.{apply-contract}
use innerwall.Enforce.Store.Keeps.{is_installed, IsStored, apply-IsStored, classify-installed}
use innerwall.Enforce.Store.Restart.{restarted, restart-apply}
use innerwall.Examples.Net.{net}
use innerwall.Examples.Data.{rule_a, rule_b, policy_one, policy_two}

-- An allocation of three values, before and after the first policy.
abbrev three_marks : Allocator
three_marks = new_allocator 3

abbrev one_marked : Allocator
one_marked = record {
  limit = 3;
  upcoming = 3;
  gen = 1;
  by_id =
      (rule_a.rule_id, record { mark = 1; gen = 1 })
      ∷ (rule_b.rule_id, record { mark = 2; gen = 1 })
      ∷ [];
  by_mark = (1, rule_a.rule_id) ∷ (2, rule_b.rule_id) ∷ [];
}

abbrev one_out : Marks
one_out = (rule_a.rule_id, 1) ∷ (rule_b.rule_id, 2) ∷ []

allocate-one : allocate policy_one none three_marks ≡ ok (one_out, one_marked)
unfolding allocate carry give touched noted fresh_of take_mark record_slot canonical canonical_rules
    canonical_rule canonical_cidrs canonical_ports by_id normalize_cidr prefix_or_else
    address_or_text host_route sort sort_by insert_by compact compact_from get put keys values_at
    push trim_space trim_left trim_right is_space
allocate-one = refl

new_allocator-IsConsistent : (limit : ℕ) → IsConsistent (new_allocator limit)
unfolding get
new_allocator-IsConsistent limit = record {
  first = omega arith;
  last = omega arith;
  agree = record {
    dict = unfold keys in tt;
    low = λ id s h. cc (h);
    high = λ id s h. cc (h);
    past = λ id s h. cc (h);
    unheld = λ id s h. cc (h);
    named = λ id s h. cc (h);
    held = λ n id d h. cc (h);
  };
  no_zero = refl;
}

lives_b : is_live rule_b.rule_id (canonical policy_one).inbound_rules ≡ true
unfolding is_live canonical canonical_rules canonical_rule canonical_cidrs canonical_ports by_id
    normalize_cidr prefix_or_else address_or_text host_route sort sort_by insert_by compact
    compact_from get put keys values_at push trim_space trim_left trim_right is_space
lives_b = refl

allocate-marks_example :
    (m : ℕ) × (0 < m)
    × (m ≤ three_marks.limit)
    × (get rule_b.rule_id one_out ≡ some m)
    × (mark_of_rule rule_b.rule_id one_marked ≡ some m)
    × (rule_of_mark m one_marked ≡ some rule_b.rule_id)
allocate-marks_example =
    allocate-marks policy_one none three_marks one_out one_marked (new_allocator-IsConsistent 3)
      (omega arith) allocate-one rule_b.rule_id lives_b

-- The second policy drops a rule that the kernel still holds.
abbrev two_marked : Allocator
two_marked = record one_marked {
  gen = 2;
  by_id =
      (rule_a.rule_id, record { mark = 1; gen = 2 })
      ∷ (rule_b.rule_id, record { mark = 2; gen = 1 })
      ∷ [];
}

allocate-two :
    allocate policy_two (some policy_one) one_marked ≡ ok ((rule_a.rule_id, 1) ∷ [], two_marked)
unfolding allocate carry give touched noted fresh_of take_mark record_slot canonical canonical_rules
    canonical_rule canonical_cidrs canonical_ports by_id normalize_cidr prefix_or_else
    address_or_text host_route sort sort_by insert_by compact compact_from get put keys values_at
    push trim_space trim_left trim_right is_space
allocate-two = refl

allocate-keeps_example :
    (mark_of_rule rule_b.rule_id two_marked ≡ some 2)
    × (rule_of_mark 2 two_marked ≡ some rule_b.rule_id)
allocate-keeps_example =
    allocate-keeps policy_two (some policy_one) one_marked ((rule_a.rule_id, 1) ∷ []) two_marked
      (allocate-IsConsistent policy_one none three_marks one_out one_marked
        (new_allocator-IsConsistent 3) (omega arith) allocate-one).0
      (omega arith) allocate-two rule_b.rule_id 2 (unfold mark_of_rule get in refl)
      (inr (unfold is_live in refl))

-- A machine on which nothing fails, with the default options.
abbrev sound : Machine ℕ
sound = record { save_marks = λ a. written; save_policy = λ p. written; run = λ scripts s. none }

abbrev defaults : Options
defaults = record { table = []; nflog_group = 0 }

new_store-IsStored : IsStored {E = ℕ} new_store
unfolding is_live empty
new_store-IsStored = record {
  consistent = new_allocator-IsConsistent max_rules;
  region = refl;
  covered = λ id h. cc (h);
}

apply-contract_example :
    (((apply sound defaults policy_one new_store).0 ≡ none)
      × ((apply sound defaults policy_one new_store).1.current ≡ some (canonical policy_one))
      × ((apply sound defaults policy_one new_store).1.policy_file ≡ stored (canonical policy_one))
      × ((apply sound defaults policy_one new_store).1.marks_file
          ≡ stored (marks_file (apply sound defaults policy_one new_store).1.alloc))
      × ((script : Str) × ((apply sound defaults policy_one new_store).1.kernel ≡ script ∷ [])))
    ⊎ ((e : StoreError ℕ) × ((apply sound defaults policy_one new_store).0 ≡ some e)
        × ((apply sound defaults policy_one new_store).1.current ≡ none)
        × ((apply sound defaults policy_one new_store).1.kernel ≡ []))
apply-contract_example = apply-contract sound defaults policy_one new_store

abbrev first_apply : Applied ℕ
first_apply = apply sound defaults policy_one new_store

apply-IsStored_example :
    IsStored first_apply.1
    × ((id : Str) (m : ℕ)
        → is_installed id (new_store {E = ℕ}) ≡ true
        → mark_of_rule id (new_store {E = ℕ}).alloc ≡ some m
        → (mark_of_rule id first_apply.1.alloc ≡ some m)
          × (rule_of_mark m first_apply.1.alloc ≡ some id))
apply-IsStored_example =
    apply-IsStored sound defaults policy_one new_store new_store-IsStored (omega arith)

first_apply-succeeds : (first_apply.0 ≡ none) × (first_apply.1.alloc.gen ≡ 1)
unfolding apply apply_canonical apply_allocated write_marks after_marks_file write_policy
    after_policy_file run_policy run_full run_delta ran delta_script render carries_sets
    check_marked is_marked allocate carry give touched noted fresh_of take_mark record_slot
    canonical canonical_rules canonical_rule canonical_cidrs canonical_ports by_id normalize_cidr
    prefix_or_else address_or_text host_route sort sort_by insert_by compact compact_from get put
    keys values_at push trim_space trim_left trim_right is_space
first_apply-succeeds = (refl, refl)

first_apply-IsStored : IsStored first_apply.1
first_apply-IsStored =
    (apply-IsStored sound defaults policy_one new_store new_store-IsStored (omega arith)).0

installed_b : is_installed rule_b.rule_id first_apply.1 ≡ true
unfolding is_live apply apply_canonical apply_allocated write_marks after_marks_file write_policy
    after_policy_file run_policy run_full run_delta ran delta_script render carries_sets
    check_marked is_marked allocate carry give touched noted fresh_of take_mark record_slot
    canonical canonical_rules canonical_rule canonical_cidrs canonical_ports by_id normalize_cidr
    prefix_or_else address_or_text host_route sort sort_by insert_by compact compact_from get put
    keys values_at push trim_space trim_left trim_right is_space
installed_b = refl

classify-installed_example :
    (m : ℕ) × (mark_of_rule rule_b.rule_id first_apply.1.alloc ≡ some m)
    × ((foreign : ℕ)
        → foreign < 65536
        → classify first_apply.1 (rule_mark m + foreign) ≡ (allowed, rule_b.rule_id))
classify-installed_example =
    classify-installed first_apply.1 rule_b.rule_id first_apply-IsStored installed_b

restart-apply_example :
    ((load sound defaults (restarted sound defaults first_apply.1)).0 ≡ none)
    × ((load sound defaults (restarted sound defaults first_apply.1)).1.current
        ≡ some (canonical policy_one))
    × ((id : Str) (m : ℕ)
        → is_installed id first_apply.1 ≡ true
        → mark_of_rule id first_apply.1.alloc ≡ some m
        → (mark_of_rule id (load sound defaults (restarted sound defaults first_apply.1)).1.alloc
            ≡ some m)
          × (rule_of_mark m (load sound defaults (restarted sound defaults first_apply.1)).1.alloc
              ≡ some id))
restart-apply_example =
    restart-apply sound defaults policy_one new_store new_store-IsStored (omega arith)
      (omega (arith, first_apply-succeeds.1)) first_apply-succeeds.0

render-in_mode_example :
    ((text : Str) × (render (in_mode mode_enforced policy_one) one_out defaults
        ≡ ok (text ++ (terminal mode_enforced defaults ++ closing)))
      × (render (in_mode mode_simulation policy_one) one_out defaults
          ≡ ok (text ++ (terminal mode_simulation defaults ++ closing))))
    ⊎ ((e : RenderError) × (render (in_mode mode_enforced policy_one) one_out defaults ≡ err e)
        × (render (in_mode mode_simulation policy_one) one_out defaults ≡ err e))
render-in_mode_example = render-in_mode policy_one one_out defaults

-- What is saved is loaded again.
load-one : load_allocator 3 (marks_file one_marked) ≡ ok one_marked
unfolding load_allocator load_rules is_bad marks_file record_slot sort_by insert_by get put
load-one = refl

load_allocator-IsConsistent_example : IsConsistent one_marked × (one_marked.limit ≡ 3)
load_allocator-IsConsistent_example =
    load_allocator-IsConsistent 3 (marks_file one_marked) one_marked load-one
