-- ===== src/Delta/Replay.antt =====
-- internal/rendered/rendered.go, Apply: its errors, and a chain of deltas from version to version.
use innerwall.Prelude.Tests.{
  ◌≡◌, ◌≢◌, refl, sym, ◌∙◌, ap, inl, inr, true, List, [], ◌∷◌, arith, Bool-cases, ◌==◌,
}
use innerwall.Prelude.Dict.{keys, values_at}
use innerwall.Prelude.Text.{str_order}
use innerwall.Prelude.Result.{Result, ok, err, ◌>>=◌, >>=-eq-ok}
use innerwall.Netip.{Netip}
use innerwall.Rendered.{WorkloadPolicy, canonical_rules, canonical}
use innerwall.Rendered.Canon.{canonical_idem, canonical_rules_idem}
use innerwall.Delta.{
  PolicyDelta, ApplyError, base_mismatch, Applying, index_rules, delta, diff, apply_changes, apply,
}
use innerwall.Delta.Roundtrip.{apply-delta}

module _ ⦃ip : Netip⦄ where
  -- `Apply` and `Diff` see a policy only through its canonical form.
  pub apply-canonical :
      (base : WorkloadPolicy) (d : PolicyDelta) → apply (canonical base) d ≡ apply base d
  unfolding apply canonical
  apply-canonical base d = rw (canonical_rules_idem base.inbound_rules)

  delta-canonical : (from to : WorkloadPolicy) → delta (canonical from) to ≡ delta from to
  unfolding delta diff canonical
  delta-canonical from to = rw (canonical_rules_idem from.inbound_rules)

  -- An agent that applies deltas one after the other, and stops at the first that fails.
  pub apply_all : WorkloadPolicy → List PolicyDelta → Result ApplyError WorkloadPolicy
  apply_all base [] = ok (canonical base)
  apply_all base (d ∷ ds) = apply base d >>= λ next. apply_all next ds

  pub deltas_of : WorkloadPolicy → List WorkloadPolicy → List PolicyDelta
  deltas_of from [] = []
  deltas_of from (to ∷ more) = delta from to ∷ deltas_of to more

  abbrev pub last_of : WorkloadPolicy → List WorkloadPolicy → WorkloadPolicy
  last_of from [] = from
  last_of from (to ∷ more) = last_of to more

  apply_all-canonical :
      (base : WorkloadPolicy) (ds : List PolicyDelta)
      → apply_all (canonical base) ds ≡ apply_all base ds
  unfolding apply_all
  apply_all-canonical base [] = ap ok (canonical_idem base)
  apply_all-canonical base (d ∷ ds) = rw (apply-canonical base d)

  -- The deltas between consecutive policies, applied to the first of them one after the other, all
  -- succeed and give the canonical form of the last.
  pub apply_all-deltas_of :
      (from : WorkloadPolicy) (more : List WorkloadPolicy)
      → apply_all from (deltas_of from more) ≡ ok (canonical (last_of from more))
  unfolding apply_all deltas_of
  apply_all-deltas_of from [] = refl
  apply_all-deltas_of from (to ∷ more) =
      rw (apply-delta from to)
        (apply_all-canonical to (deltas_of to more) ∙ apply_all-deltas_of to more)

  -- The policy that `Apply` returns at its end.
  finished : PolicyDelta → Applying → WorkloadPolicy
  finished d s = record {
    version = d.to_version;
    mode = s.mode;
    inbound_rules = values_at s.rules (keys s.rules);
  }

  apply_ok :
      (base : WorkloadPolicy) (d : PolicyDelta) (p : WorkloadPolicy)
      → (base.version == d.from_version) ≡ true
      → apply base d ≡ ok p
      → (s : Applying) × (canonical (finished d s) ≡ p)
  unfolding apply canonical finished
  apply_ok base d p e h =
      let start : Applying = record {
        rules = index_rules (canonical_rules base.inbound_rules);
        mode = base.mode;
      } in
      let opened : (apply_changes 0 d.changes start >>= λ s. ok (canonical (finished d s))) ≡ ok p =
        (rw e at h) in
      let (s, run, made) =
        >>=-eq-ok (apply_changes 0 d.changes start) (λ s. ok (canonical (finished d s))) p opened in
      (s, cc)

  canonical-finished :
      (d : PolicyDelta) (s : Applying) (p : WorkloadPolicy)
      → canonical (finished d s) ≡ p
      → (p.version ≡ d.to_version) × (canonical p ≡ p)
  unfolding finished
  canonical-finished d s p h = (
    sym (ap (λ (q : WorkloadPolicy). q.version) h) ∙ (unfold canonical in refl),
    ap canonical (sym h) ∙ canonical_idem (finished d s) ∙ h,
  )

  -- A delta whose from_version is not the version held is refused, whatever it changes; one that is
  -- applied gives a policy in canonical form at the delta's to_version.
  pub apply_outcome :
      (base : WorkloadPolicy) (d : PolicyDelta)
      → (base.version ≢ d.from_version
          → apply base d ≡ err (base_mismatch base.version d.from_version))
        × ((p : WorkloadPolicy)
            → apply base d ≡ ok p
            → (base.version ≡ d.from_version) × (p.version ≡ d.to_version) × (canonical p ≡ p))
  unfolding apply canonical
  apply_outcome base d = elim (Bool-cases (base.version == d.from_version)) [
    | inl e ↦ (
      λ ne. absurd (ne (ground arith)),
      λ p h.
          let (s, made) = apply_ok base d p e h in
          let (version, normal) = canonical-finished d s p made in (ground arith, version, normal),
    )
    | inr e ↦ (λ ne. rw e, λ p h. ground (arith, h))
  ]
