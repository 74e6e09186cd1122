-- ===== src/Policy/Admission.antt =====
-- The admission of authored objects: the parts of a validation find nothing exactly where their
-- conditions hold.
use innerwall.Prelude.Tests.{
  ℕ, suc, ◌≤◌, ◌≡◌, ◌≢◌, ◌↔◌, refl, sym, ◌∙◌, ap, ◌⊎◌, inl, inr, Bool, true, false, not, ◌&&◌, ◌||◌,
  Option, none, some, List, [], ◌∷◌, ◌++◌, leb, ◌==◌, if◌then◌else◌, length, All, Bool-cases, arith,
}
use mathlib.Core.Path.{subst}
use innerwall.Prelude.Order.{eqb→≡, eqb_refl}
use innerwall.Prelude.Sorting.{contains, sort, contains-sort}
use innerwall.Prelude.Dict.{get, keys}
use innerwall.Prelude.Text.{Str, str_order}
use innerwall.Rendered.{PortRange}
use innerwall.Delta.{is_empty}
use innerwall.Compiler.{tcp, udp, icmp}
use innerwall.Policy.{Uuid, ServiceEntry, Selector}
use innerwall.Policy.Labels.{
  LabelError, check_label_key, check_label_value, is_label, in_grammar-is_label,
}
use innerwall.Policy.Validate.{
  AdmissionError, label_refused, Finding, Findings, add_finding, carry_faults, add_unless,
  validate_ports, validate_protocol, validate_entry, validate_entries, References,
  validate_service_ids, add_label, values_of, validate_values, validate_key, validate_keys,
  validate_selector,
}

-- Where there are no errors, no path carries a fault.
abbrev pub IsSound : Findings → Type 0
IsSound f = f.errors ≡ [] → f.faulted ≡ []

-- A part of a validation that finds nothing exactly where its condition holds.
abbrev pub Checks : (Findings → Findings) → Type 0 → Type 0
Checks v P =
    (f : Findings)
    → IsSound f
    → IsSound (v f)
      × ((v f).errors ≡ [] → (f.errors ≡ []) × P)
      × (f.errors ≡ [] → P → (v f).errors ≡ [])

nonempty : {A : Type 0} (xs : List A) (x : A) → xs ++ x ∷ [] ≢ []
nonempty [] x e = cc (e)
nonempty (y ∷ xs) x e = cc (e)

pub checks_nothing : Checks (λ f. f) (Unit {0})
checks_nothing f s = (s, λ e. (e, tt), λ e u. e)

pub checks_then :
    (v w : Findings → Findings) (P Q : Type 0)
    → Checks v P
    → Checks w Q
    → Checks (λ f. w (v f)) (P × Q)
checks_then v w P Q cv cw f s =
    let (sv, from, to) = cv f s in
    let (sw, from', to') = cw (v f) sv in
    (
      sw,
      λ e. let (e', q) = from' e in let (e'', p) = from e' in (e'', (p, q)),
      λ e pq. to' (to e pq.0) pq.1,
    )

pub checks_iff :
    (v : Findings → Findings) (P Q : Type 0) → (P → Q) → (Q → P) → Checks v P → Checks v Q
checks_iff v P Q pq qp c f s =
    let (sv, from, to) = c f s in (sv, λ e. let (e', p) = from e in (e', pq p), λ e q. to e (qp q))

pub checks_add : (path : Str) (e : AdmissionError) (d : Str) → Checks (add_finding path e d) ⊥
unfolding add_finding
checks_add path e d f s = elim (Bool-cases (contains path f.faulted)) [
  | inl there ↦
      rw there (s, λ none_. cc (ap (contains path) (s none_), there), λ none_ no_. absurd no_)
  | inr new ↦ rw new (
    λ none_. absurd (nonempty f.errors _ none_),
    λ none_. absurd (nonempty f.errors _ none_),
    λ none_ no_. absurd no_,
  )
]

pub checks_unless :
    (b : Bool) (path : Str) (e : AdmissionError) (d : Str)
    → Checks (add_unless b path e d) (b ≡ true)
checks_unless true path e d = λ f s. (s, λ h. (h, refl), λ h u. h)
checks_unless false path e d =
    checks_iff (add_finding path e d) ⊥ (false ≡ true) (λ n. absurd n) (λ h. cc (h))
      (checks_add path e d)

carried_errors :
    (path : Str) (es : List Finding) (f : Findings)
    → f.errors ≢ []
    → (carry_faults path es f).errors ≢ []
unfolding carry_faults
carried_errors path [] f h = h
carried_errors path (e ∷ es) f h = carried_errors path es _ (nonempty f.errors _)

pub checks_carry : (path : Str) (es : List Finding) → Checks (carry_faults path es) (es ≡ [])
unfolding carry_faults
checks_carry path [] f s = (s, λ h. (h, refl), λ h u. h)
checks_carry path (e ∷ es) f s = (
  λ h. absurd (carried_errors path es _ (nonempty f.errors _) h),
  λ h. absurd (carried_errors path es _ (nonempty f.errors _) h),
  λ h u. cc (u),
)

-- What the author must have written.
abbrev pub IsPort : PortRange → Type 0
IsPort p = (p.start ≤ p.end) × (p.end ≤ 65535)

abbrev pub IsProtocol : ServiceEntry → Type 0
IsProtocol e = ((e.protocol ≡ tcp) ⊎ (e.protocol ≡ udp)) ⊎ ((e.protocol ≡ icmp) × (e.ports ≡ []))

abbrev pub IsEntry : ServiceEntry → Type 0
IsEntry e = IsProtocol e × All IsPort e.ports

checks_ports :
    (path : Str) (i : ℕ) (ps : List PortRange) → Checks (validate_ports path i ps) (All IsPort ps)
unfolding validate_ports
checks_ports path i [] = checks_nothing
checks_ports path i (p ∷ ps) =
    checks_then _ (validate_ports path (suc i) ps) (IsPort p) (All IsPort ps)
      (checks_iff _ _ (IsPort p) (λ h. ground (arith, h)) (λ h. ground (arith, h.0, h.1))
        (checks_unless (leb p.start p.end && leb p.end 65535) _ _ _))
      (checks_ports path (suc i) ps)

pub checks_if :
    (b : Bool) (v w : Findings → Findings) (P Q : Type 0)
    → Checks v P
    → Checks w Q
    → Checks (λ f. if b then v f else w f) (((b ≡ true) × P) ⊎ ((b ≡ false) × Q))
checks_if true v w P Q cv cw =
    checks_iff v P _ (λ p. inl (refl, p)) (λ c. elim c [ inl h ↦ h.1 | inr h ↦ cc (h.0) ]) cv
checks_if false v w P Q cv cw =
    checks_iff w Q _ (λ q. inr (refl, q)) (λ c. elim c [ inl h ↦ cc (h.0) | inr h ↦ h.1 ]) cw

pub empty_list : {A : Type 0} (xs : List A) → is_empty xs ≡ true → xs ≡ []
empty_list [] h = refl
empty_list (x ∷ xs) h = cc

pub some_list : {A : Type 0} (xs : List A) → not (is_empty xs) ≡ true → xs ≢ []
some_list [] h e = cc
some_list (x ∷ xs) h e = cc (e)

pub list_some : {A : Type 0} (xs : List A) → xs ≢ [] → not (is_empty xs) ≡ true
list_some [] h = absurd (h refl)
list_some (x ∷ xs) h = refl

checks-IsProtocol :
    (path : Str) (e : ServiceEntry) → Checks (validate_protocol path e) (IsProtocol e)
unfolding validate_protocol
checks-IsProtocol path e = checks_iff _ _ (IsProtocol e) from to (
    checks_if (e.protocol == tcp || e.protocol == udp) (λ f. f) _ (Unit {0}) _ checks_nothing
      (checks_if (e.protocol == icmp) _ _ (is_empty e.ports ≡ true) ⊥
        (checks_unless (is_empty e.ports) _ _ _) (checks_add _ _ _)))
  where
    Seen : Type 0
    Seen =
        (((e.protocol == tcp || e.protocol == udp) ≡ true) × Unit {0})
        ⊎ (((e.protocol == tcp || e.protocol == udp) ≡ false)
            × ((((e.protocol == icmp) ≡ true) × (is_empty e.ports ≡ true))
                ⊎ (((e.protocol == icmp) ≡ false) × ⊥)))

    from : Seen → IsProtocol e
    from (inl (h, u)) = inl (ground (arith, h))
    from (inr (h, inl (i, none_))) = inr (ground (arith, i), empty_list e.ports none_)
    from (inr (h, inr (i, no_))) = absurd no_

    to : IsProtocol e → Seen
    to (inl h) = inl (ground (arith, h), tt)
    to (inr (i, none_)) = inr (ground (arith, i), inl (ground (arith, i), ap is_empty none_))

checks-IsEntry : (path : Str) (e : ServiceEntry) → Checks (validate_entry path e) (IsEntry e)
unfolding validate_entry
checks-IsEntry path e =
    checks_then (validate_protocol path e) (validate_ports path 0 e.ports) (IsProtocol e)
      (All IsPort e.ports) (checks-IsProtocol path e) (checks_ports path 0 e.ports)

pub checks_entries :
    (path : Str) (i : ℕ) (es : List ServiceEntry)
    → Checks (validate_entries path i es) (All IsEntry es)
unfolding validate_entries
checks_entries path i [] = checks_nothing
checks_entries path i (e ∷ es) =
    checks_then _ (validate_entries path (suc i) es) (IsEntry e) (All IsEntry es)
      (checks-IsEntry _ e) (checks_entries path (suc i) es)

-- Every id of a list exists.
abbrev pub IsKnownIn : List Uuid → Uuid → Type 0
IsKnownIn known id = contains id known ≡ true

pub checks_service_ids :
    (refs : References) (path : Str) (i : ℕ) (ids : List Uuid)
    → Checks (validate_service_ids refs path i ids) (All (IsKnownIn refs.services) ids)
unfolding validate_service_ids
checks_service_ids refs path i [] = checks_nothing
checks_service_ids refs path i (id ∷ ids) =
    checks_then _ (validate_service_ids refs path (suc i) ids) (IsKnownIn refs.services id)
      (All (IsKnownIn refs.services) ids) (checks_unless (contains id refs.services) _ _ _)
      (checks_service_ids refs path (suc i) ids)

checks_label : (o : Option LabelError) (path d : Str) → Checks (add_label o path d) (o ≡ none)
unfolding add_label
checks_label none path d = λ f s. (s, λ h. (h, refl), λ h u. h)
checks_label (some e) path d =
    checks_iff (add_finding path (label_refused e) d) ⊥ (some e ≡ none) (λ n. absurd n)
      (λ h. cc (h)) (checks_add path (label_refused e) d)

label_key : (k : Str) → (check_label_key k ≡ none) ↔ (is_label true k ≡ true)
unfolding check_label_key
label_key k = (
  λ h. ground (arith, in_grammar-is_label true k, h),
  λ h. ground (arith, in_grammar-is_label true k, h, length_of k h),
)
  where
    length_of : (x : Str) → is_label true x ≡ true → (length x == 0) ≡ false
    length_of [] h = cc
    length_of (c ∷ cs) h = ground arith

label_value : (v : Str) → (check_label_value v ≡ none) ↔ (is_label false v ≡ true)
unfolding check_label_value
label_value v = (
  λ h. ground (arith, in_grammar-is_label false v, h),
  λ h. ground (arith, in_grammar-is_label false v, h),
)

abbrev pub IsValue : Str → Type 0
IsValue v = is_label false v ≡ true

-- A key of a selector is a label key with values, which are label values.
abbrev pub IsKey : Selector → Str → Type 0
IsKey s k =
    (is_label true k ≡ true) × (values_of (get k s) ≢ []) × All IsValue (values_of (get k s))

abbrev pub IsSelector : Selector → Type 0
IsSelector s = (s ≢ []) × ((k : Str) → contains k (keys s) ≡ true → IsKey s k)

All→contains :
    (P : Str → Type 0) (ks : List Str) → All P ks → (k : Str) → contains k ks ≡ true → P k
All→contains P [] h k c = cc (c)
All→contains P (x ∷ ks) h k c = elim (Bool-cases (str_order.eqb x k)) [
  | inl e ↦ subst P (eqb→≡ x k e) h.0
  | inr n ↦ All→contains P ks h.1 k (rw n at c)
]

contains→All :
    (P : Str → Type 0) (ks : List Str) → ((k : Str) → contains k ks ≡ true → P k) → All P ks
contains→All P [] h = tt
contains→All P (x ∷ ks) h =
    (h x (ground (arith, eqb_refl x)), contains→All P ks (λ k c. h k (ground (arith, c))))

module _ (quoted : Str → Str) where
  checks_values :
      (path key : Str) (vs : List Str)
      → Checks (validate_values quoted path key vs) (All IsValue vs)
  unfolding validate_values
  checks_values path key [] = checks_nothing
  checks_values path key (v ∷ vs) =
      checks_then _ (validate_values quoted path key vs) (IsValue v) (All IsValue vs)
        (checks_iff _ (check_label_value v ≡ none) (IsValue v) (label_value v).0 (label_value v).1
          (checks_label (check_label_value v) _ _))
        (checks_values path key vs)

  checks-IsKey :
      (path key : Str) (vs : List Str) (o : Option LabelError)
      → Checks (validate_key quoted path key vs o) ((o ≡ none) × (vs ≢ []) × All IsValue vs)
  unfolding validate_key
  checks-IsKey path key vs (some e) =
      checks_iff (add_finding path (label_refused e) (quoted key)) ⊥ _ (λ n. absurd n)
        (λ h. cc (h.0)) (checks_add path (label_refused e) (quoted key))
  checks-IsKey path key vs none =
      checks_iff _ ((not (is_empty vs) ≡ true) × All IsValue vs) _
        (λ h. (refl, some_list vs h.0, h.1)) (λ h. (list_some vs h.1, h.2))
        (checks_then _ (validate_values quoted path key vs) (not (is_empty vs) ≡ true)
          (All IsValue vs) (checks_unless (not (is_empty vs)) _ _ _) (checks_values path key vs))

  checks_keys :
      (path : Str) (s : Selector) (ks : List Str)
      → Checks (validate_keys quoted path s ks) (All (IsKey s) ks)
  unfolding validate_keys
  checks_keys path s [] = checks_nothing
  checks_keys path s (k ∷ ks) =
      checks_then _ (validate_keys quoted path s ks) (IsKey s k) (All (IsKey s) ks)
        (checks_iff _ _ (IsKey s k) (λ h. ((label_key k).0 h.0, h.1, h.2))
          (λ h. ((label_key k).1 h.0, h.1, h.2))
          (checks-IsKey path k (values_of (get k s)) (check_label_key k)))
        (checks_keys path s ks)

  pub checks-IsSelector :
      (path : Str) (s : Selector) → Checks (validate_selector quoted path s) (IsSelector s)
  unfolding validate_selector
  checks-IsSelector path s = checks_iff _ _ (IsSelector s) from to (
      checks_if (is_empty s) _ _ ⊥ (All (IsKey s) (sort (keys s))) (checks_add _ _ _)
        (checks_keys path s (sort (keys s))))
    where
      Seen : Type 0
      Seen = ((is_empty s ≡ true) × ⊥) ⊎ ((is_empty s ≡ false) × All (IsKey s) (sort (keys s)))

      from : Seen → IsSelector s
      from (inl (h, no_)) = absurd no_
      from (inr (h, all)) = (
        λ e. cc (h, ap is_empty e),
        λ k c. All→contains (IsKey s) (sort (keys s)) all k (contains-sort k (keys s) ∙ c),
      )

      to : IsSelector s → Seen
      to (some_, each) = inr (
        ground (arith, list_some s some_),
        contains→All (IsKey s) (sort (keys s)) (λ k c. each k (sym (contains-sort k (keys s)) ∙ c)),
      )
