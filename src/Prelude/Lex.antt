-- ===== src/Prelude/Lex.antt =====
-- Lexicographic orders on pairs, and the order that an injective key induces.
use innerwall.Prelude.Tests.{◌≡◌, ap, ◌↔◌, Bool, true, false, ◌&&◌, arith, if◌then◌else◌}
use innerwall.Prelude.Order.{Order, eqb→≡}

module _ {A B : Type 0} ⦃oa : Order A⦄ ⦃ob : Order B⦄ where
  abbrev pub pair_lt : A × B → A × B → Bool
  pair_lt (a, b) (c, d) = if oa.eqb a c then ob.lt b d else oa.lt a c

  abbrev pub pair_eqb : A × B → A × B → Bool
  pair_eqb (a, b) (c, d) = oa.eqb a c && ob.eqb b d

  pub pair_eqb_iff : (x y : A × B) → (pair_eqb x y ≡ true) ↔ (x ≡ y)
  pair_eqb_iff (a, b) (c, d) = (
    λ h. cc (eqb→≡ a c (ground arith), eqb→≡ b d (ground arith)),
    λ h. ground (
      arith,
      oa.eqb_iff a c,
      ob.eqb_iff b d,
      ap (λ (p : A × B). p.0) h,
      ap (λ (p : A × B). p.1) h,
    ),
  )

  pub pair_irrefl : (x : A × B) → pair_lt x x ≡ false
  pair_irrefl (a, b) = ground (arith, oa.eqb_iff a a, oa.irrefl a, ob.irrefl b)

  pub pair_trans : (x y z : A × B) → pair_lt x y ≡ true → pair_lt y z ≡ true → pair_lt x z ≡ true
  pair_trans (a, b) (c, d) (e, f) p q = ground (
    arith,
    oa.trans a c e,
    ob.trans b d f,
    oa.eqb_iff a c,
    oa.eqb_iff c e,
    oa.eqb_iff a e,
    oa.eqb_iff e c,
    oa.irrefl a,
    oa.trans c a e,
    oa.trans a c a,
  )

  pub pair_connex : (x y : A × B) → pair_lt x y ≡ false → pair_lt y x ≡ false → x ≡ y
  pair_connex (a, b) (c, d) p q =
      let (first, second) : (a ≡ c) × (b ≡ d) =
        ground (arith, oa.connex a c, ob.connex b d, oa.eqb_iff a c, oa.eqb_iff c a) in
      cc (first, second)

  instance abbrev pub pair_order : Order (A × B)
  pair_order = record {
    lt = pair_lt;
    eqb = pair_eqb;
    eqb_iff = pair_eqb_iff;
    irrefl = pair_irrefl;
    trans = pair_trans;
    connex = pair_connex;
  }

-- The order of the keys, where a value has one key.
module _ {A K : Type 0} ⦃o : Order K⦄ (key : A → K)
    (injective : (a b : A) → key a ≡ key b → a ≡ b) where
  pub key_eqb_iff : (a b : A) → (o.eqb (key a) (key b) ≡ true) ↔ (a ≡ b)
  key_eqb_iff a b =
      (λ h. injective a b (eqb→≡ (key a) (key b) h), λ e. (o.eqb_iff (key a) (key b)).1 (ap key e))

  abbrev pub order_by : Order A
  order_by = record {
    lt = λ a b. o.lt (key a) (key b);
    eqb = λ a b. o.eqb (key a) (key b);
    eqb_iff = key_eqb_iff;
    irrefl = λ a. o.irrefl (key a);
    trans = λ a b c. o.trans (key a) (key b) (key c);
    connex = λ a b p q. injective a b (o.connex (key a) (key b) p q);
  }
