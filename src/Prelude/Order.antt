-- ===== src/Prelude/Order.antt =====
-- Strict total orders with a Boolean test, as Go's `<` and `==` on strings and structs give them.
use innerwall.Prelude.Tests.{
  ℕ, ◌≡◌, refl, ◌↔◌, ◌⊎◌, Bool, true, false, ◌&&◌, ◌||◌, List, [], ◌∷◌, arith, ltb, ◌==◌,
}

pub record Order {ℓ} (A : Type ℓ) : Type ℓ where
  pub lt : A → A → Bool
  pub eqb : A → A → Bool
  pub eqb_iff : (a b : A) → (eqb a b ≡ true) ↔ (a ≡ b)
  pub irrefl : (a : A) → lt a a ≡ false
  pub trans : (a b c : A) → lt a b ≡ true → lt b c ≡ true → lt a c ≡ true
  pub connex : (a b : A) → lt a b ≡ false → lt b a ≡ false → a ≡ b

abbrev pub lt_of {ℓ} : {A : Type ℓ} ⦃o : Order A⦄ → A → A → Bool
lt_of ⦃o⦄ = o.lt

infix 50 ◌=?◌
abbrev pub ◌=?◌ {ℓ} : {A : Type ℓ} ⦃o : Order A⦄ → A → A → Bool
◌=?◌ ⦃o⦄ = o.eqb

pub nat_eqb_iff : (a b : ℕ) → ((a == b) ≡ true) ↔ (a ≡ b)
nat_eqb_iff a b = ground arith

pub nat_irrefl : (a : ℕ) → ltb a a ≡ false
nat_irrefl a = ground arith

pub nat_trans : (a b c : ℕ) → ltb a b ≡ true → ltb b c ≡ true → ltb a c ≡ true
nat_trans a b c p q = ground arith

pub nat_connex : (a b : ℕ) → ltb a b ≡ false → ltb b a ≡ false → a ≡ b
nat_connex a b p q = ground arith

instance abbrev pub nat_order : Order ℕ
nat_order = record {
  lt = ltb;
  eqb = ◌==◌;
  eqb_iff = nat_eqb_iff;
  irrefl = nat_irrefl;
  trans = nat_trans;
  connex = nat_connex;
}

-- Facts in the form that `ground` takes.
module _ {ℓ} {A : Type ℓ} ⦃o : Order A⦄ where
  pub eqb_refl : (a : A) → o.eqb a a ≡ true
  eqb_refl a = (o.eqb_iff a a).1 refl

  pub eqb→≡ : (a b : A) → o.eqb a b ≡ true → a ≡ b
  eqb→≡ a b h = (o.eqb_iff a b).0 h

  pub lt→neqb : (a b : A) → o.lt a b ≡ true → o.eqb a b ≡ false
  lt→neqb a b h = ground (arith, o.eqb_iff a b, o.irrefl a)

  pub lt→neqb_sym : (a b : A) → o.lt a b ≡ true → o.eqb b a ≡ false
  lt→neqb_sym a b h = ground (arith, o.eqb_iff b a, o.irrefl a)

  pub eqb_sym : (a b : A) → o.eqb a b ≡ o.eqb b a
  eqb_sym a b = ground (arith, o.eqb_iff b a, o.eqb_iff a b)

  pub eqb-cases : (a b : A) → (a ≡ b) ⊎ (o.eqb a b ≡ false)
  eqb-cases a b = ground (arith, o.eqb_iff a b)

-- The lexicographic order of lists: Go's order of strings.
module _ {ℓ} {A : Type ℓ} ⦃o : Order A⦄ where
  abbrev pub list_lt : List A → List A → Bool
  list_lt [] [] = false
  list_lt [] (b ∷ bs) = true
  list_lt (a ∷ as') [] = false
  list_lt (a ∷ as') (b ∷ bs) = o.lt a b || (o.eqb a b && list_lt as' bs)

  abbrev pub list_eqb : List A → List A → Bool
  list_eqb [] [] = true
  list_eqb [] (b ∷ bs) = false
  list_eqb (a ∷ as') [] = false
  list_eqb (a ∷ as') (b ∷ bs) = o.eqb a b && list_eqb as' bs

  pub list_eqb_iff : (a b : List A) → (list_eqb a b ≡ true) ↔ (a ≡ b)
  list_eqb_iff [] [] = ground arith
  list_eqb_iff [] (b ∷ bs) = ground arith
  list_eqb_iff (a ∷ as') [] = ground arith
  list_eqb_iff (a ∷ as') (b ∷ bs) = ground (arith, o.eqb_iff a b, list_eqb_iff as' bs)

  pub list_irrefl : (a : List A) → list_lt a a ≡ false
  list_irrefl [] = refl
  list_irrefl (a ∷ as') = ground (arith, o.irrefl a, list_irrefl as')

  pub list_trans : (a b c : List A) → list_lt a b ≡ true → list_lt b c ≡ true → list_lt a c ≡ true
  list_trans [] [] c p q = ground arith
  list_trans [] (b ∷ bs) [] p q = ground arith
  list_trans [] (b ∷ bs) (c ∷ cs) p q = refl
  list_trans (a ∷ as') [] c p q = ground arith
  list_trans (a ∷ as') (b ∷ bs) [] p q = ground arith
  list_trans (a ∷ as') (b ∷ bs) (c ∷ cs) p q =
      ground
        (arith, o.trans a b c, o.eqb_iff a b, o.eqb_iff b c, o.eqb_iff a c, list_trans as' bs cs)

  pub list_connex : (a b : List A) → list_lt a b ≡ false → list_lt b a ≡ false → a ≡ b
  list_connex [] [] p q = refl
  list_connex [] (b ∷ bs) p q = ground arith
  list_connex (a ∷ as') [] p q = ground arith
  list_connex (a ∷ as') (b ∷ bs) p q =
      ground (arith, o.connex a b, o.eqb_iff a b, o.eqb_iff b a, list_connex as' bs)

  instance abbrev pub list_order : Order (List A)
  list_order = record {
    lt = list_lt;
    eqb = list_eqb;
    eqb_iff = list_eqb_iff;
    irrefl = list_irrefl;
    trans = list_trans;
    connex = list_connex;
  }
