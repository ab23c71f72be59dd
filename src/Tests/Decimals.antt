-- ===== src/Tests/Decimals.antt =====
-- Decimals with eight places, and `none` for NaN, in place of `float64`.
use sia_optimization_proposa.Prelude.{
  ℕ, zero, suc, ◌+◌, ◌*◌, ◌≡◌, refl, Bool, true, false, ◌&&◌, Option, none, some, arith,
  if◌then◌else◌,
}
use Prim.Native.Nat.{◌/◌}
use sia_optimization_proposa.Prelude.Int.{
  ℤ, pos, negsuc, pos_part, neg_part, sub_ℕ, ◌+ℤ◌, ◌-ℤ◌, ltb_ℤ, leb_ℤ,
}
use sia_optimization_proposa.Floats.{Floats, IsOrdered}

abbrev Decimal : Type 0
Decimal = Option ℤ

abbrev scale : ℕ
scale = 100000000

abbrev lift : (ℤ → ℤ → Decimal) → Decimal → Decimal → Decimal
lift f none b = none
lift f (some a) none = none
lift f (some a) (some b) = f a b

abbrev test : (ℤ → ℤ → Bool) → Decimal → Decimal → Bool
test f none b = false
test f (some a) none = false
test f (some a) (some b) = f a b

-- m * n / d, with the signs.
abbrev scaled : ℤ → ℤ → ℕ → ℤ
scaled a b d =
    sub_ℕ ((pos_part a * pos_part b + neg_part a * neg_part b) / d)
      ((pos_part a * neg_part b + neg_part a * pos_part b) / d)

abbrev quotient : ℤ → ℤ → Decimal
quotient a (pos zero) = none
quotient a (pos (suc d)) = some (scaled a (pos scale) (suc d))
quotient a (negsuc d) = some (pos 0 -ℤ scaled a (pos scale) (suc d))

abbrev equal : ℤ → ℤ → Bool
equal a b = leb_ℤ a b && leb_ℤ b a

abbrev unknown : Decimal → Bool
unknown none = true
unknown (some a) = false

abbrev pub power : ℕ → ℕ
power zero = 1
power (suc n) = 10 * power n

-- x / (1 - x), which has the sign and the bound of `math.Expm1` for x that is not positive.
abbrev decline : Decimal → Decimal
decline none = none
decline (some a) = quotient a (pos scale -ℤ a)

abbrev pub decimals : Floats
decimals = record {
  F = Decimal;
  add = lift (λ a b. some (a +ℤ b));
  sub = lift (λ a b. some (a -ℤ b));
  mul = lift (λ a b. some (scaled a b scale));
  div = lift quotient;
  neg = lift (λ a b. some (a -ℤ b)) (some (pos 0));
  lt = test ltb_ℤ;
  le = test leb_ℤ;
  eq = test equal;
  is_nan = unknown;
  is_inf = λ a. false;
  nan = none;
  fmin = lift (λ a b. some (if leb_ℤ a b then a else b));
  fmax = lift (λ a b. some (if leb_ℤ a b then b else a));
  expm1 = decline;
  of_int = λ i. some (scaled i (pos scale) 1);
  lit = λ m e. some (pos (m * scale / power e));
  trunc = whole;
}
  where
    whole : Decimal → ℤ
    whole none = pos 0
    whole (some a) = scaled a (pos 1) scale

pub decimals-IsOrdered : IsOrdered decimals
decimals-IsOrdered = record {
  lt_irrefl = irrefl;
  lt_asymm = asymm;
  lt_trans = trans;
  eq_refl = refl_eq;
  eq_sym = sym_eq;
  eq_trans = trans_eq;
  eq_lt = eq_then_lt;
  lt_eq = lt_then_eq;
  lt_not_eq = apart;
  total = total_lt;
}
  where
    irrefl : (a : Decimal) → test ltb_ℤ a a ≡ false
    irrefl none = refl
    irrefl (some a) = ground arith

    asymm : (a b : Decimal) → test ltb_ℤ a b ≡ true → test ltb_ℤ b a ≡ false
    asymm none b h = absurd (cc)
    asymm (some a) none h = refl
    asymm (some a) (some b) h = ground arith

    trans :
        (a b c : Decimal) → test ltb_ℤ a b ≡ true → test ltb_ℤ b c ≡ true → test ltb_ℤ a c ≡ true
    trans none b c h k = absurd (cc)
    trans (some a) none c h k = absurd (cc)
    trans (some a) (some b) none h k = absurd (cc)
    trans (some a) (some b) (some c) h k = ground arith

    refl_eq : (a : Decimal) → unknown a ≡ false → test equal a a ≡ true
    refl_eq none h = absurd (cc)
    refl_eq (some a) h = ground arith

    sym_eq : (a b : Decimal) → test equal a b ≡ true → test equal b a ≡ true
    sym_eq none b h = absurd (cc)
    sym_eq (some a) none h = absurd (cc)
    sym_eq (some a) (some b) h = ground arith

    trans_eq :
        (a b c : Decimal) → test equal a b ≡ true → test equal b c ≡ true → test equal a c ≡ true
    trans_eq none b c h k = absurd (cc)
    trans_eq (some a) none c h k = absurd (cc)
    trans_eq (some a) (some b) none h k = absurd (cc)
    trans_eq (some a) (some b) (some c) h k = ground arith

    eq_then_lt :
        (a b c : Decimal) → test equal a b ≡ true → test ltb_ℤ b c ≡ true → test ltb_ℤ a c ≡ true
    eq_then_lt none b c h k = absurd (cc)
    eq_then_lt (some a) none c h k = absurd (cc)
    eq_then_lt (some a) (some b) none h k = absurd (cc)
    eq_then_lt (some a) (some b) (some c) h k = ground arith

    lt_then_eq :
        (a b c : Decimal) → test ltb_ℤ a b ≡ true → test equal b c ≡ true → test ltb_ℤ a c ≡ true
    lt_then_eq none b c h k = absurd (cc)
    lt_then_eq (some a) none c h k = absurd (cc)
    lt_then_eq (some a) (some b) none h k = absurd (cc)
    lt_then_eq (some a) (some b) (some c) h k = ground arith

    apart : (a b : Decimal) → test ltb_ℤ a b ≡ true → test equal a b ≡ false
    apart none b h = absurd (cc)
    apart (some a) none h = refl
    apart (some a) (some b) h = ground arith

    total_lt :
        (a b : Decimal)
        → unknown a ≡ false
        → unknown b ≡ false
        → test equal a b ≡ false
        → test ltb_ℤ a b ≡ false
        → test ltb_ℤ b a ≡ true
    total_lt none b h k e l = absurd (cc)
    total_lt (some a) none h k e l = absurd (cc)
    total_lt (some a) (some b) h k e l = ground arith
