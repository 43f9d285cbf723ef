-- ===== src/Plugin/Addresses.antt =====
-- The addresses that the plugin accepts.
use Prim.Native.Nat.{bit_and, bit_and-bitwise, digits, min}
use embd_project.Prelude.{
  ℕ, zero, suc, ◌+◌, ◌*◌, ◌/◌, ◌%◌, ◌^◌, ◌<◌, ◌≤◌, ◌≡◌, ◌≢◌, ◌↔◌, ◌⊎◌, refl, sym, ap, ◌∙◌, subst,
  true, false, none, ltb, eq_iff, ◌||◌, arith, inl, inr, Bool-cases,
}
use embd_project.Plugin.{NodeConf, digit_too_large, validate_conf}

-- The digits of two numbers, from enough fuel on.
and_digits : ℕ → ℕ → ℕ → ℕ
and_digits n a b = digits (λ y. 0) min n a b

-- More fuel than there are digits changes nothing.
and_digits-fuel : (n m a b : ℕ) → a ≤ n → a ≤ m → and_digits n a b ≡ and_digits m a b
unfolding and_digits
and_digits-fuel zero zero a b p q = refl
and_digits-fuel zero (suc m) zero b p q = refl
and_digits-fuel (suc n) zero zero b p q = refl
and_digits-fuel (suc n) (suc m) zero b p q = refl
and_digits-fuel zero (suc m) (suc a) b p q = absurd (omega (arith, p))
and_digits-fuel (suc n) zero (suc a) b p q = absurd (omega (arith, q))
and_digits-fuel (suc n) (suc m) (suc a) b p q =
    rw (and_digits-fuel n m (suc a / 2) (b / 2) (omega (arith, p)) (omega (arith, q))) refl

lowest : (a b : ℕ) → bit_and a b ≡ bit_and (a / 2) (b / 2) * 2 + min (a % 2) (b % 2)
unfolding and_digits
lowest zero b = simp bit_and-bitwise (omega arith)
lowest (suc a) b =
    bit_and-bitwise (suc a) b
    ∙ ap (λ d. d * 2 + min (suc a % 2) (b % 2))
        (and_digits-fuel a (suc a / 2) (suc a / 2) (b / 2) (omega arith) (omega arith)
          ∙ sym (bit_and-bitwise (suc a / 2) (b / 2)))

no_digits : (n a : ℕ) → and_digits n a 0 ≡ 0
unfolding and_digits
no_digits zero a = refl
no_digits (suc n) zero = refl
no_digits (suc n) (suc a) = omega (arith, no_digits n (suc a / 2))

no_bits : (a : ℕ) → bit_and a 0 ≡ 0
unfolding and_digits
no_bits a = bit_and-bitwise a 0 ∙ no_digits a a

octal_digit : (a : ℕ) → bit_and a 0o7 ≡ a % 8
octal_digit a =
    omega (arith, lowest a 7, lowest (a / 2) 3, lowest (a / 2 / 2) 1, no_bits (a / 2 / 2 / 2))

shift : (a b : ℕ) → bit_and a (b * 2) ≡ bit_and (a / 2) b * 2
shift a b =
    lowest a (b * 2)
    ∙ subst (λ h. bit_and (a / 2) (b * 2 / 2) * 2 + min (a % 2) (b * 2 % 2) ≡ bit_and (a / 2) h * 2)
        half (omega arith)
  where
    half : b * 2 / 2 ≡ b
    half = omega arith

next_digit : (a b : ℕ) → bit_and a (b * 8) ≡ bit_and (a / 8) b * 8
next_digit a b =
    ap (λ m. bit_and a m) (eighth b)
    ∙ omega (arith, shift a (b * 2 * 2), shift (a / 2) (b * 2), shift (a / 2 / 2) b)
    ∙ ap (λ x. bit_and x b * 8) (halves a)
  where
    eighth : (n : ℕ) → n * 8 ≡ n * 2 * 2 * 2
    eighth n = omega arith

    halves : (n : ℕ) → n / 2 / 2 / 2 ≡ n / 8
    halves n = omega arith

-- What the masks of `ValidateConf` cut out of an address.
mask_1 : (a : ℕ) → bit_and a 0o70 ≡ a / 8 % 8 * 8
mask_1 a = next_digit a 0o7 ∙ ap (λ x. x * 8) (octal_digit (a / 8))

mask_2 : (a : ℕ) → bit_and a 0o700 ≡ a / 8 / 8 % 8 * 64
mask_2 a = next_digit a 0o70 ∙ omega (arith, mask_1 (a / 8))

mask_3 : (a : ℕ) → bit_and a 0o7000 ≡ a / 8 / 8 / 8 % 8 * 512
mask_3 a = next_digit a 0o700 ∙ omega (arith, mask_2 (a / 8))

-- Each of the four lowest octal digits of an address is at most 5.
pub record DigitsAtMostFive (a : ℕ) : Type 0 where
  pub first : a % 8 ≤ 5
  pub second : a / 8 % 8 ≤ 5
  pub third : a / 8 / 8 % 8 ≤ 5
  pub fourth : a / 8 / 8 / 8 % 8 ≤ 5

small_digits :
    (w x y z : ℕ)
    → (ltb 0o5 w || (ltb 0o50 (x * 8) || (ltb 0o500 (y * 64) || ltb 0o5000 (z * 512)))) ≡ false
      ↔ ((w ≤ 5) × ((x ≤ 5) × ((y ≤ 5) × (z ≤ 5))))
small_digits w x y z = (
  λ e. (ground (arith, e), (ground (arith, e), (ground (arith, e), ground (arith, e)))),
  λ s. ground (arith, s.0, s.1.0, s.1.1.0, s.1.1.1),
)

digit_too_large-DigitsAtMostFive : (a : ℕ) → (digit_too_large a ≡ false) ↔ DigitsAtMostFive a
digit_too_large-DigitsAtMostFive a = (
  λ e.
      let h = small.0 (sym masks ∙ e) in
      record { first = h.0; second = h.1.0; third = h.1.1.0; fourth = h.1.1.1 },
  λ s. masks ∙ small.1 (s.first, (s.second, (s.third, s.fourth))),
)
  where
    small :
        (ltb 0o5 (a % 8)
            || (ltb 0o50 (a / 8 % 8 * 8)
                || (ltb 0o500 (a / 8 / 8 % 8 * 64) || ltb 0o5000 (a / 8 / 8 / 8 % 8 * 512))))
          ≡ false
        ↔ ((a % 8 ≤ 5) × ((a / 8 % 8 ≤ 5) × ((a / 8 / 8 % 8 ≤ 5) × (a / 8 / 8 / 8 % 8 ≤ 5))))
    small = small_digits (a % 8) (a / 8 % 8) (a / 8 / 8 % 8) (a / 8 / 8 / 8 % 8)

    masks : digit_too_large a ≡ (
        ltb 0o5 (a % 8)
        || (ltb 0o50 (a / 8 % 8 * 8)
            || (ltb 0o500 (a / 8 / 8 % 8 * 64) || ltb 0o5000 (a / 8 / 8 / 8 % 8 * 512))))
    masks = rw (octal_digit a, mask_1 a, mask_2 a, mask_3 a) refl

-- What a configuration is to satisfy.
pub record IsAccepted (c : NodeConf) : Type 0 where
  pub named : c.id ≢ ""
  pub role :
      ((c.master ≡ true) × (c.address ≡ 0))
      ⊎ ((c.master ≡ false) × ((0 < c.heartbeat_interval) × (c.heartbeat_interval < 2 ^ 63)))
  pub digits : DigitsAtMostFive c.address

-- `ValidateConf` accepts a configuration exactly if it has an id, if a master's address is 0 and the
-- heartbeat interval of another node is positive, and if each of the four lowest octal digits of the
-- address is at most 5; the digits above these are not looked at.
pub validate_conf-IsAccepted : (c : NodeConf) → (validate_conf c ≡ none) ↔ IsAccepted c
unfolding validate_conf
validate_conf-IsAccepted c = (
  λ e. record {
    named = λ q. ground (arith, e, (eq_iff c.id "").1 q);
    role = elim (Bool-cases c.master) [
      | inl m ↦ inl (m, ground (arith, m, e))
      | inr m ↦ inr (m, (ground (arith, m, e), ground (arith, m, e)))
    ];
    digits = (digit_too_large-DigitsAtMostFive c.address).0 (ground (arith, e));
  },
  λ s. accepts s ((digit_too_large-DigitsAtMostFive c.address).1 s.digits) s.role,
)
  where
    accepts :
        IsAccepted c
        → digit_too_large c.address ≡ false
        → ((c.master ≡ true) × (c.address ≡ 0))
          ⊎ ((c.master ≡ false) × ((0 < c.heartbeat_interval) × (c.heartbeat_interval < 2 ^ 63)))
        → validate_conf c ≡ none
    accepts s d (inl m) = ground (arith, d, m.0, m.1, s.named, (eq_iff c.id "").0)
    accepts s d (inr m) = ground (arith, d, m.0, m.1.0, m.1.1, s.named, (eq_iff c.id "").0)
