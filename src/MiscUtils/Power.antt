-- ===== src/MiscUtils/Power.antt =====
-- `ipow` is the power in 32 bits.
use native.Mathlib.Nat.{
  mul-add-mod_self_left, div-add-mod, pow-zero, pow-suc, mul_comm, mul_assoc, add-mul,
}
use ks_core.Base.{
  ℕ, zero, suc, ◌+◌, ◌*◌, ◌/◌, ◌%◌, ◌^◌, ◌<◌, ◌≡◌, refl, sym, ap, ◌∙◌, true, false, some, ◌==◌,
  if◌then◌else◌, ◌>>=◌, arith, inl, inr, Bool-cases,
}
use ks_core.MiscUtils.{sign_extend, ipow_loop, ipow}

-- A factor counts only modulo m.
mul_mod_left : (a b m : ℕ) → a % m * b % m ≡ a * b % m
mul_mod_left a b m =
    sym (mul-add-mod_self_left m (a / m * b) (a % m * b))
    ∙ ap (λ x. x % m)
        (ap (λ x. x + a % m * b) (sym (mul_assoc m (a / m) b))
          ∙ sym (add-mul (m * (a / m)) (a % m) b)
          ∙ ap (λ x. x * b) (div-add-mod a m))

mul_mod_right : (a b m : ℕ) → a * (b % m) % m ≡ a * b % m
mul_mod_right a b m =
    ap (λ x. x % m) (mul_comm a (b % m)) ∙ mul_mod_left b a m ∙ ap (λ x. x % m) (mul_comm b a)

mul_cong : (a b c d m : ℕ) → a % m ≡ c % m → b % m ≡ d % m → a * b % m ≡ c * d % m
mul_cong a b c d m e f =
    sym (mul_mod_left a b m)
    ∙ ap (λ x. x * b % m) e
    ∙ mul_mod_left c b m
    ∙ sym (mul_mod_right c b m)
    ∙ ap (λ x. c * x % m) f
    ∙ mul_mod_right c d m

pow_cong : (a b k m : ℕ) → a % m ≡ b % m → a ^ k % m ≡ b ^ k % m
pow_cong a b zero m e = ap (λ x. x % m) (pow-zero a ∙ sym (pow-zero b))
pow_cong a b (suc k) m e =
    ap (λ x. x % m) (pow-suc a k)
    ∙ mul_cong (a ^ k) a (b ^ k) b m (pow_cong a b k m e) e
    ∙ ap (λ x. x % m) (sym (pow-suc b k))

square_pow : (b k : ℕ) → (b * b) ^ k ≡ b ^ (k + k)
square_pow b zero = pow-zero (b * b) ∙ sym (pow-zero b)
square_pow b (suc k) =
    pow-suc (b * b) k
    ∙ ap (λ x. x * (b * b)) (square_pow b k)
    ∙ sym (mul_assoc (b ^ (k + k)) b b)
    ∙ ap (λ x. x * b) (sym (pow-suc b (k + k)))
    ∙ sym (pow-suc b (suc (k + k)))
    ∙ ap (λ x. b ^ x) twice
  where
    twice : suc (suc (k + k)) ≡ suc k + suc k
    twice = omega arith

sign_extend_mod : (n : ℕ) → n < 4294967296 → sign_extend n % 4294967296 ≡ n % 4294967296
sign_extend_mod n h = ground arith

narrow : (n : ℕ) → n % 18446744073709551616 % 4294967296 ≡ n % 4294967296
narrow n = omega arith

abbrev word : ℕ
word = 4294967296

abbrev next_result : ℕ → ℕ → ℕ → ℕ
next_result base exp result =
    if exp % 2 == 1 then sign_extend result * base % 2 ^ 64 % 2 ^ 32 else result

next_result-lt : (base exp result : ℕ) → result < word → next_result base exp result < word
next_result-lt base exp result h = elim (Bool-cases (exp % 2 == 1)) [
  | inl e ↦ rw e (omega arith)
  | inr e ↦ rw e h
]

-- One round keeps result * base ^ exp, modulo 2 ^ 32.
round :
    (base exp result : ℕ)
    → result < word
    → next_result base exp result * (base * base % 18446744073709551616) ^ (exp / 2) % word
      ≡ result * base ^ exp % word
round base exp result h =
    mul_cong (next_result base exp result) _ (next_result base exp result) ((base * base) ^ k) word
      refl
      (pow_cong (base * base % 18446744073709551616) (base * base) k word (narrow (base * base)))
    ∙ ap (λ x. next_result base exp result * x % word) (square_pow base k)
    ∙ elim (Bool-cases (exp % 2 == 1)) [
      | inl e ↦ rw e (odd e)
      | inr e ↦ rw e (ap (λ x. result * base ^ x % word) (even e))
    ]
  where
    k : ℕ
    k = exp / 2

    even : (exp % 2 == 1) ≡ false → k + k ≡ exp
    even e = ground (arith, e)

    is_odd : (exp % 2 == 1) ≡ true → suc (k + k) ≡ exp
    is_odd e = ground (arith, e)

    odd :
        (exp % 2 == 1) ≡ true
        → sign_extend result * base % 18446744073709551616 % word * base ^ (k + k) % word
          ≡ result * base ^ exp % word
    odd e =
        mul_mod_left (sign_extend result * base % 18446744073709551616) (base ^ (k + k)) word
        ∙ mul_cong (sign_extend result * base % 18446744073709551616) (base ^ (k + k))
            (result * base) (base ^ (k + k)) word
            (narrow (sign_extend result * base)
              ∙ mul_cong (sign_extend result) base result base word (sign_extend_mod result h) refl)
            refl
        ∙ ap (λ x. x % word)
            (mul_assoc result base (base ^ (k + k))
              ∙ ap (λ x. result * x)
                  (mul_comm base (base ^ (k + k))
                    ∙ sym (pow-suc base (k + k))
                    ∙ ap (λ x. base ^ x) (is_odd e)))

loop_step :
    (fuel base exp result : ℕ)
    → ipow_loop (suc fuel) base exp result ≡ (
        if exp == 0
        then some result
        else ipow_loop fuel
            (base * base % 18446744073709551616)
            (exp / 2)
            (next_result base exp result))
unfolding ipow_loop
loop_step fuel base exp result = refl

loop_end :
    (base exp result : ℕ) → result < word → (exp == 0) ≡ true → result ≡ result * base ^ exp % word
loop_end base exp result h e =
    sym
      (ap (λ x. result * base ^ x % word) over ∙ ap (λ x. result * x % word) (pow-zero base) ∙ same)
  where
    over : exp ≡ 0
    over = ground (arith, e)

    same : result * 1 % word ≡ result
    same = omega arith

ipow_loop_lem :
    (fuel base exp result : ℕ)
    → exp < 2 ^ fuel
    → result < word
    → ipow_loop (suc fuel) base exp result ≡ some (result * base ^ exp % word)
ipow_loop_lem zero base exp result small h =
    loop_step zero base exp result ∙ rw none_left (ap some (loop_end base exp result h none_left))
  where
    none_left : (exp == 0) ≡ true
    none_left = ground (arith, small)
ipow_loop_lem (suc fuel) base exp result small h =
    loop_step (suc fuel) base exp result ∙ elim (Bool-cases (exp == 0)) [
      | inl e ↦ rw e (ap some (loop_end base exp result h e))
      | inr e ↦ rw e (
          ipow_loop_lem fuel (base * base % 18446744073709551616) (exp / 2)
            (next_result base exp result) (omega (arith, small, two_pow fuel))
            (next_result-lt base exp result h)
          ∙ ap some (round base exp result h))
    ]
  where
    two_pow : (n : ℕ) → 2 ^ suc n ≡ 2 ^ n * 2
    two_pow n = pow-suc 2 n

-- `ipow` comes to an end for every base and exponent of 64 bits, and gives the power's low 32 bits,
-- taken as a signed number: higher bits of the power are lost, though an s64 has room for them.
pub ipow_lem :
    (base exp : ℕ) → exp < 2 ^ 64 → ipow base exp ≡ some (sign_extend (base ^ exp % 2 ^ 32))
unfolding ipow
ipow_lem base exp h =
    ap (λ o. o >>= λ result. some (sign_extend result))
      (ipow_loop_lem 64 base exp 1 h (omega arith) ∙ ap (λ x. some (x % word)) one)
  where
    one : 1 * base ^ exp ≡ base ^ exp
    one = omega arith

-- `ipow` gives the power itself where that is less than 2 ^ 31.
pub ipow_exact :
    (base exp : ℕ) → exp < 2 ^ 64 → base ^ exp < 2 ^ 31 → ipow base exp ≡ some (base ^ exp)
ipow_exact base exp h small = ipow_lem base exp h ∙ ap some (fits (base ^ exp) small)
  where
    fits : (n : ℕ) → n < 2147483648 → sign_extend (n % 4294967296) ≡ n
    fits n f = ground arith
