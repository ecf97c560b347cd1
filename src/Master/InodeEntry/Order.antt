-- ===== src/Master/InodeEntry/Order.antt =====
-- The order of the keys.
use Prim.Native.Nat.{compare, Ordering}
use native.Mathlib.Nat.{div-add-mod', mod-lt, add-mul-mod_self_left, mod-eq_of_lt}
use any_cache.Base.{ℕ, zero, suc, ◌+◌, ◌*◌, ◌/◌, ◌%◌, ◌^◌, ◌<◌, ◌≡◌, refl, ap, sym, ◌∙◌, u64, arith}
use any_cache.Master.InodeEntry.{encode_big_endian64, big_endian_bytes}
use any_cache.Master.MountTable.{compare_paths}

abbrev then_compare : Ordering → Ordering → Ordering
then_compare Ordering.lt rest = Ordering.lt
then_compare Ordering.eq rest = rest
then_compare Ordering.gt rest = Ordering.gt

digits_lt : (base high other low : ℕ) → low < base → high < other → high * base + low < other * base
digits_lt base high other low h k = grind arith

compare_digits :
    (base high_a high_b low_a low_b : ℕ)
    → low_a < base
    → low_b < base
    → compare (high_a * base + low_a) (high_b * base + low_b)
      ≡ then_compare (compare high_a high_b) (compare low_a low_b)
compare_digits base high_a high_b low_a low_b ha hb =
    ground (arith, digits_lt base high_a high_b low_a ha, digits_lt base high_b high_a low_b hb)

power_pos : (n : ℕ) → 0 < 256 ^ n
power_pos zero = omega arith
power_pos (suc n) = omega (arith, power_pos n)

regroup_sum :
    (base high digit low : ℕ)
    → (high * 256 + digit) * base + low ≡ digit * base + low + 256 * base * high
regroup_sum base high digit low = grind arith

regroup :
    (base whole quotient high digit low : ℕ)
    → high * 256 + digit ≡ quotient
    → whole ≡ 256 * base
    → quotient * base + low ≡ digit * base + low + whole * high
regroup base whole quotient high digit low split size =
    ap (λ q. q * base + low) (sym split)
    ∙ regroup_sum base high digit low
    ∙ ap (λ x. digit * base + low + x * high) (sym size)

split_digit : (n a : ℕ) → a % 256 ^ suc n ≡ (a / 256 ^ n % 256) * 256 ^ n + a % 256 ^ n
split_digit n a =
    let e1 = div-add-mod' a (256 ^ n) in
    let e2 = div-add-mod' (a / 256 ^ n) 256 in
    let p = mod-lt a (power_pos n) in
    let low = a / 256 ^ n % 256 * 256 ^ n + a % 256 ^ n in
    let small : low < 256 ^ suc n =
      omega (arith, digits_lt (256 ^ n) (a / 256 ^ n % 256) 256 _ p (omega arith)) in
    let whole : a ≡ low + 256 ^ suc n * (a / 256 ^ n / 256) =
      sym e1
      ∙ regroup (256 ^ n) _ (a / 256 ^ n) (a / 256 ^ n / 256) _ (a % 256 ^ n) e2 (omega arith) in
    ap (λ x. x % 256 ^ suc n) whole
    ∙ add-mul-mod_self_left low (256 ^ suc n) (a / 256 ^ n / 256)
    ∙ mod-eq_of_lt small

by_digit :
    (o rest : Ordering)
    → elim o [ Ordering.lt ↦ Ordering.lt | Ordering.eq ↦ rest | Ordering.gt ↦ Ordering.gt ]
      ≡ then_compare o rest
by_digit Ordering.lt rest = refl
by_digit Ordering.eq rest = refl
by_digit Ordering.gt rest = refl

compare-big_endian_bytes :
    (n a b : ℕ)
    → compare_paths (big_endian_bytes n a) (big_endian_bytes n b)
      ≡ compare (a % 256 ^ n) (b % 256 ^ n)
unfolding compare_paths big_endian_bytes
compare-big_endian_bytes zero a b = ground arith
compare-big_endian_bytes (suc n) a b =
    let ih = compare-big_endian_bytes n a b in
    let pa = mod-lt a (power_pos n) in
    let pb = mod-lt b (power_pos n) in
    let digits = compare_digits (256 ^ n) (a / 256 ^ n % 256) (b / 256 ^ n % 256) _ _ pa pb in
    by_digit (compare (a / 256 ^ n % 256) (b / 256 ^ n % 256)) _
    ∙ ap (then_compare (compare (a / 256 ^ n % 256) (b / 256 ^ n % 256))) ih
    ∙ sym digits
    ∙ cc (split_digit n a, split_digit n b)

-- Words have the order of their eight bytes as paths: a scan of the keys meets the ids in ascending
-- order.
pub compare-encode_big_endian64 :
    (a b : ℕ)
    → a < u64
    → b < u64
    → compare_paths (encode_big_endian64 a) (encode_big_endian64 b) ≡ compare a b
unfolding encode_big_endian64
compare-encode_big_endian64 a b ha hb =
    let same_a : a % 256 ^ 8 ≡ a = omega arith in
    let same_b : b % 256 ^ 8 ≡ b = omega arith in
    compare-big_endian_bytes 8 a b ∙ cc (same_a, same_b)
