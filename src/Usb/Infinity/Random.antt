-- ===== src/Usb/Infinity/Random.antt =====
-- The generator of random numbers of src/usb/infinity.rs, and the scrambling of its seed.
use omniportal.Base.{
  ℕ, zero, suc, ◌+◌, ◌*◌, ◌/◌, ◌%◌, ◌^◌, ◌-◌, ◌==◌, if◌then◌else◌, bit_or, bit_xor,
}
use omniportal.Base.Bytes.{add32}

pub record RandomState : Type 0 where
  pub random_a : ℕ
  pub random_b : ℕ
  pub random_c : ℕ
  pub random_d : ℕ

unfoldable pub rotate_left : ℕ → ℕ → ℕ
rotate_left x k = x * 2 ^ k % 2 ^ 32 + x / 2 ^ (32 - k)

unfoldable pub next_random : RandomState → RandomState × ℕ
unfolding rotate_left
next_random random =
    let ret = rotate_left random.random_b 27 in
    let temp = add32 random.random_a (add32 (bit_xor ret 0xffff_ffff) 1) in
    let b = bit_xor random.random_b (rotate_left random.random_c 17) in
    let a = random.random_d in
    let c = add32 random.random_c a in
    let ret = add32 b temp in
    let a = add32 a temp in
    (record { random_c = a; random_a = b; random_b = c; random_d = ret }, ret)

-- The loop `for _ in 0..n`.
unfoldable pub discard : ℕ → RandomState → RandomState
unfolding next_random
discard zero random = random
discard (suc n) random = discard n (next_random random).0

unfoldable pub generate_seed : ℕ → RandomState
unfolding discard
generate_seed seed =
    discard 23
      (record { random_a = 0xf1ea_5eed; random_b = seed; random_c = seed; random_d = seed })

abbrev pub scramble_mask : ℕ
scramble_mask = 0x8e55_aa1b_3999_e8aa

-- The loop of `scramble`, with `n` rounds left.
unfoldable pub scramble_loop : ℕ → ℕ → ℕ → ℕ → ℕ → ℕ
scramble_loop zero mask num garbage ret = ret
scramble_loop (suc n) mask num garbage ret =
    let own = mask % 2 == 1 in
    scramble_loop n (mask / 2) (if own then num / 2 else num) (if own then garbage else garbage / 2)
      (bit_or (ret * 2 % 2 ^ 64) (if own then num % 2 else garbage % 2))

unfoldable pub scramble : ℕ → ℕ → ℕ
unfolding scramble_loop
scramble num_to_scramble garbage = scramble_loop 64 scramble_mask num_to_scramble garbage 0

-- The loop of `descramble`, with `n` rounds left.
unfoldable pub descramble_loop : ℕ → ℕ → ℕ → ℕ → ℕ → ℕ
descramble_loop zero mask num ret ret_mask = ret
descramble_loop (suc n) mask num ret ret_mask =
    let kept = mask / 2 ^ 63 % 2 == 1 in
    descramble_loop n (mask * 2 % 2 ^ 64) (num / 2)
      (if kept then bit_or ret (num % 2 * ret_mask) else ret)
      (if kept then ret_mask / 2 else ret_mask)

unfoldable pub descramble : ℕ → ℕ
unfolding descramble_loop
descramble num_to_descramble = descramble_loop 64 scramble_mask num_to_descramble 0 0x8000_0000
