-- ===== src/Kvm/Search.antt =====
-- `is_in_pfn` and `compare_addr_right12` of src/SecureVM/gate_function.h.
use hyper_mi.Base.{ℕ, zero, suc, ◌+◌, ◌/◌, ◌^◌, ◌==◌, if◌then◌else◌}

-- The loop at `i` with `n` turns to go.
unfoldable pub is_in_pfn_from : ℕ → ℕ → (ℕ → ℕ) → ℕ → ℕ
is_in_pfn_from zero i pfn_array_tmp pfn = 0
is_in_pfn_from (suc n) i pfn_array_tmp pfn =
    let rest = is_in_pfn_from n (i + 1) pfn_array_tmp pfn in
    if pfn_array_tmp i == pfn then 1 else rest

-- `pfn` is an int, compared as an unsigned number of 64 bits.
unfoldable pub is_in_pfn : (ℕ → ℕ) → ℕ → ℕ → ℕ
unfolding is_in_pfn_from
is_in_pfn pfn_array_tmp number_pfn pfn = is_in_pfn_from number_pfn 0 pfn_array_tmp pfn

unfoldable pub compare_addr_right12 : ℕ → ℕ → ℕ
compare_addr_right12 number_a number_b = if number_a / 2 ^ 12 == number_b / 2 ^ 12 then 1 else 0
