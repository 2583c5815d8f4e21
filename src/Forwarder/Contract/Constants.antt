-- ===== src/Forwarder/Contract/Constants.antt =====
-- The constants of forwarder/src/lib.rs.
use aurora_forwarder_contrac.Base.{ℕ, [], ◌∷◌, Bytes, codes}

abbrev pub minimum_balance : ℕ
minimum_balance = 310_000_000_000_000_000_000_000

abbrev pub zero_yocto : ℕ
zero_yocto = 0

abbrev pub calculate_fees_gas : ℕ
calculate_fees_gas = 4_000_000_000_000

abbrev pub near_deposit_gas : ℕ
near_deposit_gas = 2_000_000_000_000

abbrev pub ft_balance_gas : ℕ
ft_balance_gas = 2_000_000_000_000

abbrev pub ft_transfer_gas : ℕ
ft_transfer_gas = 3_000_000_000_000

abbrev pub ft_transfer_call_gas : ℕ
ft_transfer_call_gas = 80_000_000_000_000

abbrev pub calculate_fees_callback_gas : ℕ
calculate_fees_callback_gas = 120_000_000_000_000

abbrev pub finish_forward_gas : ℕ
finish_forward_gas = 100_000_000_000_000

-- The key that may upgrade the contract.
abbrev pub updater_pk : Bytes
updater_pk =
    0 ∷ 157 ∷ 55 ∷ 171 ∷ 39 ∷ 212 ∷ 8 ∷ 14 ∷ 19 ∷ 58 ∷ 101 ∷ 78 ∷ 158 ∷ 202 ∷ 229 ∷ 222 ∷ 152 ∷ 23
    ∷ 144 ∷ 112 ∷ 79 ∷ 136 ∷ 229 ∷ 203 ∷ 142 ∷ 41 ∷ 95 ∷ 170 ∷ 31 ∷ 58 ∷ 47 ∷ 213 ∷ 152 ∷ []

-- The token id that stands for native NEAR.
abbrev pub near : Bytes
near = codes "near"
