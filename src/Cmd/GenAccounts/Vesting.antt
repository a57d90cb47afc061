-- ===== src/Cmd/GenAccounts/Vesting.antt =====
-- Which account the parameters ask for.
use burnt.Base.{ℕ, ◌≡◌, ◌≢◌, Bytes, true, false, ◌==◌, if◌then◌else◌, ok, arith}
use burnt.Cmd.GenAccounts.{GenAccount, delayed, continuous, Genutil, new_account}

module _ (g : Genutil) (addr : Bytes) (coins amt : g.Coins) (vesting_start vesting_end : ℕ) where
  -- An account that is made with a vesting amount that is not zero: if the coins are zero, the
  -- sorted vesting amount is too; IsAnyGT does not find a denomination of which more vests than the
  -- coins hold; there is an end time; and the account is a delayed vesting account if the start
  -- time is 0 and a continuous one otherwise, for the address and the sorted amount.
  pub new_account_vests :
      (acc : GenAccount g.Coins)
      → new_account g addr coins amt vesting_start vesting_end ≡ ok acc
      → g.is_zero amt ≡ false
      → ((g.is_zero coins ≡ true) → g.is_zero (g.sort amt) ≡ true)
        × (g.is_any_gt (g.sort amt) coins ≡ false)
        × (vesting_end ≢ 0)
        × (acc ≡ (
            if vesting_start == 0
            then delayed addr (g.sort amt) vesting_end
            else continuous addr (g.sort amt) vesting_start vesting_end))
  unfolding new_account
  new_account_vests acc e v = ((λ z. ground (arith, z)), ground arith, ground arith, ground arith)
