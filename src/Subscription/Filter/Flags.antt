-- ===== src/Subscription/Filter/Flags.antt =====
-- `ClientFilterFlags` of common/src/subscription.rs: two bits of a `u32`.
use openwec.Prelude.{
  ℕ, ◌+◌, ◌/◌, ◌%◌, ◌≡◌, Bool, false, Option, none, some, arith, ltb, eqb, if◌then◌else◌,
}

pub record ClientFilterFlags : Type 0 where
  pub case_insensitive : Bool
  pub glob_pattern : Bool

abbrev pub empty : ClientFilterFlags
empty = record { case_insensitive = false; glob_pattern = false }

unfoldable pub bits : ClientFilterFlags → ℕ
bits f = (if f.case_insensitive then 1 else 0) + (if f.glob_pattern then 2 else 0)

-- Fails on a bit that no flag has.
unfoldable pub from_bits : ℕ → Option ClientFilterFlags
from_bits n =
    if ltb n 4
    then some (record { case_insensitive = eqb (n % 2) 1; glob_pattern = eqb (n / 2 % 2) 1 })
    else none

pub from_bits-bits : (f : ClientFilterFlags) → from_bits (bits f) ≡ some f
unfolding from_bits bits
from_bits-bits f = ground arith
