-- ===== src/SchemaGraph/CapturePlan/Interval.antt =====
-- `capture_interval` of capture_plan.py.
use m365_xdr_cli.Base.{ℕ, ◌+◌, ◌-◌, ◌%◌, ◌≤◌, ◌<◌, ◌≡◌, arith}
use m365_xdr_cli.Base.Attempt.{returned}
use m365_xdr_cli.SchemaGraph.CapturePlan.{capture_interval}

-- A full minute that is not after the instant and less than a minute before it, and the horizon before.
pub record IsInterval (now horizon start end : ℕ) : Type 0 where
  pub floored : end % 60_000_000 ≡ 0
  pub past : end ≤ now
  pub recent : now < end + 60_000_000
  pub width : start + horizon ≡ end
  pub positive : 1 ≤ horizon

-- The interval that is fixed ends at a full minute, not after the instant and less than a minute before
-- it, and is as long as the horizon, which is positive.
pub capture_interval-IsInterval :
    (now horizon start end : ℕ)
    → capture_interval now horizon ≡ returned (start, end)
    → IsInterval now horizon start end
unfolding capture_interval
capture_interval-IsInterval now horizon start end h =
    let (p, q, r, s) = found in
    record {
      floored = omega (arith, p);
      past = omega (arith, p);
      recent = omega (arith, p);
      width = omega (arith, q, r, s);
      positive = omega (arith, q);
    }
  where
    found :
        (now - now % 60_000_000 ≡ end)
        × (1 ≤ horizon)
        × (horizon ≤ now - now % 60_000_000)
        × (start ≡ (now - now % 60_000_000) - horizon)
    found = ground arith
