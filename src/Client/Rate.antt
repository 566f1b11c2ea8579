-- ===== src/Client/Rate.antt =====
-- src/client_reqs.c: the limit on requests per second in send_master, and the request that it writes.
use Prim.Native.Nat.{min}
use netcosm.Base.{
  ℕ, zero, suc, ◌+◌, ◌-◌, ◌≡◌, ◌≢◌, refl, Bool, true, false, not, ◌∷◌, ◌++◌, length, ltb, leb, ◌==◌,
  if◌then◌else◌, arith,
}
use netcosm.Base.Run.{Run, ok, assert, ◌>>◌}
use netcosm.Stream.{le_bytes}
use netcosm.Text.{Bytes}
use netcosm.Wire.{msg_max}

-- `ts` and `reqs_since_ts`; the latter is an `int`, which is taken not to overflow.
pub record Rate : Type 0 where
  pub ts : ℕ
  pub reqs_since_ts : ℕ

unfoldable pub refresh : ℕ → Rate → Rate
refresh t r = if r.ts == t then r else record { ts = t; reqs_since_ts = 0 }

-- The test at the beginning of send_master, for an admin or not, at the time `t`: whether the
-- request goes on, and the counters after it.
unfoldable pub admit : Bool → ℕ → Rate → Bool × Rate
unfolding refresh
admit true t r = (true, r)
admit false t r =
    let r' = refresh t r in
    (not (ltb 10 r'.reqs_since_ts), record r' { reqs_since_ts = r'.reqs_since_ts + 1 })

-- The bytes that send_master writes: PID, code, data. A NULL `data` is the empty one.
unfoldable pub request_bytes : ℕ → ℕ → Bytes → Run Bytes
unfolding le_bytes
request_bytes pid cmd text =
    assert (leb (1 + 4 + length text) msg_max) >> ok (le_bytes 4 pid ++ cmd ∷ text)

-- How many of `n` requests at the time `t` go on.
unfoldable pub admitted : ℕ → ℕ → Rate → ℕ
unfolding admit
admitted zero t r = 0
admitted (suc n) t r =
    let (goes_on, r') = admit false t r in (if goes_on then 1 else 0) + admitted n t r'

admitted_same : (n t : ℕ) (r : Rate) → r.ts ≡ t → admitted n t r ≡ min n (11 - r.reqs_since_ts)
unfolding admitted admit refresh
admitted_same zero t r h = omega arith
admitted_same (suc n) t r h = ground (
  arith,
  h,
  admitted_same n t (record { ts = t; reqs_since_ts = r.reqs_since_ts + 1 }) refl,
  admitted_same n t (record r { reqs_since_ts = r.reqs_since_ts + 1 }) h,
)

-- Of `n` requests of a child that is not an admin in a second that it has not asked in, the first
-- eleven go on, and no other.
pub admitted-min : (n t : ℕ) (r : Rate) → r.ts ≢ t → admitted n t r ≡ min n 11
unfolding admitted admit refresh
admitted-min zero t r h = omega arith
admitted-min (suc n) t r h =
    ground (arith, h, admitted_same n t (record { ts = t; reqs_since_ts = 1 }) refl)
