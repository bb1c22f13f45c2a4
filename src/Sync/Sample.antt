-- ===== src/Sync/Sample.antt =====
-- The log of the sample server, for the tests.
use realm_guard_server.Prelude.{arith}
use realm_guard_server.World.Sample.{tables}
use realm_guard_server.Sync.Invariant.{IsSound}

pub tables-IsSound : IsSound tables
tables-IsSound = record {
  ascending = omega arith;
  drawn = ground arith;
  started = omega arith;
  bounded = tt;
  compacted = tt;
}
