-- ===== src/World/Sample.antt =====
-- Servers on the sample platform, for the tests.
use realm_guard_server.Prelude.{none, List, [], ◌∷◌, true}
use realm_guard_server.Platform.Sample.{sample}
use realm_guard_server.Database.{Database, migrated}
use realm_guard_server.Metrics.{no_metrics}
use realm_guard_server.World.{World, Outcome}

-- A server with these answers to come and these tables, whose Redis is empty and connected.
unfoldable pub serving : List Outcome → Database → World sample
unfolding sample
serving schedule db = record {
  db = db;
  cache = λ k. none;
  connected = true;
  opaque_setup = 7 ∷ [];
  now = 1000;
  draws = 0;
  schedule = schedule;
  metrics = no_metrics;
  published = [];
}

-- Two accounts, three deltas of the first, one of the second, and no device.
abbrev pub tables : Database
tables = record migrated {
  accounts =
      record { id = 1; username = "ann"; password_file = 5 ∷ [] }
      ∷ record { id = 2; username = "bob"; password_file = 6 ∷ [] }
      ∷ [];
  deltas =
      record { seq = 1; account_id = 1; payload = 3 ∷ [] }
      ∷ record { seq = 2; account_id = 2; payload = 1 ∷ [] }
      ∷ record { seq = 4; account_id = 1; payload = 2 ∷ 0 ∷ [] }
      ∷ record { seq = 5; account_id = 1; payload = 4 ∷ [] }
      ∷ [];
  next_seq = 7;
}
