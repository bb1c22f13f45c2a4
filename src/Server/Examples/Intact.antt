-- ===== src/Server/Examples/Intact.antt =====
-- The tables through a request and a day, on the sample platform.
use realm_guard_server.Prelude.{◌+◌, refl, none, [], ◌∷◌, arith}
use realm_guard_server.Prelude.Text.{trim}
use realm_guard_server.Platform.Sample.{sample}
use realm_guard_server.Database.{DeviceRow}
use realm_guard_server.World.{World}
use realm_guard_server.World.Sample.{serving, tables}
use realm_guard_server.Auth.Sessions.{create_session}
use realm_guard_server.Sync.Invariant.{IsSound}
use realm_guard_server.Sync.Sample.{tables-IsSound}
use realm_guard_server.Server.App.{respond}
use realm_guard_server.Server.Schema.{IsIntact}
use realm_guard_server.Server.Distinct.{IsKeyed}
use realm_guard_server.Server.Checked.{IsChecked}
use realm_guard_server.Server.Sessions.{asked, passed, born, after}
use realm_guard_server.Server.Tables.{intact_for_good}
use realm_guard_server.Server.Examples.{framework, pushing}

abbrev phone : DeviceRow
phone = record {
  id = 3;
  account_id = 1;
  device_pk =
      0 ∷ 0 ∷ 0 ∷ 0 ∷ 0 ∷ 0 ∷ 0 ∷ 0 ∷ 0 ∷ 0 ∷ 0 ∷ 0 ∷ 0 ∷ 0 ∷ 0 ∷ 0 ∷ 0 ∷ 0 ∷ 0 ∷ 0 ∷ 0 ∷ 0 ∷ 0 ∷ 0
      ∷ 0 ∷ 0 ∷ 0 ∷ 0 ∷ 0 ∷ 0 ∷ 0 ∷ 0 ∷ [];
  name = "phone";
  created_at = 10;
  revoked_at = none;
}

-- The first account has a device and a session.
abbrev entered : World sample
entered = (create_session 1 (serving [] (record tables { devices = phone ∷ [] }))).1

entered-IsChecked : IsChecked sample entered.db
unfolding create_session serving sample trim
entered-IsChecked = record {
  files = ((5 ∷ [], refl), ((6 ∷ [], refl), tt));
  keys = (refl, tt);
  names = (record { trimmed = refl; full = refl; short = omega arith }, tt);
  sizes = record { deltas = ground arith; snapshots = tt };
}

entered-IsKeyed : IsKeyed entered.db
unfolding create_session serving sample
entered-IsKeyed = record {
  accounts = ((refl, tt), (tt, tt));
  vault_keys = tt;
  devices = (tt, tt);
  snapshots = tt;
}

entered-IsIntact : IsIntact entered.db
unfolding create_session serving sample
entered-IsIntact = record {
  usernames = (refl, (refl, tt));
  keys = (refl, tt);
  devices = (refl, tt);
  vault_keys = tt;
  deltas = (refl, (refl, (refl, (refl, tt))));
  snapshots = tt;
}

entered-IsSound : IsSound entered.db
unfolding create_session serving sample
entered-IsSound = record {
  ascending = tables-IsSound.ascending;
  drawn = tables-IsSound.drawn;
  started = tables-IsSound.started;
  bounded = tables-IsSound.bounded;
  compacted = tables-IsSound.compacted;
}

-- The account pushes a delta, and a day passes.
abbrev next_day : World sample
next_day = record (respond framework pushing entered).1 {
  now = (respond framework pushing entered).1.now + 86400;
  schedule = [];
}

intact_for_good_example :
    IsChecked sample next_day.db × IsKeyed next_day.db × IsIntact next_day.db × IsSound next_day.db
intact_for_good_example =
    intact_for_good framework entered next_day entered-IsChecked entered-IsKeyed entered-IsIntact
      entered-IsSound (after (after born (asked pushing)) (passed 86400 []))
