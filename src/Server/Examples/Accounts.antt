-- ===== src/Server/Examples/Accounts.antt =====
-- A registration, a request and a day after it, on the sample platform.
use realm_guard_server.Prelude.{◌≡◌, ◌≢◌, ◌+◌, refl, some, []}
use realm_guard_server.Platform.{Bytes}
use realm_guard_server.Platform.Sample.{sample}
use realm_guard_server.Result.{ok, created}
use realm_guard_server.World.{World}
use realm_guard_server.World.Sample.{serving}
use realm_guard_server.Auth.Accounts.{account_of, insert_row}
use realm_guard_server.Auth.Api.{RegisterFinishReq, decode, register_finish}
use realm_guard_server.Server.App.{respond}
use realm_guard_server.Server.Sessions.{asked, passed, born, after}
use realm_guard_server.Server.Accounts.{registered_for_good}
use realm_guard_server.Server.Examples.{framework, calm, pushing}

abbrev later : World sample
later = record calm { draws = 5 }

abbrev carols : RegisterFinishReq
carols = record { username = "carol"; upload = "aab" }

abbrev thief : RegisterFinishReq
thief = record { username = "carol"; upload = "ab" }

carol_test : (register_finish carols later).0 ≡ ok created
unfolding sample serving insert_row decode register_finish
carol_test = refl

abbrev pushed : World sample
pushed = (respond framework pushing (register_finish carols later).1).1

-- A push is asked for, and a day passes.
abbrev next_day : World sample
next_day = record pushed { now = pushed.now + 86400; schedule = [] }

registered_for_good_example :
    (upload : Bytes) × (file : Bytes) × (decode sample "aab" ≡ ok upload)
    × (sample.server_register_finish upload ≡ some file)
    × (account_of "carol" next_day.db.accounts
        ≡ some
            (record { id = sample.new_v4 later.draws; username = "carol"; password_file = file }))
    × ((register_finish thief next_day).0 ≢ ok created)
    × ((register_finish thief next_day).1.db.accounts ≡ next_day.db.accounts)
registered_for_good_example =
    registered_for_good framework carols thief later next_day carol_test
      (after (after born (asked pushing)) (passed 86400 [])) refl
