-- ===== src/Server/Tables.antt =====
-- Theorems on the tables in the life of the whole application of src/lib.rs.
use realm_guard_server.Platform.{Platform}
use realm_guard_server.World.{World}
use realm_guard_server.Sync.Invariant.{IsSound}
use realm_guard_server.Server.App.{Framework}
use realm_guard_server.Server.Schema.{IsIntact}
use realm_guard_server.Server.Distinct.{IsKeyed, IsKeyed-Writers}
use realm_guard_server.Server.Checked.{IsChecked, IsChecked-Writers}
use realm_guard_server.Server.Intact.{KeepsIntact-Writers}
use realm_guard_server.Server.Preserved.{Life-Keeps}
use realm_guard_server.Server.Sessions.{Life, born, after, asked, passed}
use realm_guard_server.Server.Ledgers.{respond-Move}

Life-IsSound :
    {p : Platform} (fw : Framework) {w v : World p} → Life fw w v → IsSound w.db → IsSound v.db
Life-IsSound fw born h = h
Life-IsSound fw (after {u = u} l (asked req)) h = (respond-Move fw req u 0 (Life-IsSound fw l h)).0
Life-IsSound fw (after l (passed t os)) h = Life-IsSound fw l h

-- Everything in the tables has passed the checks of the handlers, and keeps the constraints of the
-- schema. Let it be so at some moment that every password file is one that OPAQUE made of an upload,
-- every device key has 32 bytes, every device name is trimmed, not empty and of at most 100 characters,
-- every delta has between 1 byte and 1 MiB and every snapshot between 1 byte and 8 MiB; that all rows
-- differ in their primary keys, accounts in their usernames and devices in their keys, and every row
-- refers to an account that exists; and that the log is well-formed. Then it is so after any requests
-- by anyone to any path, however the services answered them, and after any time.
pub intact_for_good :
    {p : Platform} (fw : Framework) (w v : World p)
    → IsChecked p w.db
    → IsKeyed w.db
    → IsIntact w.db
    → IsSound w.db
    → Life fw w v
    → IsChecked p v.db × IsKeyed v.db × IsIntact v.db × IsSound v.db
intact_for_good {p} fw w v checked keyed intact sound life = (
  Life-Keeps (IsChecked p) IsChecked-Writers fw life checked,
  Life-Keeps IsKeyed IsKeyed-Writers fw life keyed,
  Life-Keeps IsIntact KeepsIntact-Writers fw life intact,
  Life-IsSound fw life sound,
)
