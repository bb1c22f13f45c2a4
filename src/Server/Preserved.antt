-- ===== src/Server/Preserved.antt =====
-- What the handlers of src/lib.rs keep of the tables, they keep for the life of the whole application.
use realm_guard_server.Prelude.{◌≡◌, sym, subst}
use realm_guard_server.Platform.{Platform}
use realm_guard_server.Database.{Database}
use realm_guard_server.World.{World}
use realm_guard_server.Server.App.{Framework}
use realm_guard_server.Server.Frame.{IsFrame, respond-frame}
use realm_guard_server.Server.Writers.{Writers, from_request_parts-IsFramed, handled}
use realm_guard_server.Server.Sessions.{Life, born, after, asked, passed}

module _ {p : Platform} (P : Database → Type 0) where
  -- The tables stay as they should be.
  abbrev pub Keeps : World p → World p → Type 0
  Keeps w v = P w.db → P v.db

  Keeps-IsFrame : IsFrame Keeps
  Keeps-IsFrame = record { same = λ w h. h; joined = λ u v w h k i. k (h i) }

  pub unmoved : (w v : World p) → v.db ≡ w.db → Keeps w v
  unmoved w v e h = subst P (sym e) h

  pub Life-Keeps :
      Writers Keeps (λ _. Unit {0}) → (fw : Framework) {w v : World p} → Life fw w v → Keeps w v
  Life-Keeps writers fw born = λ h. h
  Life-Keeps writers fw {w} (after {u = u} l (asked req)) = λ h.
      respond-frame Keeps Keeps-IsFrame (λ _. Unit {0}) fw
        (from_request_parts-IsFramed Keeps (λ _. Unit {0}) writers)
        (handled Keeps (λ _. Unit {0}) writers fw) (λ y m i. i) req u (λ account named. tt)
        (Life-Keeps writers fw l h)
  Life-Keeps writers fw (after l (passed t os)) = Life-Keeps writers fw l
