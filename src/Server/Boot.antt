-- ===== src/Server/Boot.antt =====
-- Theorems on the start of the process, src/main.rs.
use realm_guard_server.Prelude.{
  ◌≡◌, ◌↔◌, ◌⊎◌, ℕ, ltb, not, Option, none, inl, inr, String, Bool, Bool-cases, true, false, some,
  List, [], ◌∷◌, arith, length, ◌<◌,
}
use realm_guard_server.Prelude.Text.{trim}
use realm_guard_server.Result.{Result, ok, err, Result-cases}
use realm_guard_server.Server.Config.{Config, from_env, unwrap_or_else}
use realm_guard_server.Server.Startup.{IsSource, from_env-secret}
use realm_guard_server.Server.Process
use realm_guard_server.Server.Process.{Machine, Act, Signals, Wait, shutdown_signal, parsed, main}

-- Whether the process ever answers requests.
abbrev pub serves : {Event SocketAddr : Type 0} → List (Act Event SocketAddr) → Bool
serves [] = false
serves (Process.serve addr setup until ∷ acts) = true
serves (_ ∷ acts) = serves acts

-- A process that answers requests was prepared: unless it never serves, it has a complete configuration
-- with a secret that is not empty and is the decoded text of the first of its sources that is set,
-- and it set up the reports of errors with no personal data, which clears the request and the server
-- name of every event before it is sent, and the logs, applied the migrations of
-- the configured database with success, then listened at the configured address, and only then
-- served there with that secret until it was asked to stop; it did nothing else, and it ends well
-- exactly if the serving does.
pub served_prepared :
    {Event SocketAddr : Type 0} (machine : Machine Event SocketAddr)
    → (serves (main machine).1 ≡ false)
      ⊎ ((config : Config SocketAddr) × (text : String) × IsSource machine.host text
          × (machine.host.decode64 (trim text) ≡ some config.opaque_setup)
          × (0 < length config.opaque_setup)
          × (from_env machine.host ≡ ok config)
          × (machine.migrations_apply config.database_url ≡ true)
          × ((main machine).1
              ≡ Process.report_to
                  (parsed machine.valid_dsn (machine.host.var "SENTRY_DSN"))
                  false
                  (λ event. some (machine.clear_server_name (machine.clear_request event)))
                ∷ Process.log_with (
                    unwrap_or_else "info"
                      (parsed machine.valid_filter (machine.host.var "RUST_LOG")))
                ∷ Process.install_crypto
                ∷ Process.migrate config.database_url
                ∷ Process.listen config.addr
                ∷ Process.serve config.addr config.opaque_setup (shutdown_signal machine.signals)
                ∷ [])
          × (((main machine).0 ≡ ok tt) ↔ (machine.served_well ≡ true)))
unfolding main
served_prepared machine = elim (Result-cases (from_env machine.host)) [
  | inr (e, bad) ↦ inl (ground arith)
  | inl (config, good) ↦
      let (text, source, decoded, full) = from_env-secret machine.host config good in
      elim (Bool-cases (serves (main machine).1)) [
        | inr idle ↦ inl idle
        | inl up ↦ inr (
          config,
          text,
          source,
          decoded,
          full,
          good,
          ground arith,
          ground arith,
          (λ h. ground arith, λ h. ground arith),
        )
      ]
]

-- Whether a future has completed by a moment.
abbrev pub has_come : ℕ → Wait → Bool
has_come n none = false
has_come n (some t) = not (ltb n t)

-- Why a process is asked to stop by a moment: a signal has come, or its handler failed to install.
abbrev pub IsDue : ℕ → Result (Unit {0}) Wait → Type 0
IsDue n (ok t) = has_come n t ≡ true
IsDue n (err e) = Unit {0}

abbrev pub IsDueUnix : ℕ → Option (Result (Unit {0}) Wait) → Type 0
IsDueUnix n none = ⊥
IsDueUnix n (some r) = IsDue n r

first_of :
    (n : ℕ) (c : Result (Unit {0}) Wait) (t : Option (Result (Unit {0}) Wait))
    → (has_come n (shutdown_signal (record { ctrl_c = c; sigterm = t })) ≡ true)
      ↔ (IsDue n c ⊎ IsDueUnix n t)
unfolding shutdown_signal
first_of n (ok none) none = (λ h. inl h, λ h. elim h [ inl k ↦ k | inr k ↦ absurd k ])
first_of n (ok (some a)) none = (λ h. inl h, λ h. elim h [ inl k ↦ k | inr k ↦ absurd k ])
first_of n (err e) none = (λ h. inl tt, λ h. ground arith)
first_of n (err e) (some (err f)) = (λ h. inl tt, λ h. ground arith)
first_of n (err e) (some (ok none)) = (λ h. inl tt, λ h. ground arith)
first_of n (err e) (some (ok (some b))) = (λ h. inl tt, λ h. ground arith)
first_of n (ok none) (some (err e)) = (λ h. inr tt, λ h. ground arith)
first_of n (ok (some a)) (some (err e)) = (λ h. inr tt, λ h. ground arith)
first_of n (ok none) (some (ok b)) = (λ h. inr h, λ h. elim h [ inl k ↦ cc | inr k ↦ k ])
first_of n (ok (some a)) (some (ok none)) = (λ h. inl h, λ h. ground arith)
first_of n (ok (some a)) (some (ok (some b))) = (λ h. ground arith, λ h. ground arith)

-- A process is asked to stop by a moment exactly if SIGINT or, on Unix, SIGTERM has come by then, or
-- the handler of one of them could not be installed: a failed installation stops it at once.
pub stopped_iff :
    (signals : Signals) (n : ℕ)
    → (has_come n (shutdown_signal signals) ≡ true)
      ↔ (IsDue n signals.ctrl_c ⊎ IsDueUnix n signals.sigterm)
stopped_iff signals n = first_of n signals.ctrl_c signals.sigterm
