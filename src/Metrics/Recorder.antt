-- ===== src/Metrics/Recorder.antt =====
-- The recorder of src/observability.rs: its buckets, and the handle that is installed at the first
-- demand. The exporter's library is an argument.
use realm_guard_server.Prelude.{
  ℕ, suc, zero, ◌≡◌, refl, String, Option, none, some, List, [], ◌∷◌, arith,
}

-- `HTTP_LATENCY_BUCKETS`, in milliseconds
abbrev pub http_latency_buckets : List ℕ
http_latency_buckets = 5 ∷ 10 ∷ 25 ∷ 50 ∷ 100 ∷ 250 ∷ 500 ∷ 1000 ∷ 2500 ∷ 5000 ∷ 10000 ∷ []

-- `metrics_exporter_prometheus`, with what a process has installed.
pub record Exporter (Builder Handle Global : Type 0) : Type 0 where
  pub new : Builder
  -- an error of no buckets
  pub set_buckets_for_metric : String → List ℕ → Builder → Option Builder
  -- an error where a recorder has been installed
  pub install_recorder : Builder → Global → Option Handle × Global

-- The static `OnceLock`, and the process around it.
pub record Cell (Handle Global : Type 0) : Type 0 where
  pub handle : Option Handle
  pub global : Global

module _ {Builder Handle Global : Type 0} (exporter : Exporter Builder Handle Global) where
  -- none where `expect` panics
  unfoldable pub prometheus_builder : Option Builder
  prometheus_builder =
      exporter.set_buckets_for_metric "http_request_duration_seconds" http_latency_buckets
        exporter.new

  abbrev keep : Option Handle × Global → Option Handle × Cell Handle Global
  keep (none, global) = (none, record { handle = none; global = global })
  keep (some handle, global) = (some handle, record { handle = some handle; global = global })

  abbrev install : Global → Option Builder → Option Handle × Cell Handle Global
  install global none = (none, record { handle = none; global = global })
  install global (some builder) = keep (exporter.install_recorder builder global)

  -- none where the process panics: a panic leaves the cell empty
  unfoldable pub metrics_handle : Cell Handle Global → Option Handle × Cell Handle Global
  unfolding prometheus_builder
  metrics_handle cell = elim cell.handle [
    | some handle ↦ (some handle, cell)
    | none ↦ install cell.global prometheus_builder
  ]

  -- The state after `n` calls.
  abbrev pub calls : ℕ → Cell Handle Global → Cell Handle Global
  calls zero cell = cell
  calls (suc n) cell = calls n (metrics_handle cell).1

  handle-kept :
      (handle : Handle) (n : ℕ) (cell : Cell Handle Global)
      → cell.handle ≡ some handle
      → (calls n cell ≡ cell) × ((metrics_handle (calls n cell)).0 ≡ some handle)
  unfolding metrics_handle
  handle-kept handle zero cell h = (refl, ground arith)
  handle-kept handle (suc n) cell h =
      let same : (metrics_handle cell).1 ≡ cell = ground arith in
      rw same (handle-kept handle n cell h)

  -- Once a handle was given, every later call gives the same, and nothing is installed again.
  pub metrics_handle_once :
      (cell : Cell Handle Global) (handle : Handle) (n : ℕ)
      → (metrics_handle cell).0 ≡ some handle
      → ((metrics_handle (calls (suc n) cell)).0 ≡ some handle)
        × ((calls (suc n) cell).global ≡ (metrics_handle cell).1.global)
  unfolding metrics_handle
  metrics_handle_once cell handle n h =
      let held : (metrics_handle cell).1.handle ≡ some handle = ground arith in
      let (same, again) = handle-kept handle n (metrics_handle cell).1 held in
      (again, ground (arith, same))
