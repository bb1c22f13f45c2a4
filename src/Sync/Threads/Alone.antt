-- ===== src/Sync/Threads/Alone.antt =====
-- A request that runs with no other in between: the pieces of src/sync_api.rs put together again.
use realm_guard_server.Prelude.{ℕ, zero, suc, ◌+◌, ◌-◌, ◌≤◌, ◌≡◌, refl, ap, ◌∙◌, arith}
use realm_guard_server.Platform.{Platform, Uuid}
use realm_guard_server.World.{World}
use realm_guard_server.Sync.Api
use realm_guard_server.Sync.Service.{Request, handle}
use realm_guard_server.Sync.Threads.{
  Reply, pushed, pulled, published, fetched, Pc, arrived, answered, advance,
}

-- What the handler of the request answers.
abbrev pub reply : {p : Platform} → Uuid → Request → World p → Reply
reply account (Request.push body) w = pushed (Api.push account body w).0
reply account (Request.pull query) w = pulled (Api.pull account query w).0
reply account (Request.put_snapshot body) w = published (Api.put_snapshot account body w).0
reply account Request.get_snapshot w = fetched (Api.get_snapshot account w).0

unfoldable pub pieces : {p : Platform} → ℕ → Pc → World p → Pc × World p
pieces zero pc w = (pc, w)
pieces (suc n) pc w = let (pc', w') = advance pc w in pieces n pc' w'

module _ {p : Platform} (account : Uuid) (w : World p) where
  alone-push :
      (body : Api.PushReq)
      → pieces 4 (arrived account (Request.push body)) w
        ≡ (answered (pushed (Api.push account body w).0), (Api.push account body w).1)
  unfolding pieces advance Api.push
  alone-push body = ground arith

  alone-pull :
      (query : Api.PullQuery)
      → pieces 4 (arrived account (Request.pull query)) w
        ≡ (answered (pulled (Api.pull account query w).0), (Api.pull account query w).1)
  unfolding pieces advance Api.pull
  alone-pull query = ground arith

  alone-put :
      (body : Api.SnapshotReq)
      → pieces 4 (arrived account (Request.put_snapshot body)) w ≡ (
        answered (published (Api.put_snapshot account body w).0),
        (Api.put_snapshot account body w).1,
      )
  unfolding pieces advance Api.put_snapshot
  alone-put body = ground arith

  alone-get :
      pieces 4 (arrived account Request.get_snapshot) w
      ≡ (answered (fetched (Api.get_snapshot account w).0), (Api.get_snapshot account w).1)
  unfolding pieces advance
  alone-get = refl

pieces-answered :
    {p : Platform} (n : ℕ) (r : Reply) (w : World p) → pieces n (answered r) w ≡ (answered r, w)
unfolding pieces advance
pieces-answered zero r w = refl
pieces-answered (suc n) r w = pieces-answered n r w

alone_four :
    {p : Platform} (account : Uuid) (r : Request) (w : World p)
    → pieces 4 (arrived account r) w ≡ (answered (reply account r w), handle account r w)
alone_four account (Request.push body) w = alone-push account w body
alone_four account (Request.pull query) w = alone-pull account w query
alone_four account (Request.put_snapshot body) w = alone-put account w body
alone_four account Request.get_snapshot w = alone-get account w

pieces-pieces :
    {p : Platform} (m n k : ℕ) (pc : Pc) (w : World p)
    → k ≡ m + n
    → pieces k pc w ≡ pieces n (pieces m pc w).0 (pieces m pc w).1
unfolding pieces
pieces-pieces zero n k pc w same = let e : k ≡ n = omega arith in ap (λ i. pieces i pc w) e
pieces-pieces (suc m) n zero pc w same = absurd (omega arith)
pieces-pieces (suc m) n (suc k) pc w same =
    pieces-pieces m n k (advance pc w).0 (advance pc w).1 (omega arith)

-- Whatever the services answer: a request that runs with no other in between has its answer after
-- four pieces, and that answer and the state that it leaves are those of the whole handler.
pub pieces-handle :
    {p : Platform} (account : Uuid) (r : Request) (w : World p) (n : ℕ)
    → 4 ≤ n
    → pieces n (arrived account r) w ≡ (answered (reply account r w), handle account r w)
pieces-handle account r w n enough =
    pieces-pieces 4 (n - 4) n (arrived account r) w (omega arith)
    ∙ ap (λ x. pieces (n - 4) x.0 x.1) (alone_four account r w)
    ∙ pieces-answered (n - 4) (reply account r w) (handle account r w)
