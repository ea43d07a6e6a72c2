-- ===== src/Worker/Client.antt =====
-- `ControlClient`: what a response means, the retries, and the delivery of the final report.
use Prim.Native.Nat.{min}
use regulator.Prelude.{
  ℕ, zero, suc, ◌+◌, ◌*◌, ◌/◌, ◌^◌, Bool, true, false, not, ◌&&◌, Option, none, some, ◌==◌, leb,
  if◌then◌else◌,
}
use regulator.Worker.{Answer, go_on, Posted, answered, fenced, failed}

pub data Path_ : Type 0 where
  claim_path ready_path heartbeat_path final_path : Path_

-- A response's content: none, text that is not JSON, or a document.
pub data Body : Type 0 where
  no_content not_json : Body
  document : Answer → Body

-- `says_fenced` is whether the detail of a 409 speaks of a superseded lease or of a holder.
pub record Response : Type 0 where
  pub status : ℕ
  pub says_fenced : Bool
  pub body : Body

abbrev pub is_claim : Path_ → Bool
is_claim claim_path = true
is_claim _ = false

abbrev pub blank : Answer
blank = record {
  command = go_on;
  t0 = none;
  paused = none;
  load = none;
  epoch = none;
  epoch_started_at = none;
}

abbrev pub read_body : Body → Posted
read_body no_content = answered blank
read_body not_json = failed
read_body (document a) = answered a

-- `_post`; an exception of httpx, here none, is a failure too.
unfoldable pub post : Path_ → Option Response → Posted
post path none = failed
post path (some r) =
    if r.status == 409 && not (is_claim path) && r.says_fenced
    then fenced
    else if leb 400 r.status
    then failed
    else read_body r.body

abbrev pub backoff_base : ℕ
backoff_base = 500

abbrev pub backoff_cap : ℕ
backoff_cap = 20_000

-- min(BACKOFF_CAP_S, BACKOFF_BASE_S * 2 ** attempt) times a random factor, given in thousandths.
unfoldable pub delay : ℕ → ℕ → ℕ
delay attempt jitter = min backoff_cap (backoff_base * 2 ^ attempt) * jitter / 1000

-- One attempt: what it came to, how long it took, and the random factor of the delay after it.
pub record Attempt : Type 0 where
  pub posted : Posted
  pub took : ℕ
  pub jitter : ℕ

pub data Ended : Type 0 where
  replied : Answer → Ended
  was_fenced gave_up : Ended

-- The loop of `_post_with_backoff` from the attempt `k` on, `elapsed` after its start: at most `fuel`
-- attempts, and none where they do not end it. `attempts` is what the network does.
unfoldable pub backoff_from : ℕ → ℕ → (ℕ → Attempt) → ℕ → ℕ → Option Ended
unfolding delay
backoff_from zero deadman attempts k elapsed = none
backoff_from (suc fuel) deadman attempts k elapsed = elim (attempts k).posted [
  | answered a ↦ some (replied a)
  | fenced ↦ some was_fenced
  | failed ↦ elim (leb deadman (elapsed + (attempts k).took)) [
    | true ↦ some gave_up
    | false ↦
        backoff_from fuel deadman attempts (suc k)
          (elapsed + (attempts k).took + delay k (attempts k).jitter)
  ]
]

-- The least delay is a quarter of a second, so the dead-man ends the loop within so many attempts.
abbrev pub enough : ℕ → ℕ
enough deadman = deadman / 250 + 2

unfoldable pub post_with_backoff : ℕ → (ℕ → Attempt) → Option Ended
unfolding backoff_from
post_with_backoff deadman attempts = backoff_from (enough deadman) deadman attempts 0 0

-- `final`: whether the report was delivered, in at most `attempts` posts from the `k`-th on.
unfoldable pub final_from : ℕ → (ℕ → Posted) → ℕ → Bool
final_from zero posts k = false
final_from (suc attempts) posts k = elim (posts k) [
  | answered a ↦ true
  | fenced ↦ false
  | failed ↦ final_from attempts posts (suc k)
]

unfoldable pub final : (ℕ → Posted) → Bool
unfolding final_from
final posts = final_from 4 posts 0
