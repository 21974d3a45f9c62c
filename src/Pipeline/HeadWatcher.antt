-- ===== src/Pipeline/HeadWatcher.antt =====
-- Polling for the head of the chain: src/pipeline/head_watcher.rs. Each round of the loop may find
-- another state of the node and of the token for the shutdown; a round that sleeps ends with the
-- pause or with the shutdown.
use chain_lens.Base.{
  List, [], ◌∷◌, ◌++◌, Bool, false, if◌then◌else◌, ◌≡◌, refl, All, Outcome, ok, err, panic, ◌>>=◌,
}
use chain_lens.Rpc.{RpcError, EthClient, latest, safe, finalized}
use chain_lens.Pipeline.Scheduler.{ChainHead}

unfoldable pub fetch_head : EthClient → Outcome RpcError ChainHead
fetch_head client = do
  newest ← client.get_block_number latest
  safe_block ← client.get_block_number safe
  final ← client.get_block_number finalized
  ok (record { latest = newest; safe = safe_block; finalized = final })

-- One round: `cancelled` at its begin, and whether the shutdown interrupts its pause.
pub record Poll : Type 0 where
  pub client : EthClient
  pub cancelled : Bool
  pub interrupted : Bool

-- `polling` when the loop goes on after the rounds.
pub data Watched : Type 0 where
  found : ChainHead → Watched
  shut_down died polling : Watched

unfoldable pub watch : List Poll → Watched
unfolding fetch_head
watch [] = polling
watch (poll ∷ polls) =
    let rest = watch polls in
    if poll.cancelled then shut_down else elim (fetch_head poll.client) [
      | ok head ↦ found head
      | err e ↦ if poll.interrupted then shut_down else rest
      | panic ↦ died
    ]

-- A round that ends with a pause.
abbrev pub Fails : Poll → Type 0
Fails poll =
    (poll.cancelled ≡ false)
    × (poll.interrupted ≡ false)
    × ((e : RpcError) × (fetch_head poll.client ≡ err e))

-- Rounds in which the node does not answer change nothing: what is watched is what the rounds after
-- them find.
pub watch_after_failures :
    (failures polls : List Poll) → All Fails failures → watch (failures ++ polls) ≡ watch polls
unfolding watch
watch_after_failures [] polls all_fail = refl
watch_after_failures (poll ∷ failures) polls ((runs, sleeps, (e, fails)), others) =
    rw (watch, runs, fails, sleeps) (watch_after_failures failures polls others)
