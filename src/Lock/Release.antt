-- ===== src/Lock/Release.antt =====
-- How a holder lets go: by `release`, or by a renewal that tells it to stop.
use agentic_kit.Base.{
  ℕ, ◌-◌, ◌*◌, ◌≤◌, ◌<◌, ◌≡◌, true, false, ◌&&◌, none, String, arith, str_eq, if◌then◌else◌,
  is_text, ◌⊎◌, ◌↔◌,
}
use agentic_kit.Kv.Port.{KvPort}
use agentic_kit.Lock.{Lease, Outcome, taken, failed, tick_start, tick_end, release, lease_ms}

-- Over a store that keeps the port's contract, releasing a lease frees the lock exactly while it still holds this holder's value, and changes no
-- other read of the store; so a holder whose lock another has taken over leaves it alone. Releasing
-- again does nothing, and no renewal starts after it.
pub release_once :
    (port : KvPort) (kv : port.Store) (l : Lease) (j : String) (now again later : ℕ)
    → now ≤ later
    → l.released ≡ false
    → let (kv', l') = release port kv l now in
      (port.look kv' j later ≡ (
        if is_text (port.look kv l.key now) l.value && str_eq l.key j
        then none
        else port.look kv j later))
      × (release port kv' l' again ≡ (kv', l'))
      × (tick_start l' ≡ (l', false))
unfolding release tick_start
release_once port kv l j now again later p o = (
  ground (arith, port.look-del_if_value kv l.key l.value j now later p),
  ground arith,
  ground arith,
)

-- The end of a tick gives a lease up exactly when another holder has the key, or when the tick
-- failed more than two thirds of a lease after the last renewal; then the timer stops, and no
-- renewal starts again.
pub tick_end-lost :
    (l : Lease) (o : Outcome) (seconds now : ℕ)
    → l.released ≡ false
    → l.lost_flag ≡ false
    → let l' = tick_end l o seconds now in
      ((l'.lost_flag ≡ true)
        ↔ ((o ≡ taken) ⊎ ((o ≡ failed) × (lease_ms seconds * 2 < 3 * (now - l.last_ok)))))
      × (l'.lost_flag ≡ true → (l'.timer ≡ false) × (tick_start l' ≡ (l', false)))
unfolding tick_end tick_start
tick_end-lost l Outcome.ok seconds now r f = ((ground arith, ground arith), ground arith)
tick_end-lost l Outcome.taken seconds now r f = ((ground arith, ground arith), ground arith)
tick_end-lost l Outcome.failed seconds now r f = ((ground arith, ground arith), ground arith)
