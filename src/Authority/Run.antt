-- ===== src/Authority/Run.antt =====
-- The authority as a whole: the worker's rounds, the fetches that they started and the connections
-- that peers open, one after the other in any order. Each of them holds the lock of the state.
pub mod Frames
pub mod Invariants
pub mod Progress
use opt.Base.{ℕ, ◌+◌, ◌<◌, ◌≡◌, [], Bytes}
use opt.Base.Int.{pos_part}
use opt.Base.Outcome.{ok}
use opt.Authority.Types.{Katzenpost}
use opt.Authority.State.{State, bootstrap}
use opt.Authority.Consensus.{Now}
use opt.Authority.Chain.{ChainBridge}
use opt.Authority.Fsm.{Tick, fsm, finish_fetch}
use opt.Authority.Fsm.Rounds.{Time, after, clock_at, Timely}
use opt.Authority.Wire.{PeerCredentials, Command, Response, on_conn}

-- What newState makes of the maps that the uploads fill, and its first phase.
pub record Fresh (s : State) : Type 0 where
  pub first_phase : s.phase ≡ bootstrap
  pub no_votes : s.votes ≡ []
  pub no_commits : s.commits ≡ []
  pub no_reveals : s.reveals ≡ []
  pub no_certificates : s.certificates ≡ []

module _ {W : Type 0} {R : Type 0} (k : Katzenpost) (b : ChainBridge W R) (period : ℕ) where
  -- The states and worlds that a run can come to, with the time of the next round. A fetch may end
  -- at any time, also one that no round has started.
  pub data Reached : Time → State → W → Type 0 where
    started : (t : Time) (s : State) (w : W) → Fresh s → t.elapsed < period → Reached t s w
    round :
        (t : Time) (d j p : ℕ) (s : State) (w : W) (tick : Tick W)
        → Reached t s w
        → Timely k b period t d j
        → fsm k b period (clock_at period t d j p) s w ≡ ok tick
        → Reached (after period t (d + pos_part tick.sleep)) tick.state tick.world
    fetched :
        (t : Time) (s : State) (w : W) (epoch : ℕ)
        → Reached t s w
        → Reached t (finish_fetch k b period epoch s w).0 (finish_fetch k b period epoch s w).1
    served :
        (t : Time) (s s' : State) (w : W) (now : Now) (creds : PeerCredentials) (cmd : Command)
        (resp : Response)
        → Reached t s w
        → on_conn k period now creds cmd s ≡ ok (s', resp)
        → Reached t s' w
