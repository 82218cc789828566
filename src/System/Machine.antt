-- ===== src/System/Machine.antt =====
-- `Trader` (lib/core/trader.h) at work: each thread acts in turn, and what it sends reaches the event engine.
-- One action of a thread is one step.
use calm_trading_system.Base.{
  ℕ, Bool, false, List, [], ◌∷◌, length, drop, none, some, Result, ok, err, runtime_error, ◌>>=◌,
  if◌then◌else◌,
}
use calm_trading_system.Double.{Double}
use calm_trading_system.Objects.{Event, timer}
use calm_trading_system.Gateway.{Decimals, Api}
use calm_trading_system.Gateway
use calm_trading_system.Gateway.Machine
use calm_trading_system.Gateway.Machine.{Input}
use calm_trading_system.Gateway.Session
use calm_trading_system.Events
use calm_trading_system.Events.{EventEngine, send, run_round}
use calm_trading_system.Portfolio
use calm_trading_system.Risk.{RiskManager}
use calm_trading_system.Trading.{TradingEngine}
use calm_trading_system.Algo
use calm_trading_system.Algo.{AlgoConfig, PosMsg, mq_message_cb}
use calm_trading_system.Algo.Actions
use calm_trading_system.Recorder
use calm_trading_system.Trader.{send_timer}
use calm_trading_system.System.{World}
use calm_trading_system.System.Wiring.{construct}

-- The `…_event` are the variables `event` of the threads' loops, and `target` that of `send_timer`.
pub record System (D : Type 0) : Type 0 where
  pub api : Api D
  pub engine : EventEngine D (World D)
  pub world : World D
  pub engine_event : Event D
  pub portfolio_event : Event D
  pub algo_event : Event D
  pub recorder_event : Event D
  pub target : ℕ

-- The broker's thread or a request, the main loop at a time, a message of the strategy, or a round of a loop.
-- Where the recorder acts, whether its database takes a document, and where the algo engine does, whether Redis replies.
-- `listener_lost` is Redis failing the thread that waits for the strategy, in `connect` or `subscribe`.
pub data Action (D : Type 0) : Type 0 where
  broker : Input D → Action D
  clock : ℕ → Action D
  strategy : PosMsg D → Action D
  engine_turn portfolio_turn : Action D
  algo_turn : Bool → Action D
  listener_lost : Action D
  recorder_turn : Bool → Action D

module _ {D : Type 0} where
  unfoldable pub send_all : List (Event D) → EventEngine D (World D) → EventEngine D (World D)
  send_all [] s = s
  send_all (e ∷ es) s = send_all es (send e s)

  -- The gateway in a new state: what it has published since goes to the event engine.
  unfoldable pub with_api : Api D → System D → System D
  unfolding send_all
  with_api api x = record x {
    api = api;
    engine = send_all (drop (length x.api.published) api.published) x.engine;
  }

  abbrev pub trading_of : System D → TradingEngine D
  trading_of x = record {
    api = x.api;
    last_ticks = x.world.last_ticks;
    portfolio = x.world.portfolio;
    risk_manager = x.world.risk_manager;
  }

  unfoldable pub with_trading : TradingEngine D → System D → System D
  unfolding with_api
  with_trading e x = with_api e.api (record x {
    world = record x.world {
      last_ticks = e.last_ticks;
      portfolio = e.portfolio;
      risk_manager = e.risk_manager;
    };
  })

  unfoldable pub engine_round : System D → System D
  engine_round x =
      let (event, engine, world) = run_round x.engine_event x.engine x.world in
      record x { engine_event = event; engine = engine; world = world }

  unfoldable pub main_round : ℕ → System D → System D
  main_round now x =
      let (target, sent) = send_timer now x.target in
      record x {
        target = target;
        engine = elim sent [ none ↦ x.engine | some t ↦ send (timer t) x.engine ];
      }

  unfoldable pub recorder_round : Bool → System D → Result (System D)
  recorder_round inserts x =
      if x.world.data_recorder.running
      then (do
        (event, r) ← Recorder.action_round inserts x.recorder_event x.world.data_recorder
        ok (record x { recorder_event = event; world = record x.world { data_recorder = r } }))
      else ok x

  abbrev pub message : PosMsg D → System D → System D
  message m x = record x {
    world = record x.world { algo_engine = mq_message_cb m x.world.algo_engine };
  }

module _ {D : Type 0} ⦃d : Double D⦄ where
  unfoldable pub portfolio_round : System D → System D
  unfolding send_all
  portfolio_round x =
      if x.world.portfolio.running
      then (let (event, p, sent) =
            Portfolio.action_round x.world.last_ticks x.portfolio_event x.world.portfolio in
          record x {
            portfolio_event = event;
            world = record x.world { portfolio = p };
            engine = send_all sent x.engine;
          })
      else x

  module _ (q : Decimals D) where
    unfoldable pub algo_round : Bool → System D → Result (System D)
    unfolding with_trading
    algo_round answers x =
        if x.world.algo_engine.running
        then (do
          (event, s, e) ←
              Actions.action_round q answers x.algo_event x.world.algo_engine (trading_of x)
          ok (
              with_trading e
                (record x { algo_event = event; world = record x.world { algo_engine = s } })))
        else ok x

    -- An error is an exception that no one catches, which ends the program, or worse.
    unfoldable pub step : Action D → System D → Result (System D)
    unfolding engine_round main_round recorder_round portfolio_round algo_round
    step (broker i) x = do api ← Machine.attempt q i x.api; ok (with_api api x)
    step (clock now) x = ok (main_round now x)
    step (strategy m) x = ok (message m x)
    step engine_turn x = ok (engine_round x)
    step portfolio_turn x = ok (portfolio_round x)
    step (algo_turn answers) x = algo_round answers x
    step listener_lost x = err runtime_error
    step (recorder_turn inserts) x = recorder_round inserts x

    unfoldable pub run : List (Action D) → System D → Result (System D)
    unfolding step
    run [] x = ok x
    run (a ∷ as_) x = do y ← step a x; run as_ y

  -- After the constructors: the algo engine has entered its symbols, and `limits` are those of the
  -- risk manager's file. `event` is what the variables of the threads start with.
  unfoldable pub constructed : AlgoConfig → RiskManager D → Event D → ℕ → System D
  unfolding construct
  constructed cfg limits event target = record {
    api = Gateway.init;
    engine = construct;
    world = record {
      last_ticks = [];
      portfolio = Algo.register_symbols cfg Portfolio.init;
      risk_manager = limits;
      algo_engine = Algo.init cfg;
      data_recorder = record { running = false; q = []; ticks = []; orders = [] };
    };
    engine_event = event;
    portfolio_event = event;
    algo_event = event;
    recorder_event = event;
    target = target;
  }

  -- `run` up to its loop: event engine, data recorder, gateway, portfolio, algos.
  unfoldable pub start : Bool → System D → Result (System D)
  unfolding constructed
  start connected x = do
    let y : System D = record x {
      engine = Events.start x.engine;
      world = record x.world {
        data_recorder = Recorder.start x.world.data_recorder;
        portfolio = Portfolio.start x.world.portfolio;
      };
      api = Session.start connected x.api;
    }
    (s, e) ← Algo.start y.world.algo_engine (trading_of y)
    ok (with_trading e (record y { world = record y.world { algo_engine = s } }))
