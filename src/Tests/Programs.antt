-- ===== src/Tests/Programs.antt =====
-- The program from its arguments to its end, at concrete inputs.
use php_fast_profile.Base.{◌*◌, ◌++◌, nat_eq, false, List, [], ◌∷◌, none, some, true, ◌≡◌, refl}
use php_fast_profile.Base.Act.{Outcome}
use php_fast_profile.Base.Text.{codes}
use php_fast_profile.Arguments.{Args, default_args}
use php_fast_profile.Zend.Walker.{new_walker}
use php_fast_profile.Output.Build.{AnySink, of_stacks, Outside, any_sink}
use php_fast_profile.Sampler.Run
use php_fast_profile.Sampler.Run.{Settings, Running}
use php_fast_profile.Cli.{interval, duration}
use php_fast_profile.Cli.Laws.{enough}
use php_fast_profile.Base.Map.{lookup, insert}
use php_fast_profile.Zend.Frame.{Frame}
use php_fast_profile.Sampler.Worker.{Worker, Turn}
use php_fast_profile.Sampler.Top
use php_fast_profile.Sampler.Top.{
  TopSetup, TopSystem, TopPhase, TopThread, Deed, TopStep, TopReach, start, later, start_top,
  start_threads, top_turn, after_turn, deed_of, check, try_recv, recv_deed,
}
use php_fast_profile.Sampler.Top.Laws.{IsTopTable, TopReach-IsTopTable}
use php_fast_profile.Tests.Memory.{target}
use php_fast_profile.Tests.Services.{service}
use php_fast_profile.Tests.Runs.{world, pace_0, worker}

abbrev args : Args
args = record default_args {
  pid = some 1;
  duration_secs = 2;
  max_depth = 5;
  php_version = some (codes "8.3.1");
}

abbrev outside : Outside
outside = record { device = λ n. none; order = λ m. m; service = service; end = 9 }

abbrev settings : Settings
settings = record {
  target = target;
  capture_request_info = args.request_info;
  max_depth = 5;
  drop_leaf = [];
}

abbrev ran : Outcome (Unit {0}) × Running AnySink
ran =
    Run.run (any_sink outside) settings world
      (enough (args.duration_secs * 1_000_000_000) (interval args)) (interval args) (duration args)
      pace_0
      (record { walker = new_walker; sink = of_stacks (record { out = []; operations = 0 }) })

abbrev setup : TopSetup
setup = record {
  max_depth = 5;
  drop_leaf = [];
  delay = λ pid n. 10;
  interval = 100;
  duration = some 1000;
  tick = 250;
}

-- A sampler attaches and sends, the timer runs out, and the table takes the sample.
abbrev top_0 : TopSystem
top_0 = start_top 250 500 (1 ∷ [])

abbrev top_1 : TopSystem
top_1 = record top_0 { threads = insert 1 (TopThread.running worker) top_0.threads }

abbrev turn : Turn (List Frame) × Worker
turn = top_turn setup 1 false true true worker

abbrev top_2 : TopSystem
top_2 = after_turn setup 1 turn top_1

abbrev top_3 : TopSystem
top_3 = check top_2

abbrev top_4 : TopSystem
top_4 = record top_3 { stop = true }

abbrev top_5 : TopSystem
top_5 = try_recv 600 top_4.channel top_4

abbrev deeds : List Deed
deeds =
    (((([] ++ (Deed.silent ∷ [])) ++ (deed_of turn.0 ∷ [])) ++ (Deed.silent ∷ []))
      ++ (Deed.silent ∷ []))
    ++ (recv_deed 600 top_4.channel ∷ [])

is_starting : lookup 1 top_0.threads ≡ some TopThread.starting
unfolding lookup insert start_top start_threads
is_starting = refl

is_running : lookup 1 top_1.threads ≡ some (TopThread.running worker)
unfolding lookup insert start_top start_threads
is_running = refl

is_checking : top_2.phase ≡ TopPhase.checking
unfolding after_turn start_top
is_checking = refl

is_receiving : top_4.phase ≡ TopPhase.receiving
unfolding after_turn start_top check
is_receiving = refl

attach_step : TopReach setup top_0 ([] ++ (Deed.silent ∷ [])) top_1
attach_step = later start (TopStep.attach 1 (some worker) is_starting)

work_step : TopReach setup top_0 (([] ++ (Deed.silent ∷ [])) ++ (deed_of turn.0 ∷ [])) top_2
unfolding start_top
work_step = later attach_step (TopStep.work 1 worker false true is_running Top.IsLoad.unset)

recv_step : TopReach setup top_0 deeds top_5
recv_step =
    later (later (later work_step (TopStep.check_stop is_checking)) (TopStep.timer 1000 refl))
      (TopStep.recv 600 is_receiving)

TopReach-IsTopTable_example : IsTopTable setup deeds top_5 (codes "f")
TopReach-IsTopTable_example =
    TopReach-IsTopTable setup 500 (1 ∷ []) deeds top_5 (codes "f") recv_step
