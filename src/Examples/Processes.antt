-- ===== src/Examples/Processes.antt =====
-- The processes: the theorems at concrete inputs.
use au10_service.Prelude.{◌≡◌, refl, none, some, [], ◌∷◌}
use au10_service.Process.{debug, ◌>>◌, posts_part, users_part, db_part, service_part}
use au10_service.Process.{
  AccessPointCalls, Flags, PublisherCalls, CallEnd, Deferred, returns, dies, close_part,
  run_deferred, defer_call, messages_stream_part, note, posts_stream_part, publisher_main,
  run_process,
}
use au10_service.Process.Farewell.{IsLeft, publisher_main-IsLeft}
use au10_service.Process.Unwinding.{closings}
use au10_service.Text.{codes}
use au10_service.Au10.Dialling.{dialled}
use au10_service.Examples.Fixtures.{quiet_log}
use au10_service.Node.{stopped}
use au10_service.Text.Errors.{text}

abbrev flags : Flags
flags = record {
  port = 2917;
  db_host = codes "localhost";
  db_name = codes "postdb";
  db_login = codes "postdb";
}

-- The port is taken.
abbrev taken_port : AccessPointCalls
taken_port = record {
  dial = dialled quiet_log;
  users = none;
  db = none;
  publisher = none;
  default_user = none;
  listening = some (some (text (codes "in use")));
  serving = none;
}

-- The main loop ends.
abbrev ended : PublisherCalls
ended = record {
  dial = dialled quiet_log;
  db = none;
  users = none;
  posts_stream = none;
  messages_stream = none;
  notifier = none;
  loop = stopped;
}

-- The closing of the stream of posts meets a record, at which the process dies.
abbrev torn : Deferred → CallEnd
torn (close_part posts_stream_part) = dies
torn _ = returns

publisher_main-IsLeft_example : IsLeft torn (run_process torn (publisher_main flags ended))
publisher_main-IsLeft_example = publisher_main-IsLeft flags ended quiet_log torn refl

-- What the publishing node closes when its loop ends: not the notifier.
closings-publisher_main :
    closings (run_process (λ call. returns) (publisher_main flags ended)).0.events
    ≡ messages_stream_part ∷ posts_stream_part ∷ posts_part ∷ users_part ∷ db_part ∷ service_part
      ∷ []
unfolding run_process run_deferred publisher_main ◌>>◌ note defer_call debug
closings-publisher_main = refl

-- And where it stops if the process dies on the way.
closings-torn :
    closings (run_process torn (publisher_main flags ended)).0.events
    ≡ messages_stream_part ∷ posts_stream_part ∷ []
unfolding run_process run_deferred publisher_main ◌>>◌ note defer_call debug
closings-torn = refl
