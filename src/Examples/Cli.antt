-- ===== src/Examples/Cli.antt =====
-- The command-line client: the theorem at a concrete input, and tests of what is printed.
use au10_service.Prelude.{◌≡◌, refl, false, some, [], ◌∷◌, arith, err, panic}
use au10_service.Cli.{
  Remote, cli_request, cli_text, get_ctx, log_line, post_vocal, severity_word, slice,
}
use au10_service.AccessPoint.Server.{Server, new_server}
use au10_service.Cli.Remotes.{access_point}
use au10_service.Cli.Session.{dial_or_die, session_main}
use au10_service.Au10.Post.{pos}
use au10_service.Cli.Posting.{post_vocal-Fails, Fails}
use au10_service.AccessPoint.Methods.{serve_add_vocal}
use au10_service.Examples.Fixtures.{services, world}
use au10_service.Au10.Writer.{stored}
use au10_service.AccessPoint.Client.{to_upper}
use au10_service.Text.{codes, bytes_eq}
use au10_service.Text.Format.{sprintf}
use au10_service.Text.Errors.{Error, error_text, text}

abbrev unreachable : Error
unreachable = text (codes "unreachable")

abbrev silent : Remote Server
silent = record {
  auth = λ values login s. (s, err unreachable);
  read_log = λ values s. (s, err unreachable);
  read_posts = λ values s. (s, err unreachable);
  add_vocal = λ values request s. (s, err unreachable);
  write_message_chunk = λ values request s. (s, err unreachable);
}

post_vocal-Fails_example :
    Fails services
      (stored 4 (pos 9))
      (λ status. unreachable)
      silent
      (some (codes "token: root" ∷ []))
      cli_text
      (serve_add_vocal services
        (get_ctx (some (codes "token: root" ∷ [])))
        (cli_request cli_text)
        (stored 4 (pos 9))
        (new_server world)).0
      (post_vocal
        (access_point services (stored 4 (pos 9)) (λ status. unreachable) silent)
        (some (codes "token: root" ∷ []))
        cli_text
        (new_server world))
post_vocal-Fails_example =
    post_vocal-Fails services (stored 4 (pos 9)) (λ status. unreachable) silent
      (some (codes "token: root" ∷ [])) cli_text (new_server world) (omega arith)

one_line :
    log_line
      (λ t. codes "now")
      (record {
        seq_num = 5;
        time = pos 9;
        message = codes "late";
        severity = codes "warn";
        node_type = codes "publisher";
        node_name = codes "n";
      })
    ≡ codes "5. WARN  now [publisher/n]: late\n"
unfolding log_line severity_word bytes_eq to_upper sprintf
one_line = refl

past_the_end : slice (codes "abcdefg") 6 3 ≡ panic
unfolding slice
past_the_end = refl

-- A client that gets no connection leaves without a call.
no_session :
    session_main silent
      (some unreachable)
      (λ t. [])
      (codes "here:443")
      []
      (codes "log")
      (new_server world)
    ≡ some (record {
      state = new_server world;
      printed = codes "Connecting to \"here:443\"..." ∷ [];
      connected = false;
      closed = false;
      ending = err (text (codes "Failed to connect to access point: unreachable"));
    })
unfolding session_main dial_or_die sprintf error_text
no_session = refl
