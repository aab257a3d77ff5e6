-- ===== src/AccessPoint/Methods.antt =====
-- accesspoint/lib/service.go: the remaining methods of the server, each the request's client at
-- work. `refusal` is the error of subscribing, `answer` what Kafka says to a new post.
pub mod Denied
use au10_service.Prelude.{ℕ, Option, some, List, [], Outcome, ok, err, panic}
use mathlib.Core.Option
use au10_service.Text.{Bytes, codes}
use au10_service.Text.Errors.{Error}
use au10_service.Au10.Writer.{Answer}
use au10_service.AccessPoint.Status.{Status}
use au10_service.AccessPoint.Action.{World}
use au10_service.AccessPoint.Convertor.{VocalAddRequest, ProtoPost}
use au10_service.AccessPoint.Client.{Services, Client}
use au10_service.AccessPoint.Requests.{MessageChunkWriteRequest, add_vocal, write_message_chunk}
use au10_service.AccessPoint.Reading.{MessageReadRequest, read_message}
use au10_service.AccessPoint.Server.{Server, new_request_client, with_client}
use au10_service.AccessPoint.Subscription.{Subscription, read_log, read_posts}

module _ (service : Services) (auth_values : Option (List Bytes)) where
  unfoldable pub serve_read_log : Option Error → Server → Server × Outcome Status Subscription
  serve_read_log refusal =
      with_client service auth_values (codes "ReadLog") (λ client. read_log client refusal)

  unfoldable pub serve_read_posts : Option Error → Server → Server × Outcome Status Subscription
  serve_read_posts refusal =
      with_client service auth_values (codes "ReadPosts") (λ client. read_posts client refusal)

  unfoldable pub serve_add_vocal :
      VocalAddRequest → Answer → Server → Server × Outcome Status ProtoPost
  serve_add_vocal request answer =
      with_client service auth_values (codes "AddVocal") (λ client. add_vocal client request answer)

  unfoldable pub serve_write_message_chunk :
      MessageChunkWriteRequest → Server → Server × Outcome Status (Unit {0})
  serve_write_message_chunk request =
      with_client service auth_values (codes "WriteMessageChunk")
        (λ client. write_message_chunk client request)

  abbrev with_world :
      Server → World × Outcome Status (Unit {0}) → Server × Outcome Status (Unit {0})
  with_world s (w, result) = (record s { world = w }, result)

  abbrev read_with :
      ℕ
      → MessageReadRequest
      → (Bytes → Option Error)
      → Server × Outcome Status Client
      → List Bytes × Option (Server × Outcome Status (Unit {0}))
  read_with fuel request send (s, ok client) =
      let (sent, ending) = read_message fuel client request send s.world in
      (sent, Option.map (with_world s) ending)
  read_with fuel request send (s, err status) = ([], some (s, err status))
  read_with fuel request send (s, panic) = ([], some (s, panic))

  -- The chunks that were sent come first; `none` means that the fuel ran out.
  unfoldable pub serve_read_message :
      ℕ
      → MessageReadRequest
      → (Bytes → Option Error)
      → Server
      → List Bytes × Option (Server × Outcome Status (Unit {0}))
  serve_read_message fuel request send s =
      read_with fuel request send (new_request_client service auth_values (codes "ReadMessage") s)
