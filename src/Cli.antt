-- ===== src/Cli.antt =====
-- cli/client.go and cli/main.go: the command-line client. The stubs that gRPC generates are a
-- record of functions on a state, the access point's. `log.Fatalf` ends the process with an error;
-- the lines that report progress to the standard logger are left out.
pub mod Posting
pub mod Remotes
pub mod Session
use au10_service.Prelude.{
  ℕ, zero, suc, ◌+◌, ◌-◌, true, false, ◌&&◌, ◌||◌, Option, none, some, List, [], ◌∷◌, ◌++◌, map,
  ltb, leb, if◌then◌else◌, length, drop, Outcome, ok, err, panic, take, drop,
}
use au10_service.AccessPoint.Server.{AuthResponse}
use au10_service.AccessPoint.Requests.{MessageChunkWriteRequest}
use au10_service.AccessPoint.Convertor.Log.{ProtoLogRecord}
use au10_service.AccessPoint.Convertor.{ProtoMessage, ProtoPost, VocalAddRequest, message_text}
use au10_service.Au10.Post.{Time, u32}
use au10_service.AccessPoint.Client.{to_upper}
use au10_service.Text.{Bytes, codes, bytes_eq}
use au10_service.Text.Errors.{Error, errorf, error_text}
use au10_service.Text.Format.{str, num, sprintf}

abbrev flatten : List (List Bytes) → List Bytes
flatten [] = []
flatten (lines ∷ rest) = lines ++ flatten rest

-- Records until the stream ends, and its error if the end is not `io.EOF`.
abbrev pub Received : Type 0 → Type 0
Received A = List A × Option Error

-- A post's update, without a vocal if it is of a type that the client does not know.
abbrev pub PostUpdate : Type 0
PostUpdate = Option ProtoPost × Bytes

-- `proto.Au10Client`. The first argument of each is the metadata "auth" of the context; `auth` also
-- returns the response's header, of which only "auth" is read. The header that reading returns is
-- never used again.
pub record Remote (S : Type 0) : Type 0 where
  pub auth :
      Option (List Bytes) → Bytes → S → S × Outcome Error (Option (List Bytes) × AuthResponse)
  pub read_log : Option (List Bytes) → S → S × Outcome Error (Received ProtoLogRecord)
  pub read_posts : Option (List Bytes) → S → S × Outcome Error (Received PostUpdate)
  pub add_vocal : Option (List Bytes) → VocalAddRequest → S → S × Outcome Error ProtoPost
  pub write_message_chunk :
      Option (List Bytes) → MessageChunkWriteRequest → S → S × Outcome Error (Unit {0})

-- `getCtx`: the token of the last response's header, if it has just one.
unfoldable pub get_ctx : Option (List Bytes) → Option (List Bytes)
get_ctx none = none
get_ctx (some []) = none
get_ctx (some (token ∷ [])) = some (token ∷ [])
get_ctx (some (token ∷ next ∷ rest)) = none

-- `%-5s`.
abbrev pub pad_right : ℕ → Bytes → Bytes
pad_right zero s = s
pad_right (suc n) [] = b' ' ∷ pad_right n []
pad_right (suc n) (c ∷ s) = c ∷ pad_right n s

unfoldable pub severity_word : Bytes → Bytes
severity_word word =
    if bytes_eq word (codes "debug") || bytes_eq word (codes "info")
    then word
    else map to_upper word

-- `show` is how `time.StampMicro` prints an instant.
unfoldable pub log_line : (Time → Bytes) → ProtoLogRecord → Bytes
log_line show r = sprintf (codes "%d. %s %s [%s/%s]: %s\n") (
    num r.seq_num
    ∷ str (pad_right 5 (severity_word r.severity))
    ∷ str (show r.time)
    ∷ str r.node_type
    ∷ str r.node_name
    ∷ str r.message
    ∷ [])

message_line : ProtoMessage → Bytes
message_line m =
    sprintf (codes "\t%s (%d bytes, kind %d)\n") (str m.id ∷ num m.size ∷ num m.kind ∷ [])

-- What is printed for one update of the posts.
unfoldable pub post_lines : (Time → Bytes) → PostUpdate → List Bytes
unfolding message_line
post_lines show (none, print) =
    sprintf (codes "Post has unknown type \"%s\".\n") (str print ∷ []) ∷ []
post_lines show (some post, print) =
    sprintf (codes "%s %s (%s):\n") (str (codes "Vocal") ∷ str post.id ∷ str (show post.time) ∷ [])
    ∷ elim post.messages [ [] ↦ codes "\tno messages\n" ∷ [] | m ∷ ms ↦ map message_line (m ∷ ms) ]

-- The end of a stream.
abbrev pub at_end : Bytes → Option Error → Outcome Error (Unit {0})
at_end format none = ok tt
at_end format (some e) = err (errorf format (str (error_text e) ∷ []))

-- `messageText[low:high]`.
unfoldable pub slice : Bytes → ℕ → ℕ → Outcome Error Bytes
slice source low high =
    if leb low high && leb high (length source)
    then ok (take (high - low) (drop low source))
    else panic

abbrev pub chunk_size : ℕ
chunk_size = 3

-- What `PostVocal` posts.
abbrev pub cli_text : Bytes
cli_text = codes "Test message from cli: \"ABC\", \"1234567890\" and \"!@#$%^&*()\"."

abbrev pub cli_request : Bytes → VocalAddRequest
cli_request source = record {
  post = some (record {
    location = some (record { latitude = 4630079415393186415; longitude = 4629845533331437904 });
    messages = record { kind = message_text; size = u32 (length source) } ∷ [];
  });
}

module _ {S A : Type 0} where
  -- The loop over what a stream delivers: `show_one` is what is printed for one record.
  abbrev pub printed :
      (A → List Bytes)
      → Bytes
      → Bytes
      → S × Outcome Error (Received A)
      → S × (List Bytes × Outcome Error (Unit {0}))
  printed show_one refused broken (s, ok (records, ending)) =
      (s, (flatten (map show_one records), at_end broken ending))
  printed show_one refused broken (s, err e) = (s, ([], at_end refused (some e)))
  printed show_one refused broken (s, panic) = (s, ([], panic))

module _ {S : Type 0} where
  abbrev pub authed :
      S × Outcome Error (Option (List Bytes) × AuthResponse)
      → S × Outcome Error (Option (List Bytes))
  authed (s, ok (header, response)) = (s, ok header)
  authed (s, err e) = (s, err (errorf (codes "Failed to auth: %s") (str (error_text e) ∷ [])))
  authed (s, panic) = (s, panic)

  abbrev pub chunk_sent :
      S × Outcome Error (Unit {0})
      → (S → Option (S × Outcome Error (Unit {0})))
      → Option (S × Outcome Error (Unit {0}))
  chunk_sent (s, ok done) next = next s
  chunk_sent (s, err e) next =
      some (s, err (errorf (codes "Failed to post vocal: \"%s\".") (str (error_text e) ∷ [])))
  chunk_sent (s, panic) next = some (s, panic)

module _ {S : Type 0} (remote : Remote S) where
  -- `Auth`; it returns the header for the calls that follow.
  unfoldable pub auth : Option (List Bytes) → Bytes → S → S × Outcome Error (Option (List Bytes))
  auth header login s = authed (remote.auth (get_ctx header) login s)

  unfoldable pub read_log :
      (Time → Bytes) → Option (List Bytes) → S → S × (List Bytes × Outcome Error (Unit {0}))
  read_log show header s =
      printed (λ r. log_line show r ∷ []) (codes "Failed to read log: \"%s\".")
        (codes "Failed to read log record: \"%s\".") (remote.read_log (get_ctx header) s)

  unfoldable pub read_posts :
      (Time → Bytes) → Option (List Bytes) → S → S × (List Bytes × Outcome Error (Unit {0}))
  read_posts show header s =
      printed (post_lines show) (codes "Failed to read posts: \"%s\".")
        (codes "Failed to read post: \"%s\".") (remote.read_posts (get_ctx header) s)

  -- The call of `WriteMessageChunk` for one round of the loop.
  abbrev pub write_chunk :
      Option (List Bytes)
      → Bytes
      → List ProtoMessage
      → Outcome Error Bytes
      → S
      → S × Outcome Error (Unit {0})
  write_chunk header post_id [] chunk s = (s, panic)
  write_chunk header post_id (m ∷ ms) panic s = (s, panic)
  write_chunk header post_id (m ∷ ms) (err e) s = (s, err e)
  write_chunk header post_id (m ∷ ms) (ok chunk) s =
      remote.write_message_chunk (get_ctx header)
        (record { post_id = post_id; message_id = m.id; chunk = chunk }) s

  -- The loop of `PostVocal`; `none` means that the fuel ran out.
  unfoldable pub post_chunks :
      ℕ
      → Option (List Bytes)
      → Bytes
      → List ProtoMessage
      → Bytes
      → ℕ
      → S
      → Option (S × Outcome Error (Unit {0}))
  post_chunks zero header post_id messages source i s = none
  post_chunks (suc fuel) header post_id messages source i s = elim (ltb i (length source)) [
    | false ↦ some (s, ok tt)
    | true ↦
        chunk_sent (write_chunk header post_id messages (slice source i chunk_size) s)
          (λ s'. post_chunks fuel header post_id messages source (i + chunk_size) s')
  ]

  abbrev pub vocal_added :
      Option (List Bytes)
      → Bytes
      → S × Outcome Error ProtoPost
      → Option (S × Outcome Error (Unit {0}))
  vocal_added header source (s, ok post) =
      post_chunks (suc (length source)) header post.id post.messages source 0 s
  vocal_added header source (s, err e) =
      some (s, err (errorf (codes "Failed to post vocal: \"%s\".") (str (error_text e) ∷ [])))
  vocal_added header source (s, panic) = some (s, panic)

  -- `PostVocal`, for any text.
  unfoldable pub post_vocal :
      Option (List Bytes) → Bytes → S → Option (S × Outcome Error (Unit {0}))
  post_vocal header source s =
      vocal_added header source (remote.add_vocal (get_ctx header) (cli_request source) s)

  -- The command of `main`, with the header that `Auth` has left.
  abbrev pub run_command :
      (Time → Bytes)
      → Bytes
      → S × Outcome Error (Option (List Bytes))
      → Option (S × Outcome Error (Unit {0}))
  run_command show command (s, panic) = some (s, panic)
  run_command show command (s, err e) = some (s, err e)
  run_command show command (s, ok header) =
      if bytes_eq command (codes "log")
      then some ((read_log show header s).0, (read_log show header s).1.1)
      else if bytes_eq command (codes "posts")
      then some ((read_posts show header s).0, (read_posts show header s).1.1)
      else if bytes_eq command (codes "post_vocal")
      then post_vocal header cli_text s
      else some (s, err (errorf (codes "Unknown command: \"%s\".") (str command ∷ [])))

  unfoldable pub main : (Time → Bytes) → Bytes → Bytes → S → Option (S × Outcome Error (Unit {0}))
  main show login command s =
      run_command show command (if bytes_eq login [] then (s, ok none) else auth none login s)
