-- ===== src/Cli/Posting.antt =====
-- cli/client.go with accesspoint/lib: what becomes of a text that the client posts.
use au10_service.Prelude.{
  ℕ, zero, suc, ◌<◌, ◌≡◌, refl, ◌≢◌, ◌⊎◌, inl, inr, true, Option, some, List, [], ◌∷◌, arith, ltb,
  length, Outcome, ok, err, panic, Outcome-cases, take,
}
use au10_service.AccessPoint.Requests.Chunks.{unfit-Refuses}
use au10_service.AccessPoint.Requests.{MessageChunkWriteRequest, write_message_chunk}
use au10_service.AccessPoint.Server.{Server, request_user}
use au10_service.AccessPoint.Client.{Services}
use au10_service.AccessPoint.Status.{invalid_argument}
use au10_service.AccessPoint.Methods.{serve_write_message_chunk, serve_add_vocal}
use au10_service.Cli.{slice, chunk_sent, post_vocal, vocal_added, cli_request}
use au10_service.AccessPoint.Methods.Denied.{unknown_user, client_of, with_client-IsTurnedAway}
use au10_service.Text.{Bytes, codes}
use au10_service.Au10.Writer.{Answer}
use au10_service.AccessPoint.Status.{Status}
use au10_service.AccessPoint.Convertor.{ProtoMessage, ProtoPost}
use au10_service.Cli.{Remote, post_chunks, get_ctx}
use au10_service.Cli.Remotes.{access_point, over_wire}
use au10_service.Text.Errors.{Error}

slice_first : (source : Bytes) → 3 < length source → slice source 0 3 ≡ ok (take 3 source)
unfolding slice
slice_first source long = ground arith

slice_second : (source : Bytes) → 3 < length source → slice source 3 3 ≡ ok []
unfolding slice
slice_second source long = ground arith

more : (i : ℕ) (source : Bytes) → i < length source → ltb i (length source) ≡ true
more i source long = ground arith

-- A chunk without bytes is refused, whoever sends it, and the publisher is given nothing.
empty_chunk :
    (service : Services) (values : Option (List Bytes)) (post_id message_id : Bytes) (s : Server)
    → ((serve_write_message_chunk service values
          (record { post_id = post_id; message_id = message_id; chunk = [] })
          s).1
        ≢ ok tt)
      × ((serve_write_message_chunk service values
            (record { post_id = post_id; message_id = message_id; chunk = [] })
            s).0.world.inputs
          ≡ s.world.inputs)
unfolding serve_write_message_chunk
empty_chunk service values post_id message_id s =
    let request : MessageChunkWriteRequest = record {
      post_id = post_id;
      message_id = message_id;
      chunk = [];
    } in
    elim (Outcome-cases (request_user service values)) [
      | inl (user, known) ↦
          let away =
            with_client-IsTurnedAway service values (codes "WriteMessageChunk")
              (λ client. write_message_chunk client request) s user invalid_argument known
              (unfit-Refuses (client_of service (codes "WriteMessageChunk") user s) request s.world
                (λ fits. fits.1 refl)) in
          ((λ same. ground (arith, away.failed)), away.unpublished)
      | inr rest ↦
          unknown_user service values (codes "WriteMessageChunk")
            (λ client. write_message_chunk client request) s tt (λ user known. ground (arith, rest))
    ]

-- A call that fails ends the loop.
failed_call :
    (rpc_error : Option Status → Error) (r : Server × Outcome Status (Unit {0}))
    (next : Server → Option (Server × Outcome Error (Unit {0})))
    → r.1 ≢ ok tt
    → (fault : Outcome Error (Unit {0})) × (chunk_sent (over_wire rpc_error r) next
        ≡ some (r.0, fault))
      × (fault ≢ ok tt)
failed_call rpc_error (s, ok done) next fails = absurd (fails refl)
failed_call rpc_error (s, err status) next fails = (_, refl, λ same. ground arith)
failed_call rpc_error (s, panic) next fails = (_, refl, λ same. ground arith)

-- Whether a call fails or not, if what follows it fails without giving the publisher anything.
call_then :
    (rpc_error : Option Status → Error) (r : Server × Outcome Status (Unit {0}))
    (next : Server → Option (Server × Outcome Error (Unit {0})))
    → ((s : Server)
        → (s' : Server) × (fault : Outcome Error (Unit {0})) × (next s ≡ some (s', fault))
          × (fault ≢ ok tt)
          × (s'.world.inputs ≡ s.world.inputs))
    → (s' : Server) × (fault : Outcome Error (Unit {0})) × (chunk_sent (over_wire rpc_error r) next
        ≡ some (s', fault))
      × (fault ≢ ok tt)
      × (s'.world.inputs ≡ r.0.world.inputs)
call_then rpc_error (s, ok done) next fails = fails s
call_then rpc_error (s, err status) next fails = (s, _, refl, (λ same. ground arith), refl)
call_then rpc_error (s, panic) next fails = (s, _, refl, (λ same. ground arith), refl)

module _ (service : Services) (answer : Answer) (rpc_error : Option Status → Error)
    (streams : Remote Server) (header : Option (List Bytes)) (source : Bytes) where
  -- One call of `WriteMessageChunk`, for the client's header.
  abbrev pub sent_chunk : Bytes → Bytes → Bytes → Server → Server × Outcome Status (Unit {0})
  sent_chunk post_id message_id chunk s =
      serve_write_message_chunk service (get_ctx header)
        (record { post_id = post_id; message_id = message_id; chunk = chunk }) s

  -- The posting comes to an end, which is no success. The publisher was given nothing behind the
  -- vocal, or what one call with the first three bytes gives it.
  abbrev pub Fails : Server → Option (Server × Outcome Error (Unit {0})) → Type 0
  Fails s ending =
      (s' : Server) × (r : Outcome Error (Unit {0})) × (ending ≡ some (s', r))
      × (r ≢ ok tt)
      × ((s'.world.inputs ≡ s.world.inputs)
          ⊎ ((post_id : Bytes) × (message_id : Bytes) × (s'.world.inputs
                ≡ (sent_chunk post_id message_id (take 3 source) s).0.world.inputs)))

  -- The second round sends an empty chunk.
  second_round :
      (fuel : ℕ) (post_id : Bytes) (m : ProtoMessage) (ms : List ProtoMessage) (s : Server)
      → 3 < length source
      → (s' : Server) × (r : Outcome Error (Unit {0})) × (post_chunks
            (access_point service answer rpc_error streams)
            (suc fuel)
            header
            post_id
            (m ∷ ms)
            source
            3
            s
          ≡ some (s', r))
        × (r ≢ ok tt)
        × (s'.world.inputs ≡ s.world.inputs)
  unfolding post_chunks
  second_round fuel post_id m ms s long =
      let (fails, kept) = empty_chunk service (get_ctx header) post_id m.id s in
      let (fault, same, bad) =
        failed_call rpc_error (sent_chunk post_id m.id [] s)
          (λ s'.
            post_chunks (access_point service answer rpc_error streams) fuel header post_id (m ∷ ms)
              source 6 s')
          fails in
      (
        (sent_chunk post_id m.id [] s).0,
        fault,
        rw (post_chunks, more 3 source long, slice_second source long) same,
        bad,
        kept,
      )

  first_round :
      (fuel : ℕ) (post_id : Bytes) (messages : List ProtoMessage) (s : Server)
      → 3 < length source
      → Fails s (
          post_chunks
            (access_point service answer rpc_error streams)
            (suc (suc fuel))
            header
            post_id
            messages
            source
            0
            s)
  unfolding post_chunks
  first_round fuel post_id [] s long = (
    s,
    panic,
    rw (post_chunks, more 0 source (omega arith)) refl,
    (λ same. ground arith),
    inl refl,
  )
  first_round fuel post_id (m ∷ ms) s long =
      let (s', fault, same, bad, kept) =
        call_then rpc_error (sent_chunk post_id m.id (take 3 source) s)
          (λ s1.
            post_chunks (access_point service answer rpc_error streams) (suc fuel) header post_id
              (m ∷ ms) source 3 s1)
          (λ s1. second_round fuel post_id m ms s1 long) in
      (
        s',
        fault,
        rw (post_chunks, more 0 source (omega arith), slice_first source long) same,
        bad,
        inr (post_id, m.id, kept),
      )

  -- Two rounds are enough.
  rounds :
      (fuel : ℕ) (post_id : Bytes) (messages : List ProtoMessage) (s : Server)
      → 1 < fuel
      → 3 < length source
      → Fails s (
          post_chunks
            (access_point service answer rpc_error streams)
            fuel
            header
            post_id
            messages
            source
            0
            s)
  rounds zero post_id messages s enough long = absurd (omega arith)
  rounds (suc zero) post_id messages s enough long = absurd (omega arith)
  rounds (suc (suc fuel)) post_id messages s enough long = first_round fuel post_id messages s long

  added_then :
      (r : Server × Outcome Status ProtoPost)
      → 3 < length source
      → Fails r.0 (
          vocal_added
            (access_point service answer rpc_error streams)
            header
            source
            (over_wire rpc_error r))
  added_then (s, ok post) long =
      rounds (suc (length source)) post.id post.messages s (omega arith) long
  added_then (s, err status) long = (s, _, refl, (λ same. ground arith), inl refl)
  added_then (s, panic) long = (s, _, refl, (λ same. ground arith), inl refl)

  -- `PostVocal` of the command-line client with any access point: a text of more than three bytes is
  -- never posted. The command ends, and not with success; behind the vocal itself the publisher was
  -- given nothing, or what one call of WriteMessageChunk with the first three bytes gives it.
  pub post_vocal-Fails :
      (s : Server)
      → 3 < length source
      → Fails
          (serve_add_vocal service (get_ctx header) (cli_request source) answer s).0
          (post_vocal (access_point service answer rpc_error streams) header source s)
  unfolding post_vocal
  post_vocal-Fails s long =
      added_then (serve_add_vocal service (get_ctx header) (cli_request source) answer s) long
