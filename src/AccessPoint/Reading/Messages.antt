-- ===== src/AccessPoint/Reading/Messages.antt =====
-- accesspoint/lib/client.go, `ReadMessage`.
-- How reading a message ends, and how many chunks the loop sends.
use au10_service.Prelude.{
  ℕ, zero, suc, ◌+◌, ◌*◌, ◌≤◌, ◌<◌, ◌≡◌, ◌∙◌, ◌⊎◌, inl, inr, true, false, Option, none, some, List,
  [], ◌∷◌, ◌++◌, arith, Bool-cases, length, length-append, ok, err, panic, ◌∙◌,
}
use au10_service.Au10.Post.{MessageData}
use au10_service.AccessPoint.Reading.{chunk_error, new_message}
use au10_service.Text.Errors.{text}
use au10_service.Text.{Bytes, codes}
use au10_service.Text.Errors.{Error}
use au10_service.Au10.Group.{is_allowed}
use au10_service.Au10.Post.{u32}
use au10_service.AccessPoint.Status.{Status, invalid_argument, permission_denied}
use au10_service.AccessPoint.Action.{World, >>=-ok}
use au10_service.AccessPoint.Client.{Client, check_rights}
use au10_service.AccessPoint.Client.Errors.{
  Refuses, >>=-Refuses, after-Refuses, check_rights-grants, check_rights-denies,
}
use au10_service.AccessPoint.Requests.{parse_message_id, MessageChunkWriteRequest}
use au10_service.AccessPoint.Requests.Chunks.Steps.{Names, parse_message_id-cases}
use au10_service.AccessPoint.Reading.{
  Message, MessageReadRequest, Reading, get_message, read_chunks, read_from, read_message,
}

get_message-none :
    (client : Client) (request : MessageReadRequest) (ids : ℕ × ℕ) (w : World)
    → parse_message_id client request.message_id request.post_id w ≡ (w, ok ids)
    → is_allowed client.service.posts_membership client.user.rights ≡ true
    → get_message client request w ≡ (w, ok none)
unfolding get_message
get_message-none client request ids w parsed allowed =
    >>=-ok (parse_message_id client request.message_id request.post_id) _ w w ids parsed
    ∙ >>=-ok (check_rights client client.service.posts_membership (codes "posts") []) _ w w tt
        (check_rights-grants client client.service.posts_membership (codes "posts") [] w allowed)

-- What is left when a call refused before any chunk was sent.
abbrev pub Refused : Reading → World → ℕ → Type 0
Refused reading w code =
    (w' : World) × (status : Status) × (reading ≡ ([], some (w', err status)))
    × (status.code ≡ code)
    × (w'.inputs ≡ w.inputs)

read_from-Refused :
    (fuel : ℕ) (client : Client) (request : MessageReadRequest) (send : Bytes → Option Error)
    (w : World) (code : ℕ)
    → Refuses (get_message client request) w code
    → Refused (read_message fuel client request send w) w code
unfolding read_message read_from
read_from-Refused fuel client request send w code (status, e, c, i) =
    ((get_message client request w).0, status, ground arith, c, i)

read_message-panic :
    (fuel : ℕ) (client : Client) (request : MessageReadRequest) (send : Bytes → Option Error)
    (w : World)
    → get_message client request w ≡ (w, ok none)
    → read_message fuel client request send w ≡ ([], some (w, panic))
unfolding read_message read_from
read_message-panic fuel client request send w e = ground arith

-- The identifiers of a request, as those of a chunk.
abbrev ids_of : MessageReadRequest → MessageChunkWriteRequest
ids_of request = record { post_id = request.post_id; message_id = request.message_id; chunk = [] }

-- How a request to read a message ends.
abbrev pub ReadVerdict : ℕ → Client → MessageReadRequest → (Bytes → Option Error) → World → Type 0
ReadVerdict fuel client request send w =
    (((id post : ℕ) → ¬ Names (ids_of request) id post)
      × Refused (read_message fuel client request send w) w invalid_argument)
    ⊎ ((((id : ℕ) × (post : ℕ) × Names (ids_of request) id post
            × (is_allowed client.service.posts_membership client.user.rights ≡ false))
          × Refused (read_message fuel client request send w) w permission_denied)
        ⊎ (((id : ℕ) × (post : ℕ) × Names (ids_of request) id post
              × (is_allowed client.service.posts_membership client.user.rights ≡ true))
            × (read_message fuel client request send w ≡ ([], some (w, panic)))))

-- `ReadMessage` on every request, with any fuel: identifiers that are no 32-bit decimals are
-- refused with InvalidArgument, and then a caller without the rights to the posts with
-- PermissionDenied; every other request is a panic, since there is no message to read. Nothing is
-- ever sent.
pub read_message-cases :
    (fuel : ℕ) (client : Client) (request : MessageReadRequest) (send : Bytes → Option Error)
    (w : World)
    → ReadVerdict fuel client request send w
read_message-cases fuel client request send w =
    let chunk_request : MessageChunkWriteRequest = record {
      post_id = request.post_id;
      message_id = request.message_id;
      chunk = [];
    } in
    let parse = parse_message_id client request.message_id request.post_id in
    let posts = client.service.posts_membership in
    elim (parse_message_id-cases client chunk_request w) [
      | inr (nameless, r) ↦ inl (
        nameless,
        read_from-Refused fuel client request send w invalid_argument
            (unfold get_message in >>=-Refuses parse _ w invalid_argument r),
      )
      | inl (id, post, names, parsed) ↦ elim (Bool-cases (is_allowed posts client.user.rights)) [
        | inl allowed ↦ inr (
            inr (
              (id, post, names, allowed),
              read_message-panic fuel client request send w
                  (get_message-none client request (id, post) w parsed allowed),
            ))
        | inr denied ↦ inr (
            inl (
              (id, post, names, denied),
              read_from-Refused fuel client request send w permission_denied (
                  unfold get_message in
                  after-Refuses parse _ w (id, post) permission_denied parsed
                    (>>=-Refuses (check_rights client posts (codes "posts") []) _ w
                      permission_denied (check_rights-denies client posts _ _ w denied))),
            ))
      ]
    ]

-- A message whose `Load` and a stream whose `Send` never fail. If k chunks end at or before the
-- message's end and one more would end behind it, the loop sends k + 1 chunks with that much fuel
-- and one more; sizes must leave room for one more step in 32 bits.
pub read_chunks-sends :
    (k : ℕ) (client : Client) (request : MessageReadRequest) (message : Message)
    (send : Bytes → Option Error) (offset : ℕ) (buffer : Bytes) (sent : List Bytes) (w : World)
    → ((b : Bytes) (o : ℕ) → (filled : Bytes) × (message.load b o ≡ ok filled))
    → ((b : Bytes) → send b ≡ none)
    → message.size + client.service.max_chunk_size < 4294967296
    → offset + k * client.service.max_chunk_size ≤ message.size
    → message.size < offset + k * client.service.max_chunk_size + client.service.max_chunk_size
    → (chunks : List Bytes) × (length chunks ≡ length sent + k + 1)
      × (read_chunks (suc (suc k)) client request message send offset buffer sent w
          ≡ (chunks, some (w, ok tt)))
unfolding read_chunks
read_chunks-sends zero client request message send offset buffer sent w loads sends room low high =
    let (filled, e) = loads buffer offset in
    (
      sent ++ filled ∷ [],
      omega (arith, length-append sent (filled ∷ [])),
      ground (arith, sends filled),
    )
read_chunks-sends (suc k) client request message send offset buffer sent w loads sends room low
      high =
    let (filled, e) = loads buffer offset in
    let (chunks, n, rest) =
      read_chunks-sends k client request message send (u32 (offset + client.service.max_chunk_size))
        filled (sent ++ filled ∷ []) w loads sends room (omega arith) (omega arith) in
    (chunks, omega (arith, n, length-append sent (filled ∷ [])), ground (arith, sends filled))

-- Even with a message, nothing would be read: `Load` of au10's messages fails at once.
new_message-unread :
    (fuel : ℕ) (client : Client) (request : MessageReadRequest) (send : Bytes → Option Error)
    (source : MessageData) (w : World)
    → read_from (suc fuel) client request send (w, ok (some (new_message source))) ≡ (
      [],
      some (
          chunk_error client request
            (codes "failed to load chunk \"%s\"/\"%s\"/%d: \"%s\"")
            0
            (text (codes "not implemented"))
            w),
    )
unfolding read_from read_chunks
new_message-unread fuel client request send source w = ground arith
