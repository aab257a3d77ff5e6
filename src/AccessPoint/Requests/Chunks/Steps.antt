-- ===== src/AccessPoint/Requests/Chunks/Steps.antt =====
-- accesspoint/lib/client.go, `WriteMessageChunk`: the size of a chunk, its identifiers, and what the
-- publisher is given of it.
use au10_service.Prelude.{
  ℕ, ◌≤◌, ◌≡◌, ◌≢◌, ◌⊎◌, inl, inr, none, [], ◌∷◌, ◌++◌, arith, ltb, ◌==◌, Bool-cases, length,
  Option-cases, ok, err, panic,
}
use au10_service.Text.{Bytes, codes}
use au10_service.Text.Errors.{Error, error_text, errorf}
use au10_service.Text.Format.{str, num}
use au10_service.Au10.Post.{u32}
use au10_service.Au10.Writer.{push_async, serialize}
use au10_service.Au10.Publisher.{append_message, Inputs, PublisherMessageData}
use au10_service.AccessPoint.Status.{invalid_argument, internal}
use au10_service.AccessPoint.Action.{World}
use au10_service.AccessPoint.Convertor.{id_from_proto}
use au10_service.AccessPoint.Client.{Client, reject}
use au10_service.AccessPoint.Client.Errors.{Refuses, reject-Refuses}
use au10_service.AccessPoint.Requests.{
  MessageChunkWriteRequest, check_chunk, parse_message_id, append_chunk,
}

-- The chunk is not empty, and its length, as a 32-bit number, is within the limit.
abbrev pub Fits : Client → MessageChunkWriteRequest → Type 0
Fits client request =
    (u32 (length request.chunk) ≤ client.service.max_chunk_size) × (length request.chunk ≢ 0)

-- Both identifiers are the decimal texts of these numbers.
abbrev pub Names : MessageChunkWriteRequest → ℕ → ℕ → Type 0
Names request id post =
    (id_from_proto request.message_id none ≡ (id, none))
    × (id_from_proto request.post_id none ≡ (post, none))

pub check_chunk-cases :
    (client : Client) (request : MessageChunkWriteRequest) (w : World)
    → (Fits client request × (check_chunk client request w ≡ (w, ok tt)))
      ⊎ (¬ Fits client request × Refuses (check_chunk client request) w invalid_argument)
unfolding check_chunk
check_chunk-cases client request w =
    elim (Bool-cases (ltb client.service.max_chunk_size (u32 (length request.chunk)))) [
      | inl big ↦ inr (λ fits. ground arith, rw big (reject-Refuses client _ _ _ w))
      | inr small ↦ elim (Bool-cases (length request.chunk == 0)) [
        | inl empty ↦ inr (λ fits. ground arith, rw (small, empty) (reject-Refuses client _ _ _ w))
        | inr full ↦ inl ((ground arith, ground arith), rw (small, full))
      ]
    ]

pub parse_message_id-cases :
    (client : Client) (request : MessageChunkWriteRequest) (w : World)
    → ((id : ℕ) × (post : ℕ) × Names request id post
        × (parse_message_id client request.message_id request.post_id w ≡ (w, ok (id, post))))
      ⊎ (((id post : ℕ) → ¬ Names request id post)
          × Refuses (parse_message_id client request.message_id request.post_id) w invalid_argument)
unfolding parse_message_id
parse_message_id-cases client request w =
    elim (Option-cases (id_from_proto request.post_id none).1) [
      | inr (e, bad) ↦
          inr
            (λ id post n. ground arith, rw (bad, parse_message_id) (reject-Refuses client _ _ _ w))
      | inl good ↦ elim (Option-cases (id_from_proto request.message_id none).1) [
        | inr (e, bad) ↦ inr (
          λ id post n. ground arith,
          rw (good, parse_message_id) (rw (bad, parse_message_id) (reject-Refuses client _ _ _ w)),
        )
        | inl fine ↦ inl (
          (id_from_proto request.message_id none).0,
          (id_from_proto request.post_id none).0,
          (ground arith, ground arith),
          ground arith,
        )
      ]
    ]

-- The record that a chunk becomes, and the inputs with its message.
abbrev pub record_of : Client → MessageChunkWriteRequest → ℕ → ℕ → PublisherMessageData
record_of client request id post = record {
  post = post;
  id = id;
  author = client.user.id;
  chunk = request.chunk;
}

abbrev pub with_chunk : Client → Bytes → Inputs → Inputs
with_chunk client value inputs = record inputs {
  messages =
      inputs.messages
      ++ record {
        topic = client.service.publisher.messages_stream.topic;
        key = client.service.publisher.messages_stream.key;
        value = value;
      }
        ∷ [];
}

pub append_chunk-ok :
    (client : Client) (request : MessageChunkWriteRequest) (id post : ℕ) (value : Bytes) (w : World)
    → client.service.chunk_codec.marshal (record_of client request id post) ≡ ok value
    → append_chunk client request id post w
      ≡ (record w { inputs = with_chunk client value w.inputs }, ok tt)
unfolding append_chunk append_message push_async serialize
append_chunk-ok client request id post value w h = ground arith

append_chunk-eq-reject :
    (client : Client) (request : MessageChunkWriteRequest) (id post : ℕ) (e : Error) (w : World)
    → client.service.chunk_codec.marshal (record_of client request id post) ≡ err e
    → append_chunk client request id post w
      ≡ reject client internal
          (codes "failed to write %d bytes for \"%s\"/\"%s\": \"%s\"")
          (num (length request.chunk)
            ∷ str request.post_id
            ∷ str request.message_id
            ∷ str (
                error_text (errorf (codes "failed to serialize: \"%s\"") (str (error_text e) ∷ [])))
            ∷ [])
          w
unfolding append_chunk append_message push_async serialize
append_chunk-eq-reject client request id post e w h = ground arith

pub append_chunk-err :
    (client : Client) (request : MessageChunkWriteRequest) (id post : ℕ) (e : Error) (w : World)
    → client.service.chunk_codec.marshal (record_of client request id post) ≡ err e
    → Refuses (append_chunk client request id post) w internal
append_chunk-err client request id post e w h =
    rw (append_chunk-eq-reject client request id post e w h) (reject-Refuses client _ _ _ w)

pub append_chunk-panic :
    (client : Client) (request : MessageChunkWriteRequest) (id post : ℕ) (w : World)
    → client.service.chunk_codec.marshal (record_of client request id post) ≡ panic
    → append_chunk client request id post w ≡ (w, panic)
unfolding append_chunk append_message push_async serialize
append_chunk-panic client request id post w h = ground arith
