-- ===== src/AccessPoint/Requests/Chunks.antt =====
-- accesspoint/lib/client.go, `WriteMessageChunk`.
-- Which chunks of messages are accepted, and what becomes of them.
pub mod Steps
use au10_service.Prelude.{
  ℕ, ◌≡◌, ◌⊎◌, inl, inr, true, false, [], ◌∷◌, arith, Bool-cases, ok, err, panic, Outcome-cases,
}
use au10_service.Text.{Bytes, codes}
use au10_service.Text.Errors.{Error}
use au10_service.Text.Format.{str}
use au10_service.Au10.Group.{is_allowed}
use au10_service.AccessPoint.Status.{invalid_argument, permission_denied, internal}
use au10_service.AccessPoint.Action.{World, Action}
use au10_service.AccessPoint.Client.{Client, check_rights, log_debug}
use au10_service.AccessPoint.Client.Errors.{
  Refuses, >>=-Refuses, check_rights-denies, check_rights-grants, after-Refuses,
}
use au10_service.AccessPoint.Requests.{
  MessageChunkWriteRequest, check_chunk, parse_message_id, append_chunk, write_message_chunk,
}
use au10_service.AccessPoint.Requests.Chunks.Steps.{
  Fits, Names, append_chunk-err, append_chunk-ok, append_chunk-panic, check_chunk-cases,
  parse_message_id-cases, record_of, with_chunk,
}

abbrev pub IsPublisher : Client → Type 0
IsPublisher client = is_allowed client.service.publisher.membership client.user.rights ≡ true

abbrev rights_check : Client → MessageChunkWriteRequest → Action (Unit {0})
rights_check client request =
    check_rights client client.service.publisher.membership
      (codes "message \"%s\"/\"%s\" publishing") (str request.post_id ∷ str request.message_id ∷ [])

module _ (client : Client) (request : MessageChunkWriteRequest) (w : World) where
  check_chunk-passes : Fits client request → check_chunk client request w ≡ (w, ok tt)
  check_chunk-passes fits = elim (check_chunk-cases client request w) [
    | inr (unfit, _) ↦ absurd (unfit fits)
    | inl (_, p) ↦ p
  ]

  parse_message_id-passes :
      (id post : ℕ)
      → Names request id post
      → parse_message_id client request.message_id request.post_id w ≡ (w, ok (id, post))
  parse_message_id-passes id post names = elim (parse_message_id-cases client request w) [
    | inr (nameless, _) ↦ absurd (nameless id post names)
    | inl (id', post', same, parsed) ↦ ground arith
  ]

  rights_check-passes : IsPublisher client → rights_check client request w ≡ (w, ok tt)
  rights_check-passes h = check_rights-grants client client.service.publisher.membership _ _ w h

  pub unfit-Refuses :
      ¬ Fits client request → Refuses (write_message_chunk client request) w invalid_argument
  unfolding write_message_chunk
  unfit-Refuses h = elim (check_chunk-cases client request w) [
    | inl (fits, _) ↦ absurd (h fits)
    | inr (_, r) ↦ >>=-Refuses (check_chunk client request) _ w invalid_argument r
  ]

  denied-Refuses :
      Fits client request
      → is_allowed client.service.publisher.membership client.user.rights ≡ false
      → Refuses (write_message_chunk client request) w permission_denied
  unfolding write_message_chunk
  denied-Refuses fits h =
      after-Refuses (check_chunk client request) _ w tt permission_denied (check_chunk-passes fits)
        (>>=-Refuses (rights_check client request) _ w permission_denied
          (check_rights-denies client client.service.publisher.membership _ _ w h))

  nameless-Refuses :
      Fits client request
      → IsPublisher client
      → ((id post : ℕ) → ¬ Names request id post)
      → Refuses (write_message_chunk client request) w invalid_argument
  unfolding write_message_chunk
  nameless-Refuses fits h n =
      after-Refuses (check_chunk client request) _ w tt invalid_argument (check_chunk-passes fits) (
        after-Refuses (rights_check client request) _ w tt invalid_argument (rights_check-passes h)
          (elim (parse_message_id-cases client request w) [
            | inl (id, post, names, _) ↦ absurd (n id post names)
            | inr (_, r) ↦
                >>=-Refuses (parse_message_id client request.message_id request.post_id) _ w
                  invalid_argument r
          ]))

  lost-Refuses :
      (id post : ℕ) (e : Error)
      → Fits client request
      → IsPublisher client
      → Names request id post
      → client.service.chunk_codec.marshal (record_of client request id post) ≡ err e
      → Refuses (write_message_chunk client request) w internal
  unfolding write_message_chunk
  lost-Refuses id post e fits h names m =
      after-Refuses (check_chunk client request) _ w tt internal (check_chunk-passes fits) (
        after-Refuses (rights_check client request) _ w tt internal (rights_check-passes h) (
          after-Refuses (parse_message_id client request.message_id request.post_id) _ w (id, post)
            internal (parse_message_id-passes id post names)
            (>>=-Refuses (append_chunk client request id post) _ w internal
              (append_chunk-err client request id post e w m))))

pub accepted :
    (client : Client) (request : MessageChunkWriteRequest) (id post : ℕ) (value : Bytes) (w : World)
    → Fits client request
    → IsPublisher client
    → Names request id post
    → client.service.chunk_codec.marshal (record_of client request id post) ≡ ok value
    → ((write_message_chunk client request w).1 ≡ ok tt)
      × ((write_message_chunk client request w).0.inputs ≡ with_chunk client value w.inputs)
unfolding write_message_chunk log_debug
accepted client request id post value w fits allowed names h = ground (
  arith,
  check_chunk-passes client request w fits,
  rights_check-passes client request w allowed,
  parse_message_id-passes client request w id post names,
  append_chunk-ok client request id post value w h,
)

panics :
    (client : Client) (request : MessageChunkWriteRequest) (id post : ℕ) (w : World)
    → Fits client request
    → IsPublisher client
    → Names request id post
    → client.service.chunk_codec.marshal (record_of client request id post) ≡ panic
    → write_message_chunk client request w ≡ (w, panic)
unfolding write_message_chunk log_debug
panics client request id post w fits allowed names h = ground (
  arith,
  check_chunk-passes client request w fits,
  rights_check-passes client request w allowed,
  parse_message_id-passes client request w id post names,
  append_chunk-panic client request id post w h,
)

-- What comes of the record of a chunk with good identifiers.
abbrev Settles : Client → MessageChunkWriteRequest → World → ℕ → ℕ → Type 0
Settles client request w id post =
    ((value : Bytes) × (client.service.chunk_codec.marshal (record_of client request id post)
        ≡ ok value)
      × ((write_message_chunk client request w).1 ≡ ok tt)
      × ((write_message_chunk client request w).0.inputs ≡ with_chunk client value w.inputs))
    ⊎ (((e : Error) × (client.service.chunk_codec.marshal (record_of client request id post)
            ≡ err e)
          × Refuses (write_message_chunk client request) w internal)
        ⊎ ((client.service.chunk_codec.marshal (record_of client request id post) ≡ panic)
            × (write_message_chunk client request w ≡ (w, panic))))

settles :
    (client : Client) (request : MessageChunkWriteRequest) (id post : ℕ) (w : World)
    → Fits client request
    → IsPublisher client
    → Names request id post
    → Settles client request w id post
settles client request id post w fits h names =
    elim (Outcome-cases (client.service.chunk_codec.marshal (record_of client request id post))) [
      | inl (value, m) ↦
          let (fine, same) = accepted client request id post value w fits h names m in
          inl (value, m, fine, same)
      | inr (inl (e, m)) ↦ inr (inl (e, m, lost-Refuses client request w id post e fits h names m))
      | inr (inr m) ↦ inr (inr (m, panics client request id post w fits h names m))
    ]

-- How a request to write a chunk ends.
abbrev pub ChunkVerdict : Client → MessageChunkWriteRequest → World → Type 0
ChunkVerdict client request w =
    (¬ Fits client request × Refuses (write_message_chunk client request) w invalid_argument)
    ⊎ ((Fits client request
          × (is_allowed client.service.publisher.membership client.user.rights ≡ false)
          × Refuses (write_message_chunk client request) w permission_denied)
        ⊎ ((Fits client request
              × (is_allowed client.service.publisher.membership client.user.rights ≡ true)
              × ((id post : ℕ) → ¬ Names request id post)
              × Refuses (write_message_chunk client request) w invalid_argument)
            ⊎ (Fits client request
                × (is_allowed client.service.publisher.membership client.user.rights ≡ true)
                × ((id : ℕ) × (post : ℕ) × Names request id post
                    × Settles client request w id post))))

-- `WriteMessageChunk` on every request. An empty chunk or one above the limit is refused with
-- InvalidArgument; then a caller who may not publish with PermissionDenied; then identifiers that
-- are no 32-bit decimals with InvalidArgument. None of these adds anything to the publisher's
-- streams. Otherwise the record of these identifiers, these bytes and the caller as the author is
-- serialized: if that works the call succeeds and exactly this one message is added, and if not
-- the call is refused with Internal and adds nothing (or panics, if the serializer does).
pub write_message_chunk-cases :
    (client : Client) (request : MessageChunkWriteRequest) (w : World)
    → ChunkVerdict client request w
write_message_chunk-cases client request w = elim (check_chunk-cases client request w) [
  | inr (unfit, _) ↦ inl (unfit, unfit-Refuses client request w unfit)
  | inl (fits, _) ↦
      elim (Bool-cases (is_allowed client.service.publisher.membership client.user.rights)) [
        | inr denied ↦ inr (inl (fits, denied, denied-Refuses client request w fits denied))
        | inl h ↦ elim (parse_message_id-cases client request w) [
          | inr (n, _) ↦ inr (inr (inl (fits, h, n, nameless-Refuses client request w fits h n)))
          | inl (id, post, names, _) ↦ inr (
              inr (inr (fits, h, (id, post, names, settles client request id post w fits h names))))
        ]
      ]
]
