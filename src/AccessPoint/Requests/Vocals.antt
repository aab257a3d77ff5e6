-- ===== src/AccessPoint/Requests/Vocals.antt =====
-- accesspoint/lib/client.go, `AddVocal`.
-- New posts through the access point.
use au10_service.Prelude.{
  ℕ, ◌+◌, ◌≡◌, refl, ap, ◌∙◌, ◌⊎◌, inl, inr, true, false, none, some, List, [], ◌∷◌, ◌++◌, map,
  arith, All, ok, panic, Outcome-cases, ◌∙◌, ap,
}
use au10_service.Text.{Bytes, codes}
use au10_service.Text.Format.{num}
use au10_service.Au10.Group.{Group, is_allowed}
use au10_service.Au10.Post.{
  Time, MessageDeclaration, MessageData, PostDeclaration, u32, message_kind_text, number_messages,
  new_new_vocal,
}
use au10_service.Au10.Writer.{Answer, stored, push, serialize, answer_of}
use au10_service.Au10.Publisher.{Inputs}
use au10_service.Au10.Publisher
use au10_service.AccessPoint.Status.{permission_denied, internal}
use au10_service.AccessPoint.Action.{World, Action, >>=-ok}
use au10_service.AccessPoint.Convertor.{
  VocalAddRequest, PostAddRequest, ProtoMessageDeclaration, ProtoGeoPoint, ProtoMessage, ProtoPost,
  message_text, id_to_proto, message_kind_to_proto, message_to_proto, messages_to_proto,
  geo_point_to_proto, geo_point_from_proto, vocal_to_proto, vocal_declaration_from_proto,
}
use au10_service.AccessPoint.Convertor.RoundTrip.{
  IsTextDeclaration, from_declaration, declarations_ok,
}
use au10_service.AccessPoint.Client.{Client, check_rights, log_debug}
use au10_service.AccessPoint.Client.Errors.{
  Refuses, reject-Refuses, >>=-Refuses, after-Refuses, check_rights-grants, check_rights-denies,
}
use au10_service.AccessPoint.Requests.{convert_vocal, vocal_response, publish_vocal, add_vocal}

-- A request with no post, or whose post has no location, is a panic, whoever the caller is: it is
-- converted before the caller's rights are checked, through nil pointers.
pub add_vocal_panics :
    (client : Client) (request : VocalAddRequest) (answer : Answer) (w : World)
    → (request.post ≡ none) ⊎ ((p : PostAddRequest) × (request.post ≡ some p) × (p.location ≡ none))
    → add_vocal client request answer w ≡ (w, panic)
unfolding add_vocal convert_vocal vocal_declaration_from_proto geo_point_from_proto
add_vocal_panics client request answer w (inl h) = ground arith
add_vocal_panics client request answer w (inr (p, h, k)) = ground arith

abbrev pub IsTextMessage : MessageData → Type 0
IsTextMessage m = m.kind ≡ message_kind_text

abbrev pub to_text_message : MessageData → ProtoMessage
to_text_message m = record { id = id_to_proto m.id; kind = message_text; size = m.size }

messages_to_proto-text :
    (ms : List MessageData)
    → All IsTextMessage ms
    → messages_to_proto ms none ≡ (map to_text_message ms, none)
unfolding messages_to_proto message_to_proto message_kind_to_proto
messages_to_proto-text [] all = refl
messages_to_proto-text (m ∷ ms) all = ground (arith, messages_to_proto-text ms all.1)

number_messages-text :
    (i : ℕ) (ms : List MessageDeclaration)
    → All (λ (m : MessageDeclaration). m.kind ≡ message_kind_text) ms
    → All IsTextMessage (number_messages i ms)
unfolding number_messages
number_messages-text i [] all = tt
number_messages-text i (m ∷ ms) all = (all.0, number_messages-text (i + 1) ms all.1)

-- What a request declares, for the caller, and the answer to it once it is stored.
abbrev pub declared : Client → PostAddRequest → ProtoGeoPoint → PostDeclaration
declared client p l = record {
  author = client.user.id;
  location = some (record { latitude = l.latitude; longitude = l.longitude });
  messages = map from_declaration p.messages;
}

-- The messages of the answer: texts of the declared sizes, the first with the identifier `i`, and each
-- other with the one that follows.
abbrev pub answered_from : ℕ → List ProtoMessageDeclaration → List ProtoMessage
answered_from i [] = []
answered_from i (m ∷ ms) =
    record { id = id_to_proto (u32 i); kind = message_text; size = m.size }
    ∷ answered_from (i + 1) ms

number_messages-answered_from :
    (i : ℕ) (ms : List ProtoMessageDeclaration)
    → map to_text_message (number_messages i (map from_declaration ms)) ≡ answered_from i ms
unfolding number_messages
number_messages-answered_from i [] = refl
number_messages-answered_from i (m ∷ ms) = rw (number_messages-answered_from (i + 1) ms) refl

abbrev pub response : Client → PostAddRequest → ProtoGeoPoint → ℕ → Time → ProtoPost
response client p l offset time = record {
  id = id_to_proto (u32 offset);
  time = time;
  location = l;
  messages = answered_from 0 p.messages;
}

abbrev pub with_post : Client → Bytes → Inputs → Inputs
with_post client value inputs = record inputs {
  posts =
      inputs.posts
      ++ record {
        topic = client.service.publisher.posts_stream.topic;
        key = client.service.publisher.posts_stream.key;
        value = value;
      }
        ∷ [];
}

from_declarations-text :
    (ms : List ProtoMessageDeclaration)
    → All (λ (m : MessageDeclaration). m.kind ≡ message_kind_text) (map from_declaration ms)
from_declarations-text [] = tt
from_declarations-text (m ∷ ms) = (refl, from_declarations-text ms)

convert_vocal-ok :
    (client : Client) (request : VocalAddRequest) (p : PostAddRequest) (l : ProtoGeoPoint)
    (w : World)
    → request.post ≡ some p
    → p.location ≡ some l
    → All IsTextDeclaration p.messages
    → convert_vocal client request w ≡ (w, ok (declared client p l))
unfolding convert_vocal vocal_declaration_from_proto geo_point_from_proto
convert_vocal-ok client request p l w h k all = ground (arith, declarations_ok p.messages all)

-- What is shown of a post does not depend on who holds it.
pub vocal_to_proto-declared :
    (client : Client) (p : PostAddRequest) (l : ProtoGeoPoint) (offset : ℕ) (time : Time)
    (holder : Group)
    → vocal_to_proto
        (record (new_new_vocal (u32 offset) time (declared client p l)) { membership = holder })
        none
      ≡ ok (response client p l offset time, none)
unfolding vocal_to_proto geo_point_to_proto new_new_vocal
vocal_to_proto-declared client p l offset time holder =
    let ms = number_messages 0 (map from_declaration p.messages) in
    ground (
      arith,
      messages_to_proto-text ms (number_messages-text 0 _ (from_declarations-text p.messages)),
      number_messages-answered_from 0 p.messages,
    )

vocal_response-ok :
    (client : Client) (p : PostAddRequest) (l : ProtoGeoPoint) (offset : ℕ) (time : Time)
    (w : World)
    → vocal_response client (new_new_vocal (u32 offset) time (declared client p l)) w
      ≡ (w, ok (response client p l offset time))
unfolding vocal_response new_new_vocal
vocal_response-ok client p l offset time w =
    let post = new_new_vocal (u32 offset) time (declared client p l) in
    ground (arith, vocal_to_proto-declared client p l offset time post.membership)

publish_vocal-ok :
    (client : Client) (decl : PostDeclaration) (value : Bytes) (offset : ℕ) (time : Time)
    (w : World)
    → client.service.declaration_codec.marshal decl ≡ ok value
    → publish_vocal client decl (stored offset time) w ≡ (
      record w { inputs = with_post client value w.inputs },
      ok (new_new_vocal (u32 offset) time decl),
    )
unfolding publish_vocal Publisher.add_vocal push serialize answer_of
publish_vocal-ok client decl value offset time w h = ground arith

-- The world after the post was published and the log told so.
abbrev logged : Client → Bytes → ℕ → World → World
logged client value offset w =
    (log_debug client (codes "Added vocal %d.") (num (u32 offset) ∷ [])
      (record w { inputs = with_post client value w.inputs })).0

add_vocal-ok :
    (client : Client) (request : VocalAddRequest) (p : PostAddRequest) (l : ProtoGeoPoint)
    (value : Bytes) (offset : ℕ) (time : Time) (w : World)
    → request.post ≡ some p
    → p.location ≡ some l
    → All IsTextDeclaration p.messages
    → is_allowed client.service.publisher.membership client.user.rights ≡ true
    → client.service.declaration_codec.marshal (declared client p l) ≡ ok value
    → add_vocal client request (stored offset time) w
      ≡ (logged client value offset w, ok (response client p l offset time))
unfolding add_vocal log_debug new_new_vocal
add_vocal-ok client request p l value offset time w h k all allowed m =
    let published = record w { inputs = with_post client value w.inputs } in
    >>=-ok (convert_vocal client request) _ w w _ (convert_vocal-ok client request p l w h k all)
    ∙ >>=-ok (check_rights client client.service.publisher.membership (codes "publishing") []) _ w w
        tt
        (check_rights-grants client client.service.publisher.membership (codes "publishing") [] w
          allowed)
    ∙ >>=-ok (publish_vocal client (declared client p l) (stored offset time)) _ w published _
        (publish_vocal-ok client (declared client p l) value offset time w m)
    ∙ vocal_response-ok client p l offset time (logged client value offset w)

-- A request with a post, a location and text messages only, of a caller who may publish, whose
-- declaration is serialized and stored by Kafka: one message is added to the publisher's streams,
-- and the answer has the offset, cut to 32 bits, as its identifier, the stored time, the place of
-- the request and its messages, each a text of its declared size, which have
-- the identifiers 0, 1, 2 and so on, cut to 32 bits.
pub add_vocal_accepted :
    (client : Client) (request : VocalAddRequest) (p : PostAddRequest) (l : ProtoGeoPoint)
    (value : Bytes) (offset : ℕ) (time : Time) (w : World)
    → request.post ≡ some p
    → p.location ≡ some l
    → All IsTextDeclaration p.messages
    → is_allowed client.service.publisher.membership client.user.rights ≡ true
    → client.service.declaration_codec.marshal (declared client p l) ≡ ok value
    → ((add_vocal client request (stored offset time) w).1 ≡ ok (response client p l offset time))
      × ((add_vocal client request (stored offset time) w).0.inputs
          ≡ with_post client value w.inputs)
unfolding add_vocal log_debug
add_vocal_accepted client request p l value offset time w h k all allowed m =
    let e = add_vocal-ok client request p l value offset time w h k all allowed m in
    (ap (λ r. r.1) e, ap (λ r. r.0.inputs) e)

-- Whether a call ends with a value.
abbrev pub Succeeds {ℓ} : {A : Type ℓ} → Action A → World → Type ℓ
Succeeds {A} m w = (a : A) × ((m w).1 ≡ ok a)

convert_vocal-cases :
    (client : Client) (request : VocalAddRequest) (w : World)
    → ((decl : PostDeclaration) × (convert_vocal client request w ≡ (w, ok decl)))
      ⊎ (Refuses (convert_vocal client request) w internal
          ⊎ (convert_vocal client request w ≡ (w, panic)))
unfolding convert_vocal
convert_vocal-cases client request w =
    elim (Outcome-cases (vocal_declaration_from_proto request client.user none)) [
      | inl ((decl, none), e) ↦ inl (decl, ground arith)
      | inl ((decl, some f), e) ↦
          inr (inl (rw (e, convert_vocal) (reject-Refuses client internal _ _ w)))
      | inr (inl (f, e)) ↦ inr (inr (ground arith))
      | inr (inr e) ↦ inr (inr (ground arith))
    ]

-- A caller who may not publish never adds a post: its request panics, or is refused with Internal
-- or PermissionDenied, and nothing is added to the publisher's streams.
pub add_vocal_denied :
    (client : Client) (request : VocalAddRequest) (answer : Answer) (w : World)
    → is_allowed client.service.publisher.membership client.user.rights ≡ false
    → (add_vocal client request answer w ≡ (w, panic))
      ⊎ (Refuses (add_vocal client request answer) w internal
          ⊎ Refuses (add_vocal client request answer) w permission_denied)
unfolding add_vocal
add_vocal_denied client request answer w denied = elim (convert_vocal-cases client request w) [
  | inr (inr p) ↦ inl (ground arith)
  | inr (inl r) ↦ inr (inl (>>=-Refuses (convert_vocal client request) _ w internal r))
  | inl (decl, e) ↦ inr (
      inr (
        after-Refuses (convert_vocal client request) _ w decl permission_denied e (
          >>=-Refuses
            (check_rights client client.service.publisher.membership (codes "publishing") []) _ w
            permission_denied
            (check_rights-denies client client.service.publisher.membership _ _ w denied))))
]
