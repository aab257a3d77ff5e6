-- ===== src/Au10/Post/Messages.antt =====
-- au10/post.go.
-- The messages of a new post and of a post from the database.
use au10_service.Prelude.{
  ℕ, zero, suc, ◌+◌, ◌≤◌, ◌≡◌, refl, ap, ◌↔◌, inl, inr, some, List, [], ◌∷◌, map, arith, ◌==◌,
  ==_iff, Bool-cases, length, get_elem?, All, ok, >>=-ok_inv, ap,
}
use au10_service.Au10.Post.{
  Time, MessageDeclaration, MessageData, PostDeclaration, DbMessage, message_kind_text,
  number_messages, new_new_vocal, db_messages, new_db_vocal, DbPost, Post, new_membership,
}

number_messages-get_elem? :
    (i : ℕ) (ms : List MessageDeclaration) (k : ℕ) (m : MessageDeclaration)
    → get_elem? ms k ≡ some m
    → i + length ms ≤ 4294967296
    → get_elem? (number_messages i ms) k
      ≡ some (record { id = i + k; kind = m.kind; size = m.size })
unfolding number_messages
number_messages-get_elem? i [] k m h fits = ground arith
number_messages-get_elem? i (d ∷ ms) zero m h fits = ground arith
number_messages-get_elem? i (d ∷ ms) (suc k) m h fits =
    ground (arith, number_messages-get_elem? (i + 1) ms k m)

length-number_messages :
    (i : ℕ) (ms : List MessageDeclaration) → length (number_messages i ms) ≡ length ms
unfolding number_messages
length-number_messages i [] = refl
length-number_messages i (d ∷ ms) = ap suc (length-number_messages (i + 1) ms)

-- A new post has as many messages as were declared; the one at index k has identifier k and the
-- kind and size of the k-th declaration, as long as at most 2^32 are declared.
pub new_new_vocal-messages :
    (id : ℕ) (time : Time) (decl : PostDeclaration) (k : ℕ) (m : MessageDeclaration)
    → length decl.messages ≤ 4294967296
    → get_elem? decl.messages k ≡ some m
    → (length (new_new_vocal id time decl).content.messages ≡ length decl.messages)
      × (get_elem? (new_new_vocal id time decl).content.messages k
          ≡ some (record { id = k; kind = m.kind; size = m.size }))
unfolding new_new_vocal
new_new_vocal-messages id time decl k m fits h = (
  length-number_messages 0 decl.messages,
  ground (arith, number_messages-get_elem? 0 decl.messages k m h (omega arith)),
)

abbrev pub IsText : DbMessage → Type 0
IsText m = m.kind ≡ message_kind_text

abbrev from_db : DbMessage → MessageData
from_db m = record { id = m.id; kind = m.kind; size = m.size }

db_messages_ok : (ms : List DbMessage) → All IsText ms → db_messages ms ≡ ok (map from_db ms)
unfolding db_messages
db_messages_ok [] all = refl
db_messages_ok (m ∷ ms) all = ground (arith, db_messages_ok ms all.1)

db_messages_sound :
    (ms : List DbMessage) (out : List MessageData)
    → db_messages ms ≡ ok out
    → All IsText ms × (out ≡ map from_db ms)
unfolding db_messages
db_messages_sound [] out h = (tt, ground arith)
db_messages_sound (m ∷ ms) out h = elim (Bool-cases (m.kind == message_kind_text)) [
  | inl e ↦
      let (done, (same, found)) =
        >>=-ok_inv (db_messages ms)
          {next = λ (done : List MessageData).
            ok (record { id = m.id; kind = m.kind; size = m.size } ∷ done)}
          (rw e at h) in
      let (all, eq) = db_messages_sound ms done found in
      (((==_iff m.kind message_kind_text).0 e, all), ground arith)
  | inr n ↦ ground arith
]

-- The post that a record of the database describes.
abbrev pub db_vocal : DbPost → Post
db_vocal source = record {
  membership = new_membership [] [];
  content = record {
    id = source.id;
    time = source.time;
    author = source.author;
    location = some (record { latitude = source.latitude; longitude = source.longitude });
    messages = map from_db source.messages;
  };
}

-- A record of the database is accepted exactly when each of its messages is a text, and what
-- comes of it has the record's identifier, time, author and place, and its messages in order.
pub new_db_vocal_iff :
    (source : DbPost) (post : Post)
    → (new_db_vocal source ≡ ok post) ↔ (All IsText source.messages × (post ≡ db_vocal source))
unfolding new_db_vocal
new_db_vocal_iff source post = (sound, complete)
  where
    sound : new_db_vocal source ≡ ok post → All IsText source.messages × (post ≡ db_vocal source)
    sound h =
        let (out, (same, found)) = >>=-ok_inv (db_messages source.messages) h in
        let (all, eq) = db_messages_sound source.messages out found in (all, ground arith)

    complete : All IsText source.messages × (post ≡ db_vocal source) → new_db_vocal source ≡ ok post
    complete (all, eq) = ground (arith, db_messages_ok source.messages all)
