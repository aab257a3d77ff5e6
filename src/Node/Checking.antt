-- ===== src/Node/Checking.antt =====
-- publisher/main.go, `checkMessage`: who may add to a message.
use au10_service.Prelude.{
  ◌≡◌, subst, ◌↔◌, inl, inr, true, List, arith, Bool-cases, ok, Outcome-cases, subst,
}
use au10_service.Au10.Group.{Group, is_allowed}
use au10_service.Au10.User.{User}
use au10_service.Au10.Users.{get_user}
use au10_service.Au10.Post.{Post}
use au10_service.Au10.Posts.{get_vocal}
use au10_service.Au10.Publisher.{PublisherMessageData}
use au10_service.PostDb.Action.{History}
use au10_service.PostDb.{PgDb}
use au10_service.Node.{check_message, passed}

module _ (db : PgDb) (users : List User) (membership : Group) (message : PublisherMessageData)
    (history : History) where
  -- The author is known and may use posts, the post exists, and its membership allows the author.
  abbrev pub MayAdd : User → Type 0
  MayAdd user =
      (get_user users message.author ≡ ok user)
      × (is_allowed membership user.rights ≡ true)
      × ((post : Post) × (get_vocal db history message.post ≡ ok post)
          × (is_allowed post.membership user.rights ≡ true))

  -- A chunk is accepted exactly when its author is known and may use posts, and the post exists and
  -- lets the author in.
  pub check_message_iff :
      (user : User)
      → (check_message db users membership message history ≡ passed user) ↔ MayAdd user
  unfolding check_message
  check_message_iff user = (sound, complete)
    where
      sound : check_message db users membership message history ≡ passed user → MayAdd user
      sound h = elim (Outcome-cases (get_user users message.author)) [
        | inr (inl (e, unknown)) ↦ absurd (ground arith)
        | inr (inr lost) ↦ absurd (ground arith)
        | inl (author, known) ↦ elim (Bool-cases (is_allowed membership author.rights)) [
          | inr denied ↦ absurd (ground arith)
          | inl posts ↦ elim (Outcome-cases (get_vocal db history message.post)) [
            | inr (inl (e, missing)) ↦ absurd (ground arith)
            | inr (inr lost) ↦ absurd (ground arith)
            | inl (post, found) ↦ elim (Bool-cases (is_allowed post.membership author.rights)) [
              | inr denied ↦ absurd (ground arith)
              | inl inside ↦
                  let same : author ≡ user = ground arith in
                  subst MayAdd same (known, posts, (post, found, inside))
            ]
          ]
        ]
      ]

      complete : MayAdd user → check_message db users membership message history ≡ passed user
      complete (known, posts, (post, found, inside)) =
          rw (check_message, known, posts, found, inside)
