-- ===== src/AccessPoint/Reading.antt =====
-- accesspoint/lib/client.go: `getMessage` and `ReadMessage`. A message is what the interface
-- au10.Message offers: its size, and `Load`, which fills the buffer that it is given. What the
-- caller's stream says to a chunk is an argument. The loop takes fuel.
pub mod Messages
use au10_service.Prelude.{
  ℕ, zero, suc, ◌+◌, Option, none, some, List, [], ◌∷◌, ◌++◌, leb, if◌then◌else◌, Outcome, ok, err,
  panic,
}
use au10_service.Text.{Bytes, codes}
use au10_service.Text.Errors.{Error, error_text, text}
use au10_service.Text.Format.{str, num}
use au10_service.Au10.Post.{u32, MessageData}
use au10_service.AccessPoint.Status.{Status, internal}
use au10_service.AccessPoint.Action.{World, Action, ◌>>=◌, ◌>>◌, return}
use au10_service.AccessPoint.Client.{Client, reject, check_rights}
use au10_service.AccessPoint.Requests.{parse_message_id}

pub record Message : Type 0 where
  pub size : ℕ  -- uint32
  pub load : Bytes → ℕ → Outcome Error Bytes

-- `au10.NewMessage`; its `Load` is not implemented.
abbrev pub new_message : MessageData → Message
new_message source = record {
  size = source.size;
  load = λ buffer offset. err (text (codes "not implemented"));
}

pub record MessageReadRequest : Type 0 where
  pub post_id : Bytes
  pub message_id : Bytes

-- It returns `nil, nil` in the end.
unfoldable pub get_message : Client → MessageReadRequest → Action (Option Message)
get_message client request = do
  _ ← parse_message_id client request.message_id request.post_id
  check_rights client client.service.posts_membership (codes "posts") []
  return none

-- The chunks that were sent, beside the result; `none` means that the fuel ran out.
abbrev pub Reading : Type 0
Reading = List Bytes × Option (World × Outcome Status (Unit {0}))

zeros : ℕ → Bytes
zeros zero = []
zeros (suc n) = 0 ∷ zeros n

abbrev pub chunk_error : Client → MessageReadRequest → Bytes → ℕ → Error → Action (Unit {0})
chunk_error client request format offset e =
    reject client internal format
      (str request.post_id ∷ str request.message_id ∷ num offset ∷ str (error_text e) ∷ [])

-- The loop, at an offset, with the buffer as the round before left it.
unfoldable pub read_chunks :
    ℕ
    → Client
    → MessageReadRequest
    → Message
    → (Bytes → Option Error)
    → ℕ
    → Bytes
    → List Bytes
    → World
    → Reading
read_chunks zero client request message send offset buffer sent w = (sent, none)
read_chunks (suc fuel) client request message send offset buffer sent w =
    let next = λ (filled : Bytes).
      read_chunks fuel client request message send (u32 (offset + client.service.max_chunk_size))
        filled (sent ++ filled ∷ []) w in
    if leb offset message.size
    then elim (message.load buffer offset) [
      | err e ↦ (
        sent,
        some (
            chunk_error client request (codes "failed to load chunk \"%s\"/\"%s\"/%d: \"%s\"")
              offset e w),
      )
      | panic ↦ (sent, some (w, panic))
      | ok filled ↦ elim (send filled) [
        | some e ↦ (
          sent,
          some (
              chunk_error client request (codes "failed to send chunk \"%s\"/\"%s\"/%d: \"%s\"")
                offset e w),
        )
        | none ↦ next filled
      ]
    ]
    else (sent, some (w, ok tt))

-- What `ReadMessage` does with the message; a nil one is read for its size, which is a panic.
unfoldable pub read_from :
    ℕ
    → Client
    → MessageReadRequest
    → (Bytes → Option Error)
    → World × Outcome Status (Option Message)
    → Reading
unfolding zeros
read_from fuel client request send (w, err s) = ([], some (w, err s))
read_from fuel client request send (w, panic) = ([], some (w, panic))
read_from fuel client request send (w, ok none) = ([], some (w, panic))
read_from fuel client request send (w, ok (some message)) =
    read_chunks fuel client request message send 0 (zeros client.service.max_chunk_size) [] w

unfoldable pub read_message :
    ℕ → Client → MessageReadRequest → (Bytes → Option Error) → World → Reading
read_message fuel client request send w =
    read_from fuel client request send (get_message client request w)
