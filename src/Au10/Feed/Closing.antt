-- ===== src/Au10/Feed/Closing.antt =====
-- au10/log.go and posts.go: what the order of the steps of `Close` does.
use au10_service.Prelude.{
  ◌≡◌, refl, sym, ap, subst, ◌∙◌, true, false, none, List, [], ◌∷◌, arith, sym, subst, ◌∙◌, ap,
}
use au10_service.Au10.Feed.Order.{served-same, feed_turn_live}
use au10_service.Au10.Reader.{Answers}
use au10_service.Au10.Feed.Opening.{IsOpen}
use au10_service.Au10.Feed.{
  Feed, log_close, posts_close, singleton_close, FeedTurn, arrives, stops, closes, feed_turn,
  feed_turns, is_served, arrive, take, close_step, is_free, Closing,
}

module _ {A : Type 0} where
  -- An open subscription to the log, or one of the node's two streams, closes the records' channel
  -- first: if a record comes before it has closed the stream's subscription, `serve` sends to the closed channel,
  -- which is a panic of the process.
  pub log_close-breaks :
      (f : Feed A) (answers : Answers) (m : A)
      → IsOpen f
      → ((feed_turns (closes answers ∷ arrives m ∷ []) (log_close, f)).1.broken ≡ true)
        × ((feed_turns (closes answers ∷ arrives m ∷ []) (singleton_close, f)).1.broken ≡ true)
  unfolding feed_turns feed_turn close_step arrive
  log_close-breaks f answers m v = (ground arith, ground arith)

  -- `serve` waits to hand over a record that no one will take, and `Close` waits for `serve`.
  abbrev IsStuck : Closing A → Type 0
  IsStuck c = (c.0 ≡ posts_close) × (is_free c.1.held ≡ false) × (c.1.receiving ≡ false)

  feed_turn-IsStuck : (turn : FeedTurn A) (c : Closing A) → IsStuck c → IsStuck (feed_turn turn c)
  unfolding feed_turn arrive take
  feed_turn-IsStuck turn c stuck = ground arith

  feed_turns-IsStuck :
      (turns : List (FeedTurn A)) (c : Closing A) → IsStuck c → IsStuck (feed_turns turns c)
  unfolding feed_turns
  feed_turns-IsStuck [] c stuck = stuck
  feed_turns-IsStuck (turn ∷ turns) c stuck =
      feed_turns-IsStuck turns (feed_turn turn c) (feed_turn-IsStuck turn c stuck)

  -- `serve` hands over records, and nothing is in its hands.
  record IsWilling (f : Feed A) : Type 0 where
    pub whole : f.broken ≡ false
    pub free : is_free f.held ≡ true
    pub served : is_served f ≡ true
    pub open_records : f.records_closed ≡ false

  first-IsWilling :
      (f : Feed A) (m : A)
      → IsWilling f
      → f.records ≡ none
      → IsWilling (arrive m f)
        × (is_free (arrive m f).records ≡ false)
        × ((arrive m f).receiving ≡ f.receiving)
  unfolding arrive
  first-IsWilling f m v empty =
      let (same, known) = served-same f.id m f.stream in
      rw (v.free, v.served, v.open_records, empty)
        (
          record { whole = v.whole; free = v.free; served = same ∙ v.served; open_records = refl },
          refl,
          refl,
        )

  second-IsStuck :
      (f : Feed A) (n : A)
      → IsWilling f
      → is_free f.records ≡ false
      → f.receiving ≡ false
      → IsStuck (posts_close, arrive n f)
  unfolding arrive
  second-IsStuck f n v full idle =
      ground (arith, v.whole, v.free, v.served, v.open_records, full, idle)

  two-IsStuck :
      (f : Feed A) (m n : A)
      → IsOpen f
      → IsStuck (feed_turn (arrives n) (feed_turn (arrives m) (feed_turn stops (posts_close, f))))
  two-IsStuck f m n v =
      let idle : Feed A = record f { receiving = false } in
      let (willing, full, unread) =
        first-IsWilling idle m
          (record {
            whole = v.whole;
            free = ground (arith, v.free);
            served = v.served;
            open_records = v.open_records;
          })
          v.empty in
      subst IsStuck
        (sym (
          ap (λ c. feed_turn (arrives n) (feed_turn (arrives m) c))
            (feed_turn_live stops (posts_close, f) v.whole)
          ∙ (ap (feed_turn (arrives n)) (feed_turn_live (arrives m) (posts_close, idle) v.whole)
              ∙ feed_turn_live (arrives n) (posts_close, arrive m idle) willing.whole)))
        (second-IsStuck (arrive m idle) n willing full unread)

  -- An open subscription to the posts: if its reader has stopped, as after a failed `Send`, and two more posts come, then
  -- `Close` never gets through its first step, whatever comes next.
  pub posts_close-hangs :
      (f : Feed A) (m n : A) (turns : List (FeedTurn A))
      → IsOpen f
      → (feed_turns (stops ∷ arrives m ∷ arrives n ∷ turns) (posts_close, f)).0 ≡ posts_close
  unfolding feed_turns
  posts_close-hangs f m n turns v =
      (feed_turns-IsStuck turns
        (feed_turn (arrives n) (feed_turn (arrives m) (feed_turn stops (posts_close, f))))
        (two-IsStuck f m n v)).0
