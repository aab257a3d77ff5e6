-- ===== src/AccessPoint/Subscription/Counters.antt =====
-- accesspoint/lib/clientsubscription.go and service.go: the numbers of subscribers.
use au10_service.Prelude.{ℕ, zero, suc, ◌+◌, ◌≡◌, Bool, List, [], ◌∷◌, arith}
use au10_service.Au10.Post.{u32}
use au10_service.AccessPoint.Server.{Server, register_subscriber, unregister_subscriber}
use au10_service.AccessPoint.Subscription.{
  Kind, log_kind, posts_kind, MainPlace, Subscription, Sent, run_subscription, sender_move,
  main_move, Turn, Running, move_at, turn, turns, info_of, launched, registered, leaving, reporting,
  ended, call, main_turn, sender_turn,
}

-- Whether a call counts for the server, and whether for its kind.
abbrev pub counted : MainPlace → ℕ
counted launched = 0
counted (reporting e all) = 0
counted (ended result) = 0
counted _ = 1

abbrev pub counted_in_kind : MainPlace → ℕ
counted_in_kind launched = 0
counted_in_kind (registered all) = 0
counted_in_kind (leaving e) = 0
counted_in_kind (reporting e all) = 0
counted_in_kind (ended result) = 0
counted_in_kind _ = 1

abbrev pub of_kind : Kind → Kind → ℕ → ℕ
of_kind log_kind log_kind n = n
of_kind posts_kind posts_kind n = n
of_kind log_kind posts_kind n = 0
of_kind posts_kind log_kind n = 0

abbrev pub sum_by : (Subscription → ℕ) → List Subscription → ℕ
sum_by weight [] = 0
sum_by weight (t ∷ ts) = weight t + sum_by weight ts

abbrev pub weight : Subscription → ℕ
weight t = counted t.main

abbrev pub kind_weight : Kind → Subscription → ℕ
kind_weight kind t = of_kind kind t.kind (counted_in_kind t.main)

-- The counters beside `rest` calls of others.
record Counts (rest : ℕ) (rest_of : Kind → ℕ) (ts : List Subscription) (s : Server) : Type 0 where
  pub all : s.number_of_subscribers ≡ u32 (rest + sum_by weight ts)
  pub logs : info_of log_kind s ≡ u32 (rest_of log_kind + sum_by (kind_weight log_kind) ts)
  pub posts : info_of posts_kind s ≡ u32 (rest_of posts_kind + sum_by (kind_weight posts_kind) ts)

main_move-Counts :
    (cancelled skips : Bool) (t : Subscription) (ts : List Subscription) (s : Server) (rest : ℕ)
    (rest_of : Kind → ℕ)
    → Counts rest rest_of (t ∷ ts) s
    → Counts rest rest_of ((main_move cancelled skips t s).0 ∷ ts) (main_move cancelled skips t s).1
unfolding main_move register_subscriber unregister_subscriber
main_move-Counts cancelled skips t ts s rest rest_of v = record {
  all = ground arith;
  logs = ground arith;
  posts = ground arith;
}

sender_move-Counts :
    (sent : Sent) (t : Subscription) (ts : List Subscription) (s : Server) (rest : ℕ)
    (rest_of : Kind → ℕ)
    → Counts rest rest_of (t ∷ ts) s
    → Counts rest rest_of (sender_move sent t ∷ ts) s
unfolding sender_move
sender_move-Counts sent t ts s rest rest_of v = record {
  all = ground arith;
  logs = ground arith;
  posts = ground arith;
}

-- A move that keeps the counters right for its call, whatever else runs.
abbrev Keeps : (Subscription → Server → Subscription × Server) → Type 0
Keeps move =
    (t : Subscription) (ts : List Subscription) (s : Server) (rest : ℕ) (rest_of : Kind → ℕ)
    → Counts rest rest_of (t ∷ ts) s
    → Counts rest rest_of ((move t s).0 ∷ ts) (move t s).1

move_at-Counts :
    (i : ℕ) (move : Subscription → Server → Subscription × Server) (ts : List Subscription)
    (s : Server) (rest : ℕ) (rest_of : Kind → ℕ)
    → Keeps move
    → Counts rest rest_of ts s
    → Counts rest rest_of (move_at i move ts s).0 (move_at i move ts s).1
unfolding move_at
move_at-Counts i move [] s rest rest_of keeps v = v
move_at-Counts zero move (t ∷ ts) s rest rest_of keeps v = keeps t ts s rest rest_of v
move_at-Counts (suc i) move (t ∷ ts) s rest rest_of keeps v =
    let moved =
      move_at-Counts i move ts s (rest + weight t) (λ k. rest_of k + kind_weight k t) keeps
        (record {
          all = omega (arith, v.all);
          logs = omega (arith, v.logs);
          posts = omega (arith, v.posts);
        }) in
    record {
      all = omega (arith, moved.all);
      logs = omega (arith, moved.logs);
      posts = omega (arith, moved.posts);
    }

-- The numbers of subscribers of a server are those of the calls that count, cut to 32 bits.
abbrev pub AreCounted : Running → Type 0
AreCounted (ts, s) =
    (s.number_of_subscribers ≡ u32 (sum_by weight ts))
    × (info_of log_kind s ≡ u32 (sum_by (kind_weight log_kind) ts))
    × (info_of posts_kind s ≡ u32 (sum_by (kind_weight posts_kind) ts))

turn-Counts :
    (next : Turn) (ts : List Subscription) (s : Server)
    → Counts 0 (λ k. 0) ts s
    → Counts 0 (λ k. 0) (turn next (ts, s)).0 (turn next (ts, s)).1
unfolding turn run_subscription
turn-Counts (call client kind) ts s v = record {
  all = ground arith;
  logs = ground arith;
  posts = ground arith;
}
turn-Counts (main_turn i cancelled skips) ts s v =
    move_at-Counts i (main_move cancelled skips) ts s 0 (λ k. 0) (main_move-Counts cancelled skips)
      v
turn-Counts (sender_turn i sent) ts s v =
    move_at-Counts i (λ t s. (sender_move sent t, s)) ts s 0 (λ k. 0) (sender_move-Counts sent) v

turns-Counts :
    (schedule : List Turn) (ts : List Subscription) (s : Server)
    → Counts 0 (λ k. 0) ts s
    → Counts 0 (λ k. 0) (turns schedule (ts, s)).0 (turns schedule (ts, s)).1
unfolding turns
turns-Counts [] ts s v = v
turns-Counts (next ∷ rest) ts s v = turns-Counts rest _ _ (turn-Counts next ts s v)

-- If the numbers are right at first: in every interleaving of the threads of any calls, the server's
-- number of subscribers is that of
-- the calls between `RegisterSubscriber` and `UnregisterSubscriber`, and the number of each kind
-- is that of the calls of this kind between its two additions, all cut to 32 bits.
pub turns-AreCounted :
    (schedule : List Turn) (ts : List Subscription) (s : Server)
    → AreCounted (ts, s)
    → AreCounted (turns schedule (ts, s))
turns-AreCounted schedule ts s (all, logs, posts) =
    let v =
      turns-Counts schedule ts s
        (record { all = omega arith; logs = omega arith; posts = omega arith }) in
    (omega (arith, v.all), omega (arith, v.logs), omega (arith, v.posts))
