-- ===== src/Lib.antt =====
-- Verification of the au10 service.
--
-- The program is a publishing service of three processes that talk through Kafka streams. The
-- access point (accesspoint/lib) takes gRPC calls: it finds the caller's user by a session token,
-- checks rights, converts the protocol's records and hands new posts and chunks of messages to the
-- publisher (au10/publisher.go), which writes them to two streams. The publishing node
-- (publisher/main.go) reads these streams. The package au10 holds what the processes share: users
-- and rights, the log, posts and messages, the stream writer.
--
-- Prelude and its children: names of the libraries, Boolean tests, lists, maps as association
-- lists, and `Outcome`, what a Go call comes to: a value, an error value or a panic.
-- Text: byte strings; Text/Decimal: strconv on 32-bit decimals; Text/Format: Sprintf with %s and
-- %d; Text/Errors: Go's error values by what they print.
-- Au10/Group, Users, User, Post, Log, Writer, Publisher: au10/group.go, users.go, user.go, post.go
-- (with message.go, geo.go and the records of postdb/db.go), log.go, streamwriter.go and
-- publisher.go. Au10/Codec stands for encoding/json.
-- AccessPoint/Convertor, Status, Client, Requests, Reading, Server: accesspoint/lib/convertor.go,
-- client.go and service.go; AccessPoint/Methods: the other methods of service.go;
-- AccessPoint/Subscription: clientsubscription.go, two threads and a channel for each call, in any
-- interleaving, where the caller's cancelling and what `sendNext` returns come with the moves.
-- AccessPoint/Action is the state that a call passes along: the log's journal and the messages
-- given to the publisher's producers.
-- PostDb: postdb/db.go; its child Action is the state that database calls pass along, Table says what
-- a history of calls leaves in the database, Rows what a query selects of it, Connection is `Dial`.
-- Au10/Posts: au10/posts.go and query.go.
-- Au10/Reader: au10/streamreader.go, the goroutine that owns the subscriptions; Au10/Stopping: its
-- waiting for the goroutine around `Consume`, and Au10/Failing: its waiting for those it tells of an
-- error, both as step relations; Au10/Consuming: the claims and the goroutines that watch Sarama's
-- consumer. Au10/Feed: a subscription's channel of records between `serve` and its reader, with the
-- three orders of `Close` (log.go, posts.go, publisher.go), over any sequence of turns.
-- Au10/LogReader: the records of the log as they are read. Au10/Dialling: au10/service.go;
-- Au10/StreamConfig: au10/stream.go, what is set there of Sarama's configuration.
-- Cli: cli/client.go and cli/main.go; Cli/Session: `main` with its dialling and closing; Cli/Remotes
-- joins the client to the access point.
-- Node: publisher/main.go; the main loop runs over a list of events. Node/Broadcast joins the access
-- point, the node and the readers of the posts, Node/Uploading the access point, the node and the
-- database.
-- Process: `main` of accesspoint/main.go and publisher/main.go, as statements over a record of what
-- happened and of the deferred calls; what the constructors return and how the deferred calls come
-- out, which may panic, die with another goroutine or hang, come with it.
-- The children of these modules hold the theorems, and Examples holds them at concrete inputs.
--
-- Go values: a uint32 is a natural number, cut by `% 2 ^ 32` where the code converts or counts; a
-- float64 is its bit pattern, since the program only copies it; an instant is the number that
-- UnixNano gives, so instants outside its range are left out; a slice of pointers is a list, and
-- single pointers that may be nil are options. What the program does not implement is an argument:
-- Sarama's producer answers each message as the argument says, encoding/json is a codec, which the
-- delivery theorems assume to read back what it wrote (of texts, those in UTF-8: Text/Utf8), SendHeader, Send and the stubs that gRPC
-- generates are functions, and pgx is a driver that answers each call by the calls before it.
-- Fuel: the chunk loop of ReadMessage takes it, one round more than there are chunks. (No message
-- of the program has a Load that works, so the loop is never run.) The client's chunk loop takes one
-- more than the length of the text, and goes on by three bytes; `dial_or_panic` takes five, the
-- number of its attempts, and the decimal printer's is set from its argument.
--
-- Not modelled: what the command-line client reports of a call's progress, the parsing of flags, and
-- what Sarama, pgx and gRPC do behind the calls.
pub mod Prelude
pub mod Text
pub mod Au10
pub mod AccessPoint
pub mod PostDb
pub mod Node
pub mod Cli
pub mod Process
pub mod Examples
