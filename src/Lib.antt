-- ===== src/Lib.antt =====
-- Verification of rps-backend, a server for Rock-Paper-Scissors over WebSockets.
--
-- The program. internal/rules/rules.go is the game itself: a state of two moves, three counters, a
-- status and an outcome, and pure functions that return the next state or an error.
-- internal/store/store.go keeps players and games in SQLite (internal/store/schema.sql), and
-- secret.go hashes their secrets. internal/hub holds the live connections: conn.go is the outbound
-- queue of one connection, hub.go the registry of connections, their attachment to games, the
-- broadcasts and the expiry of players and games, snapshot.go what each recipient is shown, and
-- actions.go the six actions of a client. internal/sweeper/sweeper.go expires what was inactive too
-- long. A client action goes through `Handle`: it reads the game from the store under the lock of
-- the game, applies a rule, saves the game in one transaction, replies, and tells the game's
-- connections. internal/ws/ws.go carries a connection over a WebSocket: it reads messages and hands
-- them to `Handle`, writes what is queued, sends pings, and ends with a close handshake.
-- internal/httpapi/httpapi.go creates players and games, answers health checks and allows other
-- origins. internal/config/config.go reads the settings, and cmd/rps-backend/main.go chooses the
-- command and opens and closes all of it in order.
--
-- The files.
--   Prelude, Prelude/Tests, Prelude/Lists, Prelude/Int: Boolean tests, equality as an interface, lists,
--     maps and integers. Threads: goroutines that take turns, with lemmas on their number.
--   Errors: Go's `error` values, and actions that thread a state and may return an error.
--   Rules/Defs: rules.go, a function for each function, under its name in lower case.
--     Rules/Round (one round), Rules/Machine (the table of transitions of docs/SPEC.md 6.2 as a step
--     relation), Rules/Invariant (valid states, and counting rounds) and Rules/Rematch are proofs.
--   Store/Defs: the rows and the single statements of store.go. Store/Tx: `Tx`, `UpdateGame`,
--     `SaveGame`, `CreateGame`. Store/Players: `CreatePlayer` and `freeDiscriminator`. Store/Open:
--     `Open`, `Migrate` and `Close`, with its proofs in Store/Opened. Store/Columns: the expiry queries
--     on the texts that the columns hold. Store/Free, Store/Ids, Store/Create, Store/Save, Store/Adds,
--     Store/Hosted and Store/Reads are proofs.
--   Time/Format: `formatTime`. Time/Parse: `parseTime`. Time/Calendar: the dates that both go by.
--     Time/Clock: internal/clock/clock.go. Time/Order, Time/Sorting and Time/Roundtrip are proofs.
--   Hub/Conn: conn.go. Hub/Defs: hub.go and snapshot.go. Hub/Support: the helpers and the
--     payload types of actions.go. Hub/Actions: its handlers. Hub/Dispatch: `Handle`,
--     `replyErr` and the tables of actions. Hub/Expiry: `ExpirePlayer`, `ExpireGame`,
--     `SweepOnce` and the sweeper's `Run`. Hub/Attach, Hub/Keeps, Hub/Outcome, Hub/Connect and
--     Hub/Handle are proofs on attachments, Hub/Life on all that the server does with the hub as a
--     step relation, Hub/Expired on `ExpireGame`, Hub/Erased on `ExpirePlayer`, Hub/Queue on the
--     outbound queue of one connection, Hub/Queues on the queues of all, and Hub/Secrecy on
--     snapshots. Hub/Locks is `lockGame`, as steps of the goroutines that call it; Hub/Counted and
--     Hub/Exclusion are its proofs. Hub/Reply, Hub/Answer and Hub/Once are proofs on the replies that
--     a client is sent.
--     Generic in the predicate on the hub that is preserved are Hub/Steps (what the shared steps
--     preserve, in Core, Shared, Endings and Rows), Hub/Follows (what an action may make of the game
--     that it read), Hub/Invariant and Hub/Enter (the actions), Hub/Sweep (the sweeper and the
--     shutdown) and Hub/Served (all operations of the server, which Hub/Operations lists).
--   Server/History: the operations of the server in any order, where what happens while one waits is
--     again operations of the server. Server/Rows, Server/Posts, Server/Runs, Server/Sound and
--     Server/Descent are proofs on the table of games over such a history.
--   Ws/Writer: `writeLoop` and `pingLoop` of ws.go. Ws/Reader: `readLoop`, `ServeHTTP` and its timer.
--     Ws/Origins: `AcceptOptions`, with its proof. Ws/Group: `New` and `Wait`, with the handlers of all
--     connections as a step relation. Ws/Queued and Ws/Order (what the peer is sent), Ws/Delivery and
--     Ws/Session (a whole connection) are proofs.
--   Api/Names: the rule for usernames. Api/Defs: the handlers of httpapi.go. Api/Routes: `New` and
--     `corsMiddleware`. Api/Players, Api/Games, Api/Cors, Api/Usernames and Api/Login (the handlers
--     and the hub together) are proofs.
--   Strings/Trim, Strings/Split: the functions of Go's package strings that the code uses, on bytes.
--   Config/Origins: `ParseOrigins`, with its proofs. Config/Defs: `Default` and `Load`. Config/Laws:
--     proofs.
--   Main/Defs: `main`, `healthcheck` and `serve` of main.go. Main/Wiring: what `serve` makes of the
--     configuration, with its proof. Main/Health and Main/Shutdown are proofs.
--   Rules/Tests, Store/Tests, Time/Tests, Hub/Tests, Hub/Scenario, Server/Tests, Ws/Tests, Api/Tests,
--   Config/Tests and Main/Tests run the definitions and the theorems on small inputs.
--
-- How the model stands to the code.
--   Moves, statuses, outcomes and seats are Go strings; they are data types here, since the CHECK
--   clauses of schema.sql let no other text into a row. `no_move` is the zero value "".
--   An id of a player or a game is a number, and 0 is "" or NULL. Names, secrets and payloads are
--   lists of bytes. An instant is a number, of nanoseconds since the beginning of the year 0 in UTC
--   where it is printed; the statements of Store/Defs compare instants, those of Store/Columns their
--   texts. Texts are read back in the form that the program writes: in UTC, with two digits for an hour
--   and a point before the fraction. Counters are unbounded, where Go's `int` has 64 bits.
--   The database is two lists of rows and a list of Booleans that says which statements to come, BEGIN
--   and COMMIT among them, fail for a reason of the database's own. Reads, inserts, updates and
--   deletes check the keys, the UNIQUE constraint and the CHECK on the discriminator, and ON DELETE
--   SET NULL is written out. A file that is opened has its tables or not yet; whether the driver takes
--   the name of the database is a parameter.
--   A pointer to a connection is a number, and `conns` is the memory that it refers to. `gameID` and
--   `seat` of a connection are one field, `closeOnce` and the channel `closing` another.
--   Goroutines: a handler is a function of the hub. Wherever it waits for the lock of a game, what
--   other goroutines do meanwhile is an argument, any function on the hub; under the lock it runs
--   on its own. The lock itself is in Hub/Locks. The sweeper holds no lock of a game but while it
--   closes or deletes one, and what others do is an argument wherever it holds none. In Server/History
--   these arguments are no longer arbitrary: they are made of operations of the server themselves, to
--   any depth; the field `seen` of the hub, which is not in the code, is the table of games as somebody
--   saw it at one of these moments. Nor is the field `taken` of a connection: what the transport has
--   taken off its queue.
--   The loops of a connection: a turn is a function of what `select` chose and of how the call of the
--   WebSocket library ended. `send` tests `closing` and queues in one step. Where a close request of
--   another goroutine comes in between, the message lands later, even after the writer has drained the
--   queue: this second half, `enqueue`, is an operation of its own, in Hub/Operations, Hub/Life and
--   Ws/Writer. A read is given with what others do before it returns. The address of the request is one
--   that `ServeMux` does not redirect.
--   `serve` of main.go is the list of its stages, run on a process that says what is open and how far the
--   WebSocket handlers have come; between them other goroutines do anything with the hub. Shutdown and
--   the wait for connections end, by themselves or by their time limit.
--   A request's body is what `MaxBytesReader` leaves of it. Durations are integers of any size. White
--   space is what `unicode.IsSpace` says, found by its bytes in UTF-8.
--   Decoding of JSON bodies and base64 are fields of `Library`, the parsing of flags, durations and log
--   levels fields of `Platform`; `url.Parse` is a parameter of Ws/Origins and `json.Unmarshal` of an
--   envelope one of Ws/Reader.
--   SHA-256 and json.Unmarshal of payloads are fields of the record `External`; a new id and the random
--   discriminators are arguments, and a property that relies on them says so.
--
-- Loops and bounds. The first loop of `CreatePlayer` runs 20 rounds, by recursion on the rounds left.
--   Its second loop and the loop of `detach` go round again only when another goroutine has
--   interfered while they waited: they recur on the list of those interferences, any finite list,
--   and no fuel runs out. Once the list is used up the loop ends as the code does: the attachment
--   read is still there, and the discriminator found free is still free. All else is recursion on
--   lists; the year of a day is searched in as many rounds as there are days, and each year takes at
--   least one of them.
--
-- Not modelled. The HTTP client and the server of Go's package net/http, signals, tickers and timers,
--   other than by what they make the code do; the JSON text of messages; logging; cancelled contexts
--   other than as a failing statement; a handle of the database that is used after it was closed; the
--   other forms of an instant that `time.Parse` takes.
mod Prelude
pub mod Threads
pub mod Errors
pub mod Rules
pub mod Store
pub mod Strings
pub mod Hub
pub mod Ws
pub mod Api
pub mod Config
pub mod Time
pub mod Main
pub mod Server
