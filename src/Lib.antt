-- ===== src/Lib.antt =====
-- A verification library for the Go services of the game: its creature data, its battle engine, the
-- sessions and sockets that drive it, the records that replay it, the trades and collections of the profile
-- service, saves, accounts and access tokens, the gateway, matchmaking, the battle AI and the
-- generator of the catalogue.
--
-- The parts, their sources and how they interact:
--   Types       pkg/types/types.go: elements, the effectiveness matrix, the enumerations.
--               Types.Matchups has facts of the matrix.
--   Creatures   pkg/creatures: Model is model.go and the catalogue of load.go, Stats is stats.go
--               (ComputeStats, LevelForXP), Load is load.go behind the JSON decoder, Samples is
--               test data.
--   Engine      services/battle/internal/engine: Rng is rng.go, Battler is battler.go, Status is
--               status.go, Damage is damage.go. Battle is battle.go: Battle.Actions has its actions
--               and events, Battle.Exchange models executeMove and applyRiders as a function of the
--               two active battlers (and skillFor of registry.go), Battle models the turn
--               (ResolveTurn), with Battle.Safety for what every turn keeps and Battle.Digest for its
--               hash of the state.
--   Persistence services/battle/internal/persistence: the records of matches, and Replay and Verify,
--               which build fresh battlers and run the engine on the recorded intents.
--   Session     services/battle/internal/netcode/session.go: Run as a state machine that takes one
--               input of its select at a time. The battle service wires the observers onTurn and
--               onEnd to a recorder; here they are the lists of their calls.
--               Session.Broadcast is what a session sends (broadcast.go, messages.go,
--               memtransport.go), Session.Live is Run together with what it sends, and
--               Session.Socket is ws.go: the maps of connections, the read pumps and the channel
--               of Submit make a room, whose events come in any order.
--   Demo        services/battle/cmd/demo/main.go: the bots, which choose by Ai on a view of the two
--               sides and submit to a session.
--   Ai          services/battle/internal/ai/ai.go: the choice of an action, by scores that are
--               doubles.
--   Profile     services/profile/internal: Repo is the interface of collection.go as a record of
--               operations with its laws IsRepo, which Trade (trade.go) and Collection
--               (collection.go, evolve.go) take as a parameter, and which MemRepo (repo_memory.go)
--               implements. PgRepo (repo_postgres.go) is the repository over a database that has
--               one operation for each SQL statement. Handlers (handlers.go) is the HTTP adapter
--               over the collection and the trades.
--               Profile.Save is save.go: Encode, Decode and the migrations, over encoding/json and
--               SHA-256 as parameters. Profile.Listing is List and ListCreatures, the pages of a
--               collection.
--   Generator   tools/creaturegen/main.go: the generated catalogue, from its xorshift draws to the
--               families, up to the JSON file. The largest capacity that make accepts is an
--               argument. Generator.Shares is about distribute.
--   Token       pkg/token/jwt.go: signing and verifying access tokens, over a codec of encoding/json,
--               base64url and HMAC.
--   Auth        services/auth/internal: Store is the interface of service.go with its laws IsStore,
--               which Service (service.go, tokens.go) takes as a parameter and MemStore
--               (store_memory.go) implements, as PgStore (store_postgres.go, with pkg/db/pgerr.go)
--               does over a database; Password is password.go, Handlers is handlers.go.
--               Service.Steps carries an invariant of the store through every call, and Service.Race
--               has Refresh in two steps, for calls that interleave.
--   Gateway     services/gateway: Gateway is ServeHTTP of internal/gateway.go over a verifier and a
--               limiter, Limiter is the in-memory limiter, and Main is cmd/main.go, which verifies
--               with Token.
--   Matchmaking services/matchmaking/internal/matcher.go: the bands and the greedy pairing of a pool.
--               The loops over i and j go down the rest of the sorted group, with the indices
--               of `used` kept; sort.Slice and the order of a range over the groups are arguments.
--               Matchmaking.Fair says which matches are allowed in ratings and times alone.
--
-- How the code corresponds to the model:
--   * A method that mutates its receiver is a function that returns the state after it; the
--     functions keep the Go names in snake_case. A large function is split where it branches, and
--     each piece names the function it is part of.
--   * A method under a mutex is one step. Clients' calls of the trade manager are the type `Call`,
--     and `run` performs any sequence of them.
--   * A panic is `none` of an Option; an error value is `err` of a Result or `some` of an
--     Option Error.
--   * Battlers of the two sides are different objects in the source, so an attack is a function of
--     two values, written back to both sides after it.
--   * Go's int is the unbounded ℤ; its division truncates (`quot`). int8 boosts keep their
--     wrap-around (`wrap8`), the generator's uint64 is a number modulo 2^64.
--   * float64 is an interface, `Float64`: the operations that the code calls, of which theorems use
--     two properties (ScalesNonneg, IsStrictOrder). Thousandths are an instance of both. Type
--     multipliers and STAB are dyadic and are held exactly, in quarters and halves.
--   * A Go map is a `Dict`; a range over a map is a list in the order of one iteration.
--   * LevelForXP runs on 100 rounds of fuel, and a level is at most 100. It is modelled for
--     experience that is not negative. The client of Profile.Listing.Walk asks for pages on fuel,
--     and one more than the number of stored creatures is enough. No other loop needs fuel.
--   * The goroutines of a session's sockets and Run are a sequence of events; a message is sent
--     with the step that sends it. An intent that finds the channel full waits, and counts as
--     received when there is space. Handlers get a matched route, the caller and the body.
--   * PostgreSQL and pgx are records of operations, with laws that state what a statement that
--     succeeds has done, and that a transaction commits or rolls back (IsTransactional, IsStored).
--   * Cryptography, encodings and fmt are records of functions with named laws (IsCodec, IsKdf,
--     IsJson); the draws of generators and clocks are arguments of the call that makes them.
--
-- Not modelled: the sockets, the HTTP server and the JSON codec themselves, the connection pool
-- (pkg/db/pool.go), the reverse proxy, the entry points and the replay tool, which wire the modelled
-- parts together, read files and print.
pub mod Prelude
pub mod Types
pub mod Creatures
pub mod Engine
pub mod Profile
pub mod Generator
pub mod Matchmaking
pub mod Persistence
pub mod Session
pub mod Ai
pub mod Demo
pub mod Auth
pub mod Gateway
pub mod Token
