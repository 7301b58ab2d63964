-- ===== src/Lib.antt =====
-- Verification of tac-os: the database and its server, the broker, the target service with its client
-- of the database, the window server, the map application and the marker detector.
--
-- The parts, and where they are:
-- * server/dbms is an in-memory SQL executor. Dbms/Lexer.antt is lexer.go (`lex`), Dbms/Parser is
--   parser.go (`parse`), Dbms/Table is the methods of `table` in database.go (`columnIndex`,
--   `checkType`, `insert`, `selectRows`, `updateRows`) and Dbms/Database.antt is `Execute`, with
--   the tables as its state. Dbms/Value.antt and Dbms/Statement.antt are the types. `Execute`
--   parses a statement, and then hands it to a method of the table.
-- * Two programs stand before it. Dbms/Frame.antt is `readFrame` and `writeFrame`, and
--   Dbms/Service.antt with Dbms/Service/Executor.antt `executor.query` and `executor.execute`, of
--   internal/server/protocol.go; Dbms/Session.antt is `handle` of internal/server/server.go, which
--   joins them for one connection, Dbms/Server.antt `Serve` and `Close` with the goroutines of all
--   connections, and Dbms/Server/Listen.antt `Listen`. Dbms/Cli is internal/cli/cli.go:
--   `readStatement`, `printResult` and `Run`.
-- * broker is publish and subscribe over lines of text. Broker/Subscribers.antt is `subscribe`,
--   `remove` and `publish` of broker/main.go, with the map of subscribers as the state, and
--   Broker/Lines.antt is `validTopic` and `handle`; Broker/Tidy.antt has the runs, as steps of any
--   clients.
-- * window-manager keeps one window. WindowManager/Protocol.antt is protocol.go,
--   WindowManager/Backend.antt backend.go, and WindowManager/Server is server.go: the struct
--   `Server`, `handleRequest` with a function for each command, `pollWindowEvents`,
--   `broadcastEvent`, and `Run` as a step relation.
--   WindowManager/Headless.antt is the backend of window-manager/backend/headless; its child
--   Blend.antt is `rgba` and the arithmetic of `blend`, Pixels.antt `fill`, `blend` and the loops of
--   `DrawImage` and `DrawCircle`, and Blend/Exact.antt what blending should give.
-- * target-service keeps the last observation of each target. TargetService/Store.antt is
--   `parseObservation`, `save`, `handleMessage` and the loop of `run` of target-service/main.go. It
--   has a client of the database. TargetService/Client.antt is `Exec` and `Close` of
--   target-service/dbclient/client.go, with the connection as the state, and
--   TargetService/Validate.antt is its `validate`. TargetService/SqlString.antt is `SQLString` of
--   target-service/dbclient/client.go; TargetService/Framing.antt relates it to `readStatement`.
-- * prototypes/marker-detect finds markers. MarkerDetect/Detection.antt is marker/marker.go and
--   `validate` of ipc/protocol.go, MarkerDetect/Normalize.antt is `Normalize` of ipc/source.go. In
--   MarkerDetect/Ipc, Request.antt is `parseRequest` and Response.antt the responses of
--   ipc/protocol.go; Handler.antt is `handle` and `detect` of ipc/server.go for one connection, and
--   Sessions.antt its `Serve` and `Close` with the goroutines of all connections.
-- * app/map shows targets in a window of the window server. TacticalMap/Config.antt,
--   Projection.antt, Frame.antt and Preview.antt there are config.go, projection.go (`Project`),
--   frame.go (`BuildFrame`) and preview.go (`RenderPreview`); Session.antt is `runMap` of session.go,
--   Messages.antt `decodeRecord` with what calls it in messages.go, and the loop of `receiveTargets` of
--   broker.go; Client.antt is `readResponse` of client.go, Loading.antt `LoadConfig`,
--   `LoadObservations` and the payloads of `RunWithBroker`. TacticalMap/Served.antt,
--   TacticalMap/Client/Server.antt and TacticalMap/Drawn.antt join it with the window server and its
--   headless backend.
-- Base.antt and its children hold what the parts share.
--
-- How the code is modelled: a method that writes to its receiver takes the state and returns the
-- new state with an `Outcome`: a value, a `QueryError`, a panic (an index out of range or a nil
-- dereference), or `no_fuel`. The fuel of the lexer's loop is one more than the length of the
-- source, since each round reads a byte or ends; that of the parser's loops is the number of
-- tokens, since each round takes one; that of `Run` is one more than the length of its input, and
-- that of the loop over `Write` is the length of what is written. A string is the list of its
-- bytes, a Go map an association list or a list. Each handler of the window server and each call of
-- the database client holds its lock, so a run is a sequence of whole handlers. A line of the
-- broker is handled in one step; a failed delivery may also be a step of its own, between the lines
-- of other clients. The goroutines of the two servers of connections are steps of one relation, where
-- the return of `Accept` and the section under the lock that follows it are two, in
-- any order, and one connection is a run over the bytes that its client sends, on fuel one more
-- than their number, since each round but the last takes a byte. The `select` of `runMap` takes a
-- list of events. An `int` of the drawing code has 64 bits and wraps around (`int64` of
-- Base/Int.antt), its channels have 32; the theorems on the drawing say up to which numbers nothing
-- wraps. A loop over pixels is `times` of Base/Loops.antt, on the number of its rounds.
--
-- What is not modelled: float64 is the parameter `Float64`, `Floats`, `Coding` or `Geo`, with the
-- operations that the code calls; `Rounding` and `IsOrdered` are what IEEE 754 promises of them.
-- The window backend and the connections of its server are the parameter `Environment`; what the
-- windows of a backend promise is `OneWindow`. The connections of the broker, the network of the
-- client with its UTF-8 and JSON coding, the writer of a frame, the streams of the command line and
-- the files of images with their decoding are parameters too. A word of SQL is ASCII, so
-- `EqualFold` is; `strings.ToUpper` and `TrimSpace` on a command of the window server are what they
-- do on ASCII. JSON decoding gives tokens, entries or values, which are arguments, as are the
-- answers of the system to `Listen` and the files of `LoadConfig`. Sockets, logs, write deadlines
-- but those of the database server, the SDL backend, the camera, the commands and the smoke tests
-- are left out.
mod Base
pub mod Broker
pub mod Dbms
pub mod MarkerDetect
pub mod TargetService
pub mod WindowManager
pub mod TacticalMap
