-- ===== src/Lib.antt =====
-- The Go library of the wire protocol between an agent and its client: JSON-RPC 2.0 over lines.
--
-- The program's parts and the files that model them:
--
-- * server/ is the agent's side. Serve starts a read loop, which routes the responses to the server's
--   own calls and queues all other messages, and a serve loop, which hands each queued message to its
--   handler. A prompt starts a turn, which runs on a goroutine of its own, and so does a replay. These
--   goroutines share the server's fields under a lock. Server.antt has the state (the struct Server
--   with the turns and the calls that it points to) and the environment; one module for each part of
--   the code has the operations: Server/Write (writeMessage, emitEvent, sendResponse, sendError),
--   Server/Initialize and Server/Hooks (handleInitialize, and the choice of a hook in TriggerHook),
--   Server/Turn (handlePrompt, endTurn and turn.go), Server/Control (handleSteer, handleCancel,
--   handleReplay, handleSetPlanMode), Server/Pending (sendRequestAndWait, routeResponse, closePending),
--   Server/Calling (RequestApproval, CallExternalTool, AskQuestion, TriggerHook and their timeouts),
--   Server/Options (the options of New) and Server/Serve (the loops, dispatch and Serve).
-- * client.go and dispatch.go are the client's side. A reader loop hands events and requests to the
--   dispatch loop through a channel, and responses to the calls that wait for them, or into a buffer
--   if they come early. Client.antt has the state of the struct Client, its calls (Initialize, Prompt,
--   Replay, Steer, SetPlanMode and Cancel) and the stretches of the reader loop and of readResponse;
--   Client/Results is decodeResponse and what the calls return, Client/Dispatch is Dispatch, and
--   Client/Run the actions that these take in any order.
-- * The version that initialize agrees on (negotiateVersion, semverCompare, splitVersion and atoi in
--   server/server.go) is in Version.antt.
-- * protocol/, message.go and error.go are the messages: Protocol/Content, Event, Request, Method and
--   Jsonrpc have the types, Protocol/Content/Json the methods MarshalJSON and UnmarshalJSON of the
--   content types, Protocol/Envelope the functions MarshalEvent, ParseEvent, MarshalRequest and
--   ParseRequest, Protocol/Message ParseWireMessage.
-- * Transport.antt is InMemoryTransport of transport/transport_memory.go; a ReadLine that would wait
--   returns a result of its own. Transport/Channel is the pair of transport/transport_channel.go, with
--   the promise that it keeps in Transport/Channel/Story. Transport/Process,
--   Transport/Process/Spawn and Transport/Process/Pipes are of transport/transport_process.go the loop
--   that logs the stderr of a child, the start of one, and ReadLine, WriteLine and Close.
-- * Redact.antt is internal/redact/redact.go.
-- * Prelude and its children have what these share: tests on numbers, lists, Go maps, decimals, results.
-- * Tests and its children run the code on concrete inputs.
--
-- Concurrency. An action is what one goroutine, the agent or the client does between two points where
-- another may act; Server/Serve.step takes one action, and run any sequence of
-- them, and Client/Run has client_step and client_run for the client. An action that
-- cannot be taken leaves the state as it is. A handler that waits in a select leaves the serve loop at
-- a place (the type Loop) from which a later action goes on; a select with several ready cases may take
-- any: in routeResponse this is the difference between the actions receive and receive_lost. A send that
-- waits for room is an action that cannot be taken yet. What Serve does after its read loop goes through
-- the places of the type Ending, and closePending sends to one call at a time, in the order of the list
-- that stands for its map. The goroutine of a turn or of a replay goes through the phases of the type
-- Phase. A pointer to a
-- turn is an index into the list of all operations that were started, a channel of a call is an index
-- into the list of all calls; neither list shrinks. Every function is structural; the
-- loop that starts a child makes at most three attempts, as its code does, and the only bound that is
-- chosen is the number of reads of Transport/Process/Pipes.read_lines, which is enough when it is more
-- than one above the number of lines.
--
-- Parameters. encoding/json, regexp, the transport and the agent's synchronous methods are functions of
-- the record Env (for the server) and of the record Codecs (for the messages), and likewise of ClientEnv,
-- ReplyCodecs, Contexts, Texts and Secrets for the other parts; json.RawMessage is the type Raw. A
-- theorem that relies on encoding/json names what it relies on.
--
-- Numbers. A number of Go is a natural number, with the wrap-around where the code computes: 64 bits for
-- an int in atoi, which is kept as its bit pattern and compared as signed, and for the counter of
-- calls, 32 bits for the counts of hooks. An error code is an integer.
--
-- Not modelled: logging but that of a child's stderr, the ten-second wait of clearActiveTurn, the logger
-- of a server, Client.ReadRawMessage and SendRaw, the wait of Client.Shutdown, the deadlines on the pipes
-- of a child process and the wait and the error of its Close, the MarshalJSON methods of the messages in
-- message.go, the re-exports, and the examples.
pub mod Prelude
pub mod Version
pub mod Protocol
pub mod Transport
pub mod Server
pub mod Client
pub mod Redact
pub mod Tests
