-- ===== src/Lib.antt =====
-- The bridge of claw64 (bridge/, cmd/claw64-bridge): it carries messages between a chat, an LLM and
-- a Commodore 64 that runs the agent at the other end of a serial line of 2400 baud.
--
-- Parts, and the files that model them.
--   Prelude            shared names, Boolean tests and lists over the native numbers.
--   Serial/Frame       bridge/serial/frame.go: frame types, `Encode`, helpers on payloads.
--   Serial/Decode      bridge/serial/frame.go `Decode` with its resynchronisation, and
--                      bridge/serial/serial.go `Recv`; its child files hold the theorems.
--   Serial/Link        bridge/serial/serial.go: `Send`.
--   Serial/Device      bridge/serial/serial.go: `OpenDeviceContext`, the handshake on a device.
--   Serial/Listen      bridge/serial/serial.go: the handshake on a listener, with a goroutine for
--                      each connection; Serial/Listen/Start `ListenAndStartUntilTimeout`.
--   Serial/Ascii       bridge/serial/ascii.go: `ToASCII` and `ToC64Text` on lists of runes.
--   Relay/Ids          bridge/relay/relay.go: the counter of transport IDs and their order.
--   Relay/History      bridge/relay/history.go, and the message types of bridge/llm/llm.go.
--   Relay/State        the fields of `Relay`, what its environment supplies (`Env`), and the monad
--                      of the operations: a schedule of arrivals and the relay go in, a result comes
--                      out with the schedule that is left and the new relay.
--   Relay/Gate         the message gate and the overflow lane as a step relation, and their tests.
--   Relay/Chunks       `handleSystemFrame`, `handleResultFrame`.
--   Relay/Accept       `acceptC64FrameWith`, the ACKs owed and their quiet windows, late ACKs.
--   Relay/Receive      `recvFromSocketOnly`, `recvFromC64`, and the loop around them.
--   Relay/Wait         the loops that wait for an ACK, a reply, a status or silence.
--   Relay/Deliver      the senders with their retries, and `sendNextTextChunk`.
--   Relay/Events       the texts of Commodore events for the LLM.
--   Relay/Dispatch     `callAndDispatch`.
--   Relay/Drain        the drains that the event loop runs after user text and LLM events.
--   Relay/Message      the MSG frame of `HandleMessageStream` and the branch that it takes.
--   Relay/Message/Stream  what `HandleMessageStream` does with its locks.
--   Relay/Waiters      the goroutine of `ensureRecvLoop`, the ACK waiters, overlapping messages.
--   Relay/Timeouts     the windows that depend on the relay or on a command.
--   Relay/Loop         `eventLoop`.
--   Relay/Dump         bridge/relay/stalldump.go: symbols, their ranges and the queue's slots.
--   Relay/Rules        an invariant of runs, and the rules by which runs keep it.
--   Relay/Progress     how much each operation takes off the schedule; a child file for each layer.
--   Llm/Host           the environment, files and clock that the clients of bridge/llm see.
--   Llm/Keys           bridge/llm/auth.go, and the keys of bridge/llm/anthropic.go.
--   Llm/Tools          bridge/llm/tools.go.
--   Llm/Anthropic      bridge/llm/anthropic.go: messages, responses, completions.
--   Llm/Codex          bridge/llm/openai_codex.go: bodies and responses; its child files model the
--                      event stream, the credentials and the login.
--   Llm/OpenAi         bridge/llm/openai.go, and `completeCodex`.
--   Chat/Trigger       bridge/chat/trigger.go.
--   Chat/Signal        bridge/chat/signal.go: messages, recipients; Chat/Signal/Rpc its pending calls
--                      and Chat/Signal/Rpc/Reader the loop over its lines.
--   Chat/WhatsApp      bridge/chat/whatsapp.go: the filter of `onEvent`.
--   Chat/Slack         bridge/chat/slack.go: targets, credentials, messages.
--   Termstyle          bridge/termstyle/style.go: styles of terminal texts.
--   Chat/Stdin         bridge/chat/stdin.go: the terminal channel; Chat/Stdin/Ansi `stripANSI`,
--                      Chat/Stdin/Runes the runes of a text as `range` reads them,
--                      Chat/Stdin/Writers `tuiLogWriter` and `tuiStreamWriter`, Chat/Stdin/Tui the
--                      model with its `Update` and `View`.
--   Cmd/Config         cmd/claw64-bridge/main.go: what the options and the ports file choose.
--   Cmd/Spawn          cmd/claw64-bridge/main.go: `startSpawnedSerialLink`.
--   Cmd/Typing         cmd/claw64-bridge/main.go: the handler of `runChatBridge` with its typing.
--   Cmd/LineLog        cmd/claw64-bridge/main.go: `lineLogWriter`.
--   Cmd/Burnin         cmd/claw64-bridge/burnin.go: the scripts that stand in for the LLM, one for each
--                      scenario; Cmd/Burnin/Overlap/Session what an overlap scenario waits for.
--   Tests              the theorems at concrete inputs.
--
-- How the state corresponds. A byte is a number below 256, `b & 0x7F` is `b % 128`, a text is the
-- list of its runes, and on the terminal of its bytes, which Chat/Stdin/Runes reads as Go's `range`
-- does. `Relay` has a field for each field of the Go struct that the modelled code reads or writes
-- (snake case for camel case), with the clock, the frames sent, the texts emitted and the LLM calls
-- beside them. Time is in milliseconds. What each `select` chooses is given by the schedule: a
-- timeout is an `expires`, and the two channels of ACKs and of other frames are one sequence.
--
-- The clients of bridge/llm are functions of the host (`Host`), of what the servers answer and of
-- their own state, and give back the new state. The chat channels are functions of one message; the
-- pending calls of Signal are a step relation, as are the locks of the relay. `OpenDeviceContext`
-- takes what the system does in each round as a list, and the listener takes its events in any
-- order. The terminal's model is a state that `Update` takes from message to message; a command
-- that it gives is data, and running it is a function. A script of the burn-in is a function of the
-- last texts of the user and of the tools and of its step. An attempt to start VICE is the course
-- of its handshake.
--
-- Bounds and fuel. `decode` has one more than the length of its input, as each resynchronisation
-- starts behind at least one byte. `send_next_text_chunk` has one more than the length of the
-- queue, as each round takes a byte or more from it. `event_loop` has one more than two for each
-- arrival to come and one for each pending frame, as a round takes one of them and an arrival makes
-- at most one frame pending. The loops of the writers have one more than the length of their text,
-- as each round takes a newline from it. The commands that flush the terminal have two for each
-- line that waits, and two more: one takes it off and one asks what is left.
--
-- Parameters. In the relay, the outcome of `Send` (an error after n bytes, or success), the LLM,
-- `emit`, `json.Unmarshal` and whether another handler waits at the gate, seen from inside a
-- handler. In bridge/llm: HTTP, JSON, base64 and the scanner. In bridge/chat: JSON, the libraries
-- of Slack and WhatsApp, and of the terminal's libraries the wrapping, cutting and width of a text
-- and the input line.
--
-- Not modelled: log lines and the monitor's connection; the HTTP headers, the authorize URL, random
-- numbers and the browser; the subprocess of Signal and the connections of the chat libraries; the
-- cursor and the screen of the terminal; the ioctls on devices; the parsing of the command line,
-- the process of VICE, and the driver of the burn-in with its goroutines and delays, which are I/O
-- around the relay.
pub mod Prelude
pub mod Serial
pub mod Relay
pub mod Llm
pub mod Termstyle
pub mod Chat
pub mod Cmd
mod Tests
