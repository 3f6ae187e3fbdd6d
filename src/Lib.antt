-- ===== src/Lib.antt =====
-- Verification of busylib-go, the Go client library of the BUSY Bar.
--
-- The library talks to the device over HTTP and a WebSocket (package busylib), over MQTT (package
-- remote) and over a CLI on its USB network interface (package usb). Callers build display updates,
-- which are checked before they are sent; they download the screens as frames; and they follow the
-- device by a status stream, whose transports share one lifecycle state and one decoder.
--
-- Frame models package frame (frame/frame.go, frame/errors.go): Frame.Build is FromHTTP and
-- FromProto, Frame.Pixels is Pixels with validateMetadata, pixelDataSize and rleBlockSize, Frame.Rle
-- is decodeRLE, Frame.Rgba is RGBA. Bytes are numbers, and what holds of bytes is a hypothesis. The
-- 64-bit multiplications keep their wrap-around. An error keeps the operation, the screen, the
-- encoding, the pixel format and the sentinel that errors.Is finds; texts are left out.
--
-- Usb models usb/protocol.go and usb/session.go: Usb.Command is buildCommand, Usb.Telnet is
-- stripIAC, Usb.Prompt is containsPrompt, trailingBytes and readUntilPrompt, Usb.Streaming is the
-- loop of streamLine and interruptAndRecover, and Usb.Session is the commands of a session and its
-- closed state. The connection, the writer and the context are scripts: a list of what each read,
-- write and check does. A script that ends is a loop that still waits.
--
-- Stream models internal/streamstate/state.go (Stream.State, on the buffered channels of
-- Stream.Channel), stream/types.go (Stream.Types and Stream.Updates) and
-- internal/statusdecode/decode.go (Stream.Decode). The operations of the state hold its mutex, so
-- they are steps; the consumers of its channels may run between the statements of one. A send on a
-- closed channel or a second close is a panic, which is the value `none`. Unmarshal of the protobuf
-- library, errors.Join and the clock are parameters.
--
-- Stream.Local models internal/statusstream/stream.go on that state: Stream.Local.Connect is connectOnce
-- and connectWithRetry, Stream.Local.Read is readConnection with watchStaleness and decodeMessage, and
-- Stream.Local.Run is run and Start. What Dial, Read, the context, the clock and the ticker return, and
-- what the consumers take, are scripts: one for each attempt, and a list of events for each connection.
-- A script that ends is a loop that still waits.
--
-- Display models the checks of a display update: Display.Names is application_validation.go,
-- Display.Text is SanitizeDisplayText of display_elements.go, Display.Elements is its types and
-- constructors with the requests of display.go, and Display.Fields, Display.Checks and
-- Display.Request are display_validation.go. Go strings are lists of bytes, and in SanitizeDisplayText
-- and buildCommand lists of code points; an int is an integer; a regular expression is the test
-- that it stands for. An element and a pointer to it are one constructor, and a nil pointer another.
--
-- Convert.Gif models gifFrameCount and skipGIFSubBlocks of convert/image.go, by which the conversion
-- of an image refuses an animated GIF. Convert.Animation models EncodeRGB888 of
-- convert/animation/animation.go: a pass over the frames is the list of what the loader returns, and
-- Convert.Animation.Wire is the bytes of the file.
--
-- Snapshot models snapshot/types.go (Snapshot.Types) and snapshot/store.go: Snapshot.Payloads is what
-- the store makes of a protobuf payload, and Snapshot.Store is Apply with the clones and the
-- comparison of sections. Clone and Equal of the protobuf library and the equality of error values
-- are parameters; of slices it is kept whether they are nil, since reflect.DeepEqual sees that.
--
-- Remote.Http models the round tripper of remote/http.go, which sends HTTP requests over MQTT: every
-- critical section of its mutex is a step, and so are the sends to the requests' channels and their
-- receives, so that a list of steps is an interleaving of the goroutines. Topics are given by whether
-- they are the expected one, and a map is an association list.
--
-- Client models the HTTP client core. Client.Path is canonicalAPIPath of request.go and the blocklist of
-- internal/api/metadata.go, Client.Headers the headers of a request, Client.Bodies is body.go and
-- Client.Prepare is Prepare. Client.Execute is the execution of a prepared request: Client.Execute.Reply
-- reads responses and Client.Execute.Attempts is sendOnce and executePreparedWith, in rounds that say
-- what the HTTP client, the context, the pause and the version refresh give. Its loop has as much fuel as
-- the attempts that the client allows and one more, for the retry with another version, which is enough.
-- Client.Version is version.go: the critical sections of versionMu and the choices of the selects are
-- steps, so that a list of steps is an interleaving of the callers and the fetches.
--
-- Busy models the timer snapshots and profiles of busy.go with all their checks: Busy.Cards is about the
-- identifiers, Busy.Ranges about the numbers, Busy.Accepted about snapshots and Busy.Profiles about profiles.
--
-- The loops of decodeRLE, stripIAC and gifFrameCount, which skip over the data, recur on the
-- accessibility of the length of what is left. The loops of the animation passes over the display
-- frames that remain run on as much fuel as frames remain: each round takes at least one. Connecting
-- recurs on the attempts that are left, and connectOnce on its one compatibility retry. All the other
-- loops are structural.
--
-- Not modelled: the requests of the HTTP services, the options of clients and streams, HTTP, MQTT,
-- WebSocket and USB I/O, deadlines, JSON encoding, the generated protobuf code but for the structs of
-- state updates and frames, the decoding and scaling of images, the audio conversions, the collection of
-- snapshots, the ZIP and PNG input of animations, RequestSnapshot and the URLs of the local stream, and
-- of the remote client all but the answers to its requests. They are input and output, other packages'
-- work or wrappers around them, but for the status stream over MQTT and the conversions of a collected
-- snapshot, which are left for later.
pub mod Prelude
pub mod Frame
pub mod Usb
pub mod Stream
pub mod Display
pub mod Convert
pub mod Snapshot
pub mod Remote
pub mod Client
pub mod Busy
