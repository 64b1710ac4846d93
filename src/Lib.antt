-- ===== src/Lib.antt =====
-- A model of lastro: package wire (wire/*.go), the formats, signatures and decisions by which a
-- receipt of an observation, a certificate, a grant or an envelope is made and verified, and the
-- programs on top of it (cmd/lastro/main.go and cmd/interop/main.go).
--
-- The parts and how they interact:
--
-- - Common: names of the libraries, Boolean tests and byte strings; Common/Result is Go's
--   (value, error) pair, with the sentinel errors of the package as `Error`. Common/Regions is about
--   copies into the regions of a buffer, and Common/Integers is Go's int with its decimal digits.
-- - Wire/Cursor is wire/cursor.go: a method of *cursor is a `Reader`, a function of the cursor to a
--   value with the moved cursor or an error. Wire/Cursor/Reads says what it is for a reader to
--   read exactly what was written: it is the interface that every structure's parser fills, and
--   Wire/Cursor/Whole draws the properties of whole parsers from it. Wire/Layout reads and writes
--   a list of fields, and carries the parsers and encoders over to that interface.
-- - Wire/Span (wire/span.go and the encoders of wire/encode.go), Wire/Cert (wire/cert.go and
--   wire/encode.go), Wire/Grant (wire/grant.go), Wire/Envelope, Wire/Intent and Wire/Refusal
--   (wire/envelope.go): the structures, their parsers, encoders and signature checks. In each,
--   `Codec` is about parsing, `Build` about what the builders make.
-- - Wire/Crypto is wire/crypto.go. Ed25519 and BLAKE2s are not part of the repository: they are the
--   record `Crypto`, an argument of what uses them, and `CryptoLaws` names what is relied on,
--   which is the lengths of keys, signatures and hashes and that what a key signs verifies.
-- - Wire/Method (wire/method.go): the evidence class of a method id and its ceiling.
-- - Wire/Validate (wire/validate.go): the clock-free validation of a certificate, which calls
--   Wire/Crypto and CAPairs of Wire/Cert, and the verification of a receipt.
-- - Wire/GrantChain (wire/grantchain.go): VerifyGrant with the clocked validation, the scopes and
--   the expiry. `Scope`, `Expiry`, `Bound` and `Decision` are about these.
-- - Wire/Transport (wire/transport.go): the data packets, over an `Aead` that stands for
--   ChaCha20-Poly1305 with the laws of `AeadLaws`, and the binding frame, whose verification parses
--   and validates a certificate.
-- - Wire/Noise (wire/noise.go): the symmetric state of the handshake and its final keys, with HMAC
--   and HKDF over the hash of `Crypto`; Wire/Noise/Messages has the two messages, of the layout in
--   Wire/Noise/Sizes, over a `Dh` that stands for X25519 and the keyed BLAKE2s with the laws of
--   `DhLaws`. `Initiation` and `Response` below Wire/Noise/Handshake say what one side writes and
--   the other reads, and Handshake puts the four steps together; `Rejects` is about what the
--   readers refuse.
-- - Cmd (cmd/lastro/main.go): `Step` is an early return of a command, `Files` the file system that
--   a command meets. Cmd/Capture is captureWriter and the copies of the child's two streams, with
--   the trailer, and its `Refusals` says what is captured where the terminal refuses some of the
--   output; Cmd/Resource is validateResource and resolveShaTemplate; Cmd/Keygen, Cmd/Run and
--   Cmd/Verify are the three commands. Run mints its receipt by Wire/Span, and Verify reads it by
--   Wire/Span, Wire/Cert and Wire/Validate.
-- - Interop (cmd/interop/main.go): the initiator of a live handshake, in its three stages, over
--   Wire/Noise/Messages, the frames of Wire/Transport and the envelopes of Wire/Envelope. `Stages`
--   runs the first two against the responder of Wire/Noise, `Intents` is about the third.
-- - Tests: the model on concrete inputs, with a small `Crypto`, `Aead` and `Dh` that compute.
--
-- Conventions. A byte is a natural number below 256, and `IsBytes` says so where it matters.
-- uint64 arithmetic wraps: `% 2 ^ 64` is written out. A Go slice is the list of its elements. Only
-- WriteInitiation and WriteResponse write into a slice that they were given, and return here what
-- it holds afterwards; a method of the handshake returns the new state, and where it fails its
-- callers drop the state. An error is the constructor of `Error` of its sentinel. Go's nil set of
-- trusted keys, where it differs from an empty one, and the nil hook are `none`. Slicing out of
-- range would panic in Go; `slice` gives what there is, and the lengths that the parsers establish
-- keep it in range.
--
-- Loops are structural in the number of rounds left. Only the walk of scopeCoversResource has
-- fuel: it gets one round for each byte of the resource, which is enough as each round makes the
-- prefix shorter, and its theorem is about the function with that fuel.
--
-- What a command meets outside is a parameter: in `Files` whether a write, a directory or a test
-- for a file succeeds, in `World` the flag package, `git rev-parse HEAD`, the random bytes, the
-- clock and the child, which is the sequence of the reads from its two pipes, each with whether
-- the terminal took it, and its exit code; in `Line` the connection of the interop harness, with
-- the datagram that a read gives by the packets that were sent until then. The daemon at its other
-- end is not in the repository: where one is needed, `daemon_reply` of Interop/Stages is a peer that
-- runs the responder of Wire/Noise with keys of its own. A write that fails leaves no file in the
-- model. An exit code is an int, -1 for a signal. White space is Unicode's in UTF-8. Letter case is
-- that of ASCII: lower case makes a hexadecimal digit of no other rune, so that with one in it the
-- answer of git is refused in any case, and only the text of the error could differ. The decimal
-- digits have 20 places, enough for 64 bits.
--
-- Not modelled: the parsing of flags and the texts that are printed, in errors, by Class.String and
-- by printReport (its values are); the dispatch of main in cmd/lastro; the timeouts of connections.
pub mod Common
pub mod Tests
pub mod Wire
pub mod Cmd
pub mod Interop
