-- ===== src/Lib.antt =====
-- Verification library of remote-mfi: an HTTP service that lets remote clients use an Apple MFi
-- authentication coprocessor, which is attached over I2C behind a CH341 USB bridge.
--
-- The parts of the program, from the hardware up, and the modules that model them:
--   * internal/transport/ch341_encoder.go turns an I2C transaction into the bridge's stream of command
--     packets: Transport/Encoder (`encodeTransaction` is `encode_transaction`, and so on). Go's append to
--     a slice is an append to a list, and a `segmentedStream` is passed on explicitly. Transport/Bus
--     says what the packets do on the bus, by decoding the stream anew, and Transport/Bus/Replies what
--     the bridge answers: they are the specification.
--   * internal/transport/ch341.go sends the packets one by one and reads the answers: `execute` is
--     Transport/Execution, its cutting into packets Transport/Segments, `bulkWrite` and
--     `bulkReadAtMost` are Transport/Transfers, over endpoints of gousb that are a parameter;
--     `instructionLengths`, `encodedLength` and `checkStatusBytes` are Transport/Decoder, and the
--     time limits and the classification of errors Transport/Faults. Transport/Session opens, uses and closes
--     sessions over gousb (Transport/Usb, a parameter), with `findBulkEndpoints` in Transport/Devices;
--     Transport/Inspection is `InspectUSB`. Transport/Interleaving has concurrent calls as a step
--     relation: `ioMu` is held across steps and `sessionMu` within one, and while a transaction executes,
--     other calls may act between its transfers; each call of gousb that lists the devices is a step.
--   * internal/transport/transport.go, and the error types of the other packages: Errors. A Go error is a
--     tree of the wrappings that the source makes, with `errors.Is` and `errors.As` by recursion.
--   * internal/chip/driver.go speaks the coprocessor's register protocol over a transport: Chip/Bus is the
--     transport and the clock, which are parameters, Chip/Registers the register accesses with
--     their retries, Chip/Driver the operations `ProtocolMajor`, `ReadCertificate` and `SignChallenge`.
--     An operation is a function of the world to a result and the next world (Effects).
--   * internal/biz/service.go shares the chip between requests: Biz/Cache, Biz/Gate and Biz/Service. The
--     driver, the clock, the UUID parser and SHA-256 are parameters (`Environment`). Biz/Interleaving has
--     the concurrent requests as a step relation: a step of `Sign` is what it does under one mutex
--     or at one channel operation. Biz/Later has the requests that come between two others.
--   * internal/httpapi: Httpapi/Recent is recent.go, Httpapi/Server is server.go, Httpapi/Responses and
--     Httpapi/Handlers and Httpapi/Debug are handlers.go, Httpapi/Messages the texts of errors. The JSON decoder, base64
--     decoding, SHA-256 and operations on strings are parameters (`Library`).
--   * internal/config/config.go: Config/UsbIds and Config/Flags, over Config/Texts and Config/Numbers, which are
--     `strings.Split` and `strconv.ParseUint`. The flag package is a parameter.
--   * cmd/remote-mfi-for-xcertplay/main.go: Entry, which puts the parts together. The running server is a
--     parameter.
--     Stack is the driver on the transport: it makes of Transport/Session the transport of Chip/Bus.
-- The handlers call the service, the service the driver under its gate, the driver the transport.
--
-- Conventions. Times and durations are nanoseconds. Bytes are numbers; a conversion to a byte is `% 256`.
-- A loop without a bound of its own runs on fuel: `retryIO` on 102 rounds and the polling of
-- `SignChallenge` on 302, since a round sleeps 20 ms of 2 s and 10 ms of 3 s; the pages of a
-- certificate on its length plus one, and a bulk read on one more than the bytes to read.
-- Chip/Termination, Chip/Totality and Transport/Transfers/Bounds prove that this is enough, for a clock
-- that does not go back. The fuel of the encoder's and the decoder's loops is the length of what
-- they consume.
--
-- Not modelled: the rendering of the templates, logging, the text of the usage, and of main.go the
-- listener with its signals and its shutdown, and the probe of the chip at the start. The debug page
-- is given what the store of the latest requests lists. An operation on the gate is one step, where the source
-- passes the token and then notes the holder under a mutex.
-- The memory is not modelled: the copies that the source makes of slices are values here.
pub mod Prelude
pub mod Fmt
pub mod Encoding
pub mod Errors
pub mod Effects
pub mod Transport
pub mod Chip
pub mod Biz
pub mod Httpapi
pub mod Config
pub mod Stack
pub mod Entry
pub mod Tests
