-- ===== src/Lib.antt =====
-- A retrofit controller for a Flexit CS60 ventilation unit, on an nRF52840. It sits on the RS485
-- bus between the CS60 (the Modbus master) and the CI60 panel. The driver (src/rs485_uart.c) puts
-- raw bytes from the bus into a ring, from which a worker hands them to three listeners: the BLE
-- stream (src/ble_transport.c), which shows them to a client that asks, the slave
-- (src/flexit_slave.c), which answers the master's polls and so hands it the commands that are
-- queued, and the panel mirror (src/panel_mirror.c), which overhears the status that the master
-- broadcasts. The bridge (src/flexit_bridge.c) carries the mirrored status to the
-- Zigbee endpoint (src/zigbee_ep.c), and the endpoint's writes to the slave's queue; a BLE client
-- can queue commands too. The main loop (src/main.c) drives the LEDs and keeps the device visible.
-- On a host, a client (tools/ble-client) shows the status, sends commands and uploads firmware, and
-- a decoder (tools/rs485-decode) reports what a captured stream holds.
--
-- The parts and their files:
-- - Shared: lists as C arrays, lists that lose elements, texts, bytes and 16-bit words in both
--   orders, bit tables as coils, the casts between int16_t and uint16_t.
-- - Platform: what comes from Zephyr, `crc16_ansi` and `k_uptime_get`, as parameters. The n-th
--   call of the clock has the n-th answer. Platform/Modbus gives the tests a concrete one.
-- - Accum: the byte accumulator that `flexit_slave_feed` and `panel_mirror_feed` share word for
--   word, on an array of fixed size. Accum/Loop is the loop on lists, Accum/Buffer and
--   Accum/Chunks show that the array does what the lists do, Accum/Keeps carries invariants,
--   Accum/Feeds is about several feeds in a row.
-- - Slave: the state of src/flexit_slave.c, with `flexit_slave_queue_mode`,
--   `flexit_slave_queue_setpoint` and the snapshot. Slave/Respond has the response builders,
--   Slave/Handle the four handlers, Slave/Decode the frame matcher, feed and init. The other
--   children hold the proofs: Commands (the tables under each operation), Responses (what the
--   frames carry), Resync (noise and cuts), Traffic (what is sent), Invariant, Exchange and Answers
--   (one request and its answer) and Cycle (a command from the queue to its acknowledgement).
-- - Mirror: the state of src/panel_mirror.c and the link test. Mirror/Counters has the counter
--   table, Mirror/Status the status block, Mirror/Decode the matcher and feed. The proofs are in
--   Search and Table (the counter table as a map), Flags (the bit masks), Reception, Writes and Link
--   (whole frames).
-- - Zigbee: the values that wait in src/zigbee_ep.c and the setters; Zigbee/Publish has the tick,
--   whose attribute writes are a list, Zigbee/Write the writes of clients, Zigbee/Network the network
--   state, the factory reset and the radio yield. Ticks, Hold and Reach hold the proofs, the last one
--   on a step relation; Shape has the sizes of the arrays. The float arithmetic is a parameter, `Floats`.
--   Zigbee/Model lists the attributes that each cluster of each endpoint declares, and Declared
--   compares a tick's writes with it.
-- - Bridge: src/flexit_bridge.c. Bridge/Status goes from the mirror to the attributes, Bridge/Wire
--   from the bus to them, Bridge/Commands from a client's write to the slave's registers. In
--   Bridge/Rounding the value of a float is a whole number of 2 ^ -149ths, with the laws of IEEE 754
--   as hypotheses, `IsBinary32`.
-- - Ble: the connection, the works and the initialisation of src/ble_transport.c. Ble/Stream has the
--   notifications, Ble/Line the status line, Ble/Parse and Ble/Command the commands. Fields, Replies
--   and Bounds hold the proofs about the line and the commands, Reach a step relation on the
--   callbacks. Texts are lists of bytes; Shared/Text prints and scans their numbers. The Bluetooth
--   host and `atoi` are parameters, the latter with what it does on digits that an int holds.
-- - Uart: the state and the callback of src/rs485_uart.c. Uart/Drain has the drain worker and
--   Uart/Send the transmitter. Traffic and Room show what reaches the readers, Outcome how a
--   transmission ends, Dma the two receive buffers as a step relation. Zephyr's ring buffer is an
--   interface, `RingBuffer`, with its laws, `IsFifo`; Uart/ListRing gives the tests a concrete one.
-- - Main: the latch and the loop of src/main.c; Main/Ticks has the proofs.
-- - App: the drain worker's readers as the three modules. App/Delivery shows what comes through.
--   App/Cycle and App/Clients follow a client's command from the write to the master's
--   acknowledgement, App/Seen and App/Told the master's status to the LED, the attributes and the
--   client's screen.
-- - Capture: the analysis of a captured bus stream in tools/rs485-decode/main.go. Frames, Decode,
--   Notes and Report hold the proofs about the frames it finds and what it keeps of them, Stream
--   those about a capture of what the BLE stream sends.
-- - Client: tools/ble-client/main.go, `formatStateHuman`, as far as it takes the status line apart.
--   Words, Entries and Line hold the proofs.
-- - Smp: tools/ble-client/smp.go, the framing, the calls and the upload loop. Smp/Assembly is about
--   responses in fragments, Smp/Timeout about a response that stops, Smp/Upload about the loop, and
--   Smp/Confirm has the decision of `cmdConfirm` in tools/ble-client/main.go.
--
-- An operation that the source runs under its mutex is one function from state to state, so an
-- interleaving of threads is a sequence of calls. What an operation asks of its surroundings is a
-- parameter that is indexed by the number of the call: the clock, and the result of
-- `rs485_uart_send`. Frames handed to the driver are collected in order.
--
-- The decode loop runs on as much fuel as there are bytes in the accumulator. A round that does not
-- end the loop consumes a byte, so that is enough; the loop is shown to end by its own test.
-- Counters are uint32_t and wrap; the differences of times are taken modulo 2 ^ 64 where the source
-- takes them so.
--
-- The drain loop of src/rs485_uart.c runs on 1025 rounds: the ring holds 1024 bytes at most, and a
-- round that goes on takes one at least.
-- The notifications of src/ble_transport.c run on one round for each byte, and a number is printed
-- with 20 digits at most, which a uint64_t needs. A transmission that the slave makes while it is
-- fed has its echo behind the feed, and its result depends on the frame alone where the modules are
-- composed.
--
-- A capture is analysed on as much fuel as it has bytes, since a round takes one at least, and an
-- upload runs on one more than the file has, since each offset is above the last.
--
-- Not modelled: the numbers, the ranges and the initial values that ZBOSS's macros give the
-- attributes; the passkey of src/ble_transport.c, which the build injects, and its advertising data;
-- the delays. Of the host's tools: arguments, printing, the window dump of the decoder, the
-- connection and its pairing, CBOR and the list of images that is read from it. `strings.Fields` is
-- modelled for ASCII texts. A notification that the client drops because its channel is full is not
-- in the model. Log lines are left out everywhere.
pub mod Shared
pub mod Accum
pub mod Platform
pub mod Slave
pub mod Mirror
pub mod App
pub mod Ble
pub mod Bridge
pub mod Capture
pub mod Client
pub mod Main
pub mod Smp
pub mod Uart
pub mod Zigbee
