-- ===== src/Lib.antt =====
-- Nova drone control: the radio path from the ground station to the drone's computer.
--
-- The phone of the operator writes stick positions, switches and coded commands into the 16
-- channels of an ELRS radio link. On the drone a microcontroller wraps the CRSF frames of two
-- radios, and its own diagnostic lines, into one serial stream. modules/elrs_telemetry reads that
-- stream: mux.py takes the packets apart, crsf.py finds the CRSF frames in them and unpacks the
-- channels. modules/drone_bridge acts on each set of channels.
--
-- service.py hands each unpacked set of channels to its WebSocket clients, with bench overrides,
-- and sends frames the other way: an endpoint puts them into a queue behind a token bucket, and the
-- writer wraps them for the mux.
--
-- translator.py reads the channels from a WebSocket: it posts the edges of the arm, force-disarm
-- and mode switches, and 50 times a second the stick positions, unless the link is lost or the arm
-- switch is down. vision_lock.py, its second handler, decodes channel 8 into sixteen codes and
-- channels 9 to 12 into a box, chooses the video source, and engages a target after a set of rules.
--
-- Beside the radio stands BLE: rpc.py cuts requests and responses into fragments of one MTU and
-- puts them together again.
--
-- services.py keeps a health record for each of these services.
--
-- On the drone, virtual_tx.py holds the sticks of a virtual transmitter: commands set them, a loop
-- shapes and publishes them, and centres them when a command's hold is over. precision_land.py
-- flies it onto a QR code, one control loop that can be aborted from outside. compass_cal.py
-- decodes what the flight controller says of a compass calibration.
--
-- The digest of digest.py packs a snapshot of the drone into 32 bytes for a characteristic of the
-- BLE server.
--
-- Files and code:
--
-- Common and its children hold the shared lists, tests, bits, bytes, integers and exact fractions.
-- Elrs.Mux is modules/elrs_telemetry/mux.py: `MuxDecoder` is the decoder's record, `feed_byte` and
-- `feed` are its methods of these names, with an `Option` for the write past the buffer. Elrs.Crsf
-- is modules/elrs_telemetry/crsf.py; `look` and `parse_loop` are the rounds of `CRSFParser.feed`.
-- Elrs.Service is modules/elrs_telemetry/service.py: Transmit, Broker, Channels, Posts (the
-- endpoints for samples) and Reader (`read_chunk` is the inner part of `_reader_loop`) have its
-- definitions. Bridge.Rpc is modules/drone_bridge/rpc.py, Bridge.Digest is
-- modules/drone_bridge/digest.py with the parts of serializers.py and snapshot.py beside it that it
-- uses, Bridge.Services is modules/drone_bridge/services.py, Bridge.Translator is
-- modules/drone_bridge/translator.py, with one message of the reader in Receive and one round of
-- the sender in Control, and Bridge.VisionLock is modules/drone_bridge/vision_lock.py, with
-- `on_channels` in Handler, the state and its selection in State, the decoders in Decode, and the
-- asynchronous half of ENGAGE in Engage. Drone.VirtualTx is
-- ros2/src/drone_control/drone_control/virtual_tx.py Drone.PrecisionLand and Drone.CompassCal are
-- precision_land.py and compass_cal.py beside it. The other modules of each part hold proofs, and
-- Examples the runs.
--
-- A handler takes the state and returns it with the tasks, posts or bytes that it sets off; an
-- exception is `none`, an error or a flag. Time is a number of microseconds, read from arguments.
-- Floats are exact: a quotient is its integer parts, an axis of the handler its number of 1639ths,
-- a token its number of millionths, a float of the compass messages the number of its bits, and
-- elsewhere it is a fraction (`Frac`). A dictionary is a list of entries or its look-up function.
--
-- Bounds and fuel: `parse_loop` has the length of the buffer as fuel, and each round but the last
-- takes a byte off; the loop of `fragment` has the length of the body, and each round takes at
-- least one. Both come to an end by themselves within that. The mux buffer has 256 bytes and a
-- diagnostic line 512.
--
-- Not modelled: sockets, serial ports, D-Bus and HTTP bodies, logging, threads and locks (calls
-- follow one another), the other ROS 2 nodes, the web page, the firmware and the scripts.
pub mod Common
pub mod Elrs
pub mod Drone
pub mod Bridge
