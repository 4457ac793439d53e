-- ===== src/Lib.antt =====
-- A model of v2x_mqtt, the Linux side of a V2X right-turn assistant: it receives the ego vehicle's
-- state from a controller over a CAN bridge, the states of other vehicles and traffic lights over
-- MQTT, and tells the controller which vehicle and which light matter for the turn.
--
-- The parts, and the files that model them:
--   Types              common/types.h
--   Crc, Ipc           common/ipc_frame.c: checksum, frames, sending with retries
--   Can                handler/can_handler.c: the CAN payloads; Can.Rx: the receive buffer and
--                      polling; Can.Device: the device; CanTx: the send functions
--   Ntp                common/ntp_time.c: epoch, status and 12-bit time stamps; Ntp.Text: times as text
--   TemporalQos        common/temporal_qos.c: the lines of the latency trace
--   OtherVehicles, TrafficLights, PublishQueue, SelfVehicle
--                      manager/: the state that the threads share
--   Map                map/IntersectionMap.c; Map.Xml: its reader; Map.File: the file;
--                      Map.Service: service/map_service.c
--   EgoFrame, RxThread core/can_rx_thread.c: the turn state machine, and the receive thread
--   Candidate, TxThread
--                      core/can_tx_thread.c: the choice of a candidate, and the transmit loop
--   Codec              common/vehicle_codec.c: vehicles as JSON; Codec.Lights: traffic lights
--   Mqtt               handler/mqtt_handler.c and common/mqtt_topics.h; Mqtt.Thread and Mqtt.Events:
--                      core/mqtt_thread.c, alone and among the other threads
--   App                core/main.c and core/app_context.h: the start and the end of the program
--   System             all threads, callbacks and signals on one AppContext, in any order
--   Simulator          tools/fake_vehicle_l15_to_l6.c: a program that publishes a made-up vehicle
--   Libc               what the code uses of the C library on text and times
--   Doubles            the arithmetic on `double`, as an interface
--   Base               Boolean tests, lists, strings and bit fields
--   Examples           the theorems on concrete data
-- Paths are below v2x_mqtt/. Functions keep their names; a function with several parts has helpers
-- beside it. The child modules that hold no definitions of the code hold the proofs.
--
-- The receive thread turns bytes into ego states (Can.Rx), which EgoFrame turns into the state of
-- SelfVehicle, an entry of PublishQueue and the candidate flag. The transmit thread reads the flag
-- and the managers and sends the messages of TxThread, which CanTx packs and Ipc frames.
--
-- The MQTT thread connects, publishes what PublishQueue holds through Codec, and drops the vehicles of
-- OtherVehicles that are no longer heard of; the callbacks of the client write what Codec decodes to
-- OtherVehicles and TrafficLights. Mqtt.Events puts the steps of the thread, the callbacks and the
-- pushes of the receive thread in any order.
--
-- System puts these together from the AppContext that app_init leaves: a step of the receive thread, a
-- step of the MQTT thread, a callback of mosquitto, a round of the transmit thread, or the signal, in any
-- order and number, one step after the other. Each works on its part of the context and leaves the rest.
--
-- State is passed explicitly: a mutex-protected call is one step on the manager's record. A `char`
-- array is the string that it holds, an array with its count the list of its used entries. Unsigned
-- arithmetic that can wrap has its modulus written out. Null arguments that no caller passes are not
-- modelled. Clock readings and the answers of the operating system are arguments.
--
-- cJSON is a tree of values with the printer, the parser and the look-up of members as arguments; what
-- they are documented to do is a hypothesis where a theorem needs it. The calls of mosquitto are
-- collected in a list, and their results are arguments. `atof`, `gmtime_r` and `timegm` are arguments
-- too; what the calendar is documented to do is a hypothesis where a theorem needs it. `sscanf` is
-- modelled by its documented behaviour for the conversions that the code uses. A pointer into the XML
-- text is the rest of the text from there on.
--
-- Bounds: the loops over the XML text run on fuel, the length of the text, which is enough since
-- each round uses a byte. The receive loop runs on fuel, one more than the bytes in the buffer,
-- which is enough since each round but the last uses a byte. `ipc_frame_send` retries without a
-- bound; it runs on the list of the answers of `write`. Among the threads of System, a poll of the
-- receive thread is one step, with the calls of on_ego_frame for the frames that it completes, although
-- these lock the managers and store the candidate flag one after the other; what the other threads can
-- see in between is in System.Halfway, but no step of theirs is taken there. A round of the transmit
-- thread is one step too, and reads each manager once; changes that other threads make between two
-- calls of one round are not modelled.
-- `distance_squared` is computed modulo 2^32, where the source's signed arithmetic would overflow.
--
-- Not modelled: logging, which includes where the other parts call the latency trace; allocations that
-- fail, but for the buffer of the map's file; sleeping; the three results of pthread_mutex_init that the
-- code ignores, taken to be successes; and the display bridge tools/mqtt_to_unity_udp.py, which is
-- not C.
pub mod Base
pub mod Crc
pub mod Types
pub mod Ipc
pub mod Can
pub mod Ntp
pub mod OtherVehicles
pub mod TrafficLights
pub mod PublishQueue
pub mod Doubles
pub mod Map
pub mod SelfVehicle
pub mod EgoFrame
pub mod RxThread
pub mod Candidate
pub mod CanTx
pub mod TxThread
pub mod Examples
pub mod Libc
pub mod Codec
pub mod Mqtt
pub mod App
pub mod System
pub mod TemporalQos
pub mod Simulator
