-- ===== src/Lib.antt =====
-- The gateway of the Oi interface and its devices: who has the user's attention, which devices a text
-- goes to, how an answer becomes speech and a recording text, when a device that is lost may return, and
-- what the devices do with the commands they get.
--
-- The gateway (src/oi-gateway/src) keeps one AttentionPolicy, asks a RoutingPolicy for the devices of
-- each response, and keeps a registry of devices, with a ReconnectionManager for those that are lost. It
-- puts recordings of a device together, and sends the text and the speech of an answer as commands to the
-- clients (src/oi-clients), each of which runs a state machine of its own: the simulator, the handheld,
-- and the firmware of the M5Stack.
--
-- Attention: oi-gateway/src/attention/policy.py. Attention/State.antt has the records, with the event
--   bus as the list of events emitted; Attention.antt has the operations under the source's names, the
--   time being an argument; Attention/Queue.antt and Attention/Candidates.antt have the queue and
--   get_attention_candidates. Call, step and run of Attention.antt are histories. The queue is worked off
--   by recursion on the list that is left, which is shorter each time. The proofs are in
--   Attention/Core.antt, Invariant, Reach, Handover, Waiting and Timeouts.
-- Device: the clients' state machines. Device/State.antt has the states and operators;
--   Device/Simulator.antt is oi-sim/src/sim/state.py, Device/Handheld.antt is
--   generic_sbc_handheld/oi_client/state.py, Device/Firmware.antt and Device/Firmware/Commands.antt are
--   m5stack_stickS3/datp/state.py with _handle_command of datp/client.py. A raised InvalidTransition is
--   the value invalid.
-- Routing: oi-gateway/src/routing/policy.py. Floats are the parameter Seconds: an order, zero, and the
--   duration of a number of words. The registry is a dict from device ids to capabilities.
-- Reconnection: oi-gateway/src/registry/reconnection.py. Delays are whole milliseconds, and the random
--   number of the jitter is an argument.
-- MultiDevice: oi-gateway/src/multi_device/manager.py, with two strategies of the load balancer: the
--   least load, which the manager uses, in MultiDevice/Balancer.antt, and round robin in
--   MultiDevice/RoundRobin.antt. Floats are the parameter Loads: an order, zero, and the mean of three
--   loads. MultiDevice/Clustering.antt is oi-gateway/src/multi_device/clustering.py.
-- Speech: oi-gateway/src/audio/delivery.py. Speech/Segmenter.antt has ResponseTextSegmenter and
--   _handle_stream_delta, a text being the list of its code points; Speech/Chunks.antt has the cutting of
--   WAV files of audio/tts.py; Speech/Delivery.antt has _do_deliver_audio, with the answers of the device
--   as a parameter. Speech/Cached.antt gives its commands to Device/Simulator.antt.
-- Recording: oi-gateway/src/audio/pipeline.py and clean_transcript of audio/stt.py. Recording/Stream.antt has
--   AudioStream and pcm16_to_mono, Recording/Accumulator.antt has StreamAccumulator, with base64 and the
--   speech engine as parameters, and Recording/Transcript.antt has clean_transcript.
-- Registry: oi-gateway/src/registry/service.py, heartbeat.py, store.py and models.py. Registry/State.antt has the
--   records, with the table of the SQLite store as a dict; Registry/Heartbeat.antt has HeartbeatMonitor, and
--   Registry/Service.antt has RegistryService, which uses Reconnection.antt. A call of the store in a thread
--   pool or a task is made at once. Times, heartbeat timeouts too, are whole milliseconds.
-- TextDelivery: oi-gateway/src/text/delivery.py. TextDelivery.antt has the pipeline, with the answers of the
--   devices beside the events.
-- Datp: oi-gateway/src/datp. Datp/Messages.antt has the builders of messages and Datp/Parse.antt parse_message of
--   messages.py, Datp/Schema.antt the schemas of spec.py, Datp/Server the DATPServer of server.py, Datp/Commands.antt
--   the CommandDispatcher of commands.py, with the steps of its sends in Datp/Commands/Acks.antt, and
--   Datp/Bus.antt the EventBus of events.py. A JSON value is in Json.antt. The server uses Registry/Service.antt; a socket is a number, and what is sent and closed are lists. A
--   handshake is in two parts, so that other connections can come in between (Datp/Server/Reach.antt), and a
--   future of the dispatcher has the name of its command. Which characters are digits is a parameter.
-- Characters: oi-gateway/src/character_packs/__init__.py. Characters/Pack.antt has the packs, their JSON and
--   the table of the store, Characters/BuiltIn and Templates.antt the built-in packs and the templates;
--   Validator.antt, Generator.antt and Renderer.antt have PackValidator, PackGenerator and DeviceRenderer, and
--   Service.antt has CharacterRendererService, which sends through Datp/Server.
-- Skills: oi-gateway/src/integrations/skill_sandbox.py. Skills/Broker.antt has ToolBroker, Skills/Code.antt the
--   search for forbidden code in the nodes of a program, and Skills/Sandbox.antt SkillSandbox. The parser of
--   Python, the hash and the subprocess are parameters.
-- Base.antt, Dict.antt and Sort.antt have what these share: tests on numbers and texts, signed integers,
--   lists, Python's dict as a list of items in insertion order, and a stable sort by an order.
--
-- Every loop is a recursion on a list, but two. The rounds of pop_ready_segments are as many as the buffer
-- has characters, and one, which suffice since each shortens the buffer; a result none would mean that
-- they do not. The numbers of range_by are at most as many as there are bytes, as the step is not 0.
--
-- Not modelled: the sockets of the server, its start and stop, the HTTP interface, the speech engines, the
-- agents' backends, the coding service, storage, logging, and the screens of the clients, which are input
-- and output or calls of other programs; the clustering by capabilities and by weights, the adapters of
-- other services, and the choice of the foreground device.
mod Base
pub mod Dict
pub mod Sort
pub mod Attention
pub mod Device
pub mod Routing
pub mod Reconnection
pub mod MultiDevice
pub mod Speech
pub mod Recording
pub mod Registry
pub mod TextDelivery
pub mod Json
pub mod Datp
pub mod Characters
pub mod Skills
