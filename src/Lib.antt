-- ===== src/Lib.antt =====
-- A driver for u-blox cellular modules: the crate ublox-cellular, under ublox-cellular/src.
--
-- The driver talks to the module by AT commands. A `Device` (client.rs, power.rs) switches the
-- module on, initializes it and keeps it registered; it holds a `Network` (network.rs), which sends
-- commands through `AtTx`, takes in unsolicited messages, and watches the registration that
-- registration.rs keeps. `spin` is called again and again; it initializes where that is needed and
-- lets a round of events happen. `data_service` (services/data/mod.rs) spins, defines and activates a data
-- context, and lends network and sockets to a `DataService`, on which tcp_stack.rs, udp_stack.rs,
-- ssl.rs and dns.rs stand.
--
-- Which file models what:
--   Error          error.rs, services/data/error.rs, `Error` of network.rs
--   Command        the data of command/: Types (enumerations), Request (the commands with their
--                  arguments), Responses and Unsolicited (what the module answers and reports),
--                  Declared (which answer a command has), Codes (the number an enumeration's value
--                  is sent as), Profile (the tags of a profile's parameters), Limits (how long a
--                  command may take, and how often it is tried), Lengths (how long its texts may be)
--   Config         config.rs (`CellularConfig`: pins and flow control)
--   Env            the modem behind the `atat` client, clock and pins, as functions of a log of what
--                  the driver has done, the strings of heapless and the Cargo features
--   Effect         code that changes state and may fail: a function of state and log; below it, rules
--                  for what such code keeps (Laws), returns (Yields), that it ends (Ends), and what
--                  a run consists of (Runs)
--   BlockingTimer  blocking_timer.rs (`wait`)
--   Registration   registration.rs: Domain (`CellularRegistrationStatus`), Params (the conversions),
--                  State (`RegistrationState`: `reset`, `compare_and_set`, `set_connection_state`);
--                  Codes also has command/network_service/impl_.rs
--   Network        network.rs: State (`AtTx::send`), Urcs (`handle_urc`, `send_internal`), Watch
--                  (`check_registration_state`, `update_registration`, `check_running_imsi`),
--                  Intervene (`intervene_registration`), Events (`process_events`)
--   Sockets        the interface of the crate ublox-sockets, as records of operations
--   Device         client.rs and power.rs: State, Timing (module_timing.rs), Power, Setup (`initialize`
--                  and what it calls), Spin (`spin`, `process_events`, `send_at`)
--   Data           services/data: Context (mod.rs up to `activate_context`, apn.rs), Ingress
--                  (`socket_ingress_all`), Service (`data_service`), Stack (what the two socket
--                  stacks share), Tcp (tcp_stack.rs), Udp (udp_stack.rs), Ssl (ssl.rs), Dns (dns.rs)
--   Pin            command/device_lock/impl_.rs (the bytes of a `PinStatusCode`)
--   Text           strings of the crate heapless, whose capacity is bounded, and, as a record of
--                  operations, addresses as text
--   Hex            services/data/hex.rs
--   Session        an application: calls of `spin`, of the power functions and of `data_service`, and
--                  within a data service calls of its sockets, its SSL and its DNS functions, in
--                  any order
--   Examples       examples: SysTimer, ExtPin and Serial (common_lib/src: timer.rs, gpio.rs,
--                  serial.rs), FileHandler (linux_jobs/src/file_handler.rs), Sockets
--                  (sockets/src/main.rs; Running has the loop of `main`, on a device), Jobs
--                  (linux_jobs/src/main.rs), Mqtt (linux_mqtt/src/main.rs), Reading (the threads
--                  of all three that read the port), UrcReady (the flag that two threads of
--                  linux_jobs and of linux_mqtt share, as a step relation on their interleavings)
--   Samples, Tests concrete surroundings and states, and the theorems at them
-- The other modules below these hold proofs, and are named for what they are about.
--
-- An operation on `&mut self` is a function from the state and the log to an outcome, a state and a
-- log: an error keeps what was changed before it, as in the source. An instant is a number of
-- ticks. Numbers are natural numbers; the `u8` counters add as `saturating_add` does.
--
-- Bounds: the busy loops of `BlockingTimer::wait` and `wait_power_state` run at most
-- `Env.spin_limit` rounds, and a loop that would run longer halts with `out_of_fuel`, which is
-- no error of the source. More rounds than a duration has ticks are enough for a wait with a clock
-- that moves on; with as many rounds as 30 s have ticks, the longest wait of the driver, nothing in it
-- runs out of them on a board with a power pin. `power_on` and `hard_reset` call one another without a bound in the source; here
-- the depth is bounded, by `Env.spin_limit` where other code calls them. A buffer is cut into chunks
-- in as many rounds as it has bytes. An example's `nb::block!` tries at most as many rounds as it is
-- given.
--
-- Not modelled: logging (fmt.rs) and what lib.rs declares; the text of commands, which the `atat`
-- crate derives from the data; the capacity of strings but for those that the driver makes by
-- `String::from`; what the derive macros make of a declared length; the serde code around a
-- `PinStatusCode`; `from_buffers`, which only builds the client; of the examples, the opening of
-- ports and pins, the building of the clients of the crates mqttrust and rustot, whose calls are
-- parameters, and the hash that file_handler.rs logs.
pub mod Prelude
pub mod Error
pub mod Command
pub mod Env
pub mod Config
pub mod Effect
pub mod BlockingTimer
pub mod Registration
pub mod Network
pub mod Sockets
pub mod Text
pub mod Pin
pub mod Device
pub mod Data
pub mod Session
pub mod Examples
pub mod Hex
pub mod Samples
pub mod Tests
