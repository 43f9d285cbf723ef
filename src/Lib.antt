-- ===== src/Lib.antt =====
-- The segue daemon runs machines made of adaptors (boards), drivers (devices) and controllers
-- (programs), which exchange messages through queues. This library models the daemon's core and
-- proves how it behaves.
--
-- The parts, and the files of the repository that they follow:
--   Message        common/message/message.go, common/seguepb/segue.pb.go: identities, payloads
--   Queue          common/message/queue.go: `NewQueue`, `Add`, `Get`, `Done`, `ShutDown`
--   Convert        common/message/message.go: `ConvertToInternalFormat`, `ConvertToExternalFormat`
--   Router         common/message/message.go: `MessageRouter` and one round of `AddListener`
--   Nodes          common/messagerouter/messagerouter.go: the router of a network of nodes
--   Master         plugins/rf24networknode/rf24networknodebackend/master.go: a network's master
--   Radio          plugins/rf24networknode/rf24networknodebackend/rfhook.go, children.go: frames over
--                  the radio, and a network's children
--   Messenger      pkg/controllers/grpcmessageserver.go, mpi.go and the `listen` of
--                  plugins/rf24networknode/rf24networknode.go: queues over gRPC streams
--   Processes      common/procwatcher/procwatcher.go: the processes of plugins
--   StatusLog      pkg/machine/machine.go, status.go: the ring of a machine's last logs
--   Options        pkg/option/option.go: Boolean options
--   Machine        pkg/machine/machine.go: `StartDrivers`, `StopDriver` and the like for controllers
--                  and adaptors, and the `Start` and `Stop` of pkg/drivers, pkg/controllers and
--                  common/driverapi/robot.go
--   Factories      pkg/drivers/drivers.go, pkg/controllers/controllers.go, pkg/adaptors/adaptors.go
--                  and the `ValidateConf` methods
--   Daemon         daemon/daemon: `MachineJoin`, `MachineLeave`, the requests, `restoreMachine`
--   Http           daemon/server/handlers.go, routes.go and common/client: the daemon's HTTP interface
--   Drive          pkg/controllers/autonomous_drive.go, pkg/drivers/dualmotors.go, led.go
--   Producers      pkg/drivers/ultrasonic.go, pkg/controllers/lirc.go: who numbers messages
--   Plugin         plugins/rf24networknode/rf24networknode.go: which configurations it accepts
--   Lirc           pkg/controllers/lircbackend: reading the LIRC daemon's lines, and who handles a key
--   Errors         the errors that these return
--   Prelude, Tests what the others share, and sample runs
--
-- How they interact: the daemon keeps machines by id and passes requests on to them, once the
-- factories have made configurations of the envelopes. A machine gives each driver and controller
-- two queues, subscribes the receive queue to message types, and has a listener forward what comes
-- out of the send queue. A part takes messages with `Get` and finishes them with `Done`.
--
-- State is passed explicitly. A `*Queue` is an address in a store, so that one queue may stand in
-- many sets, and a slice of `Lirc` is a prefix of an array that others may share. A method that
-- holds a lock for its whole length is one function, and an interleaving is a list of calls
-- (`Call`, `Input`). An error is a value; a call that panics or blocks forever is `stuck` or
-- `panics`. Machine integers wrap around by an explicit remainder.
--
-- Loops are recursive on lists. Fuel occurs in four places. `Radio.receive` gets more than the radio
-- holds, which is enough if each `Read` takes something out. `StatusLog.dump_from` gets five units:
-- the loop visits at most the four cells of the ring. `Queue.Drain.drain` gets one more than the
-- queue's length. `Daemon.Leave.range_stop` counts the rounds that Go's `range` makes, which are the
-- length that the slice has when the loop begins.
--
-- Parameters of the model: protobuf (`Codec`), encoding/json (`Wire`), Go's strings (`GoStrings`),
-- the devices, sockets, files and the clock (`Outside`), the radio and COBS (`Network`, `Wire`),
-- mux and resty (`Mux`, `Client`), hex and strconv (`Text`), and the operating system (`System`).
-- Where the outcome depends on which goroutine comes first, as in `Processes.Masters` and
-- `Radio.Workers`, the choice is an argument.
--
-- Not modelled: sockets and connections, command lines, printing, generated code and vendored libraries.
pub mod Prelude
pub mod Message
pub mod Errors
pub mod Queue
pub mod Radio
pub mod Messenger
pub mod Processes
pub mod Http
pub mod Lirc
pub mod Plugin
pub mod Convert
pub mod Options
pub mod Machine
pub mod Factories
pub mod Router
pub mod StatusLog
pub mod Daemon
pub mod Nodes
pub mod Drive
pub mod Master
pub mod Producers
pub mod Tests
