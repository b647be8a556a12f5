-- ===== src/Lib.antt =====
-- Split inference: a fleet of microcontrollers runs the head of a neural network up to a cut, sends
-- the tensor at the cut over UDP, and a server runs the tail.
--
-- How the parts interact: `Scheduler.run` (orchestrator/scheduler.py) dispatches requests to the
-- nodes that the registry (orchestrator/registry.py) holds ready and that the policy
-- (orchestrator/policy.py) wants, with the cut that the policy selects. A node (scripts/sim_node.py)
-- acknowledges the ASSIGN and sends its tensor as fragments (orchestrator/protocol.py). The server
-- (orchestrator/server.py) hands heartbeats to the registry, acknowledgements to the scheduler and
-- fragments to the reassembler (orchestrator/reassembly.py), which asks for missing fragments and
-- settles the future that the scheduler awaits. slicer/slice.py cuts the model beforehand, and
-- orchestrator/experiment.py runs one policy and derives the best cut per node from a sweep.
-- scripts/preflight.py runs all policies one after the other and checks what they left in the log
-- (orchestrator/logger.py).
--
-- Where what is:
--   Base           results with Python's exceptions, lists, dictionaries, methods that mutate
--   Wire           orchestrator/protocol.py: the struct formats, `pack`, `unpack`, heartbeats,
--                  fragments, NACKs, and the CRC-32 of zlib
--   Config         orchestrator/config.py: the sections and the derived helpers
--   Reassembly     orchestrator/reassembly.py: State the fields, Receive the methods, Chunks and
--                  Steps what one event does, Delivery and Tensor a whole request, Timeout the
--                  timer, Invariant all events
--   Registry       orchestrator/registry.py: Table the methods, Lifecycle their laws
--   Policy         orchestrator/policy.py: Choice the methods, Sweep, Deepest and Clamp their
--                  laws
--   Server         orchestrator/server.py: Dispatch the data port, Control the control port,
--                  Heartbeats a heartbeat from the node to the registry
--   Scheduler      orchestrator/scheduler.py: World the state, Handle the code between two awaits,
--                  Load, Segments, Passes and Flight the load of the nodes,
--                  Lost the end of a request without acknowledgement, Late of one without tensor,
--                  Flights, Lighter, Shrinking, Within, Offers and Cap the cap on the load, Ledger,
--                  Counted, Booked, Numbered and Logged the counts against the log
--   Slicer         slicer/slice.py: Graph what crosses a boundary, Candidates the boundaries, Build
--                  the submodels, Cut the loop over the cuts; Kept, Pools and Renaming what a
--                  submodel keeps, Run the interpreter that is assumed, Faithful a submodel under
--                  it, Crossing and Boundaries the boundaries, Agreement, Halves and Halving the
--                  head and the tail one after the other
--   SimNode        scripts/sim_node.py: Node the handlers, Serving and Coherence their invariant,
--                  Resend what a NACK makes the node send, Stream all that it sends, Delivered the
--                  way from the node to the reassembler
--   Tail           orchestrator/tail.py: Fifo the queue and its worker
--   Logger         orchestrator/logger.py: Rows the tables and their inserts
--   Experiment     orchestrator/experiment.py: Best `derive_best_table`, Driver the decisions of
--                  `amain`, Session all of it as a list of effects, Waiting and Endings how it
--                  ends
--   Preflight      scripts/preflight.py: Queries the rows and what is asked of them, Gates what
--                  the rehearsal checks, Verify all of it, Passed what a rehearsal without failure
--                  has shown, Sequence the runs and Handover what they leave to each other
--   Training       model/train.py: Dataset the labels, the calibration set and the gate, Labels,
--                  Picks and Calibration what they hold; model/make_flash_assets.py and
--                  `_load_assets` of scripts/sim_node.py: Assets the flash images, Readback that
--                  they are read
--   Header         scripts/gen_config_header.py: Defines the lines for the firmware
--   Figures        analysis/figures.py: Stages and Projection the numbers behind the figures,
--                  Crossover what the projection says
--   Examples       the theorems at concrete inputs
--
-- How code became definitions: a method is a function from the state to a result and the state
-- after it; a raise is a result `err` and keeps what was written before. A coroutine is cut at its
-- awaits, each part is a function, and a step relation lets the event loop run the parts in any
-- order. Futures, timers and tasks are handles or entries of the state. Bytes are numbers, and
-- packing fails on a field that is out of range, as struct does. Times are whole microseconds and
-- arguments. Fuel is that of `slices`, the length of what is sliced, of the CRC, eight bits, and of
-- the waiting loop of `amain`, its polls: one more than the sleeps of 0.2 s that `wait_timeout` is
-- below is enough.
--
-- Not modelled: asyncio, SQLite, TensorFlow, numpy and flatbuffers, the sockets, files and prints;
-- the C code under firmware, which speaks the same protocol; the network and its
-- training, the drawing of figures and host scripts. TensorFlow Lite's interpreter is a parameter of
-- the slicer's theorem, the order of floats one of the projection's, numpy's draws one of the
-- calibration set's, and what SQLite answers beside GROUP BY one of the rehearsal's.

pub mod Base
pub mod Wire
pub mod Config
pub mod Reassembly
pub mod Registry
pub mod Policy
pub mod Server
pub mod Scheduler
pub mod Slicer
pub mod SimNode
pub mod Experiment
pub mod Examples
pub mod Logger
pub mod Tail
pub mod Preflight
pub mod Training
pub mod Header
pub mod Figures
