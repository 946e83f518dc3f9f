-- ===== src/Lib.antt =====
-- The deterministic control core of flyto-robotics: the mission controller that takes a robot through
-- a workflow of primitives, the data that it works on, and the policies and guards beside it.
--
-- The parts, and the code that each models (paths from the repository's root):
-- - Prelude: names of the libraries, lists and integers over the native numbers, texts.
-- - Python: values of JSON, exceptions and results, the methods of an object as functions from its
--   state to a result and a state, and floats. A float is an element of an abstract type, with its
--   operations in the instance `Runtime`; a law of floats that a theorem needs is a hypothesis of it.
--   `decimal n d` is the literal n / 10^d. Platform has the services of the Python library as
--   instances: hashes, the character tables, the encoded length, and the JSON codec. Integers are taken to be in the range of floats where the code converts them.
--   Checks has the parsers' chains of tests and Mappings the reading of decoded JSON.
-- - Contracts: the records of flyto_robotics/contracts.py.
-- - Capabilities: the pattern of safe identifiers of flyto_robotics/capabilities.py.
-- - Workflow: flyto_robotics/workflow.py, with the checks of the constructors.
-- - LinePerception: the observations of flyto_robotics/line_perception.py that the controller reads.
-- - SemanticMap: flyto_robotics/semantic_map.py, its locations and `to_dict`; Document has
--   `parse_semantic_location_map`, and Store `load` and `remember`. The file is its text, with the
--   fault that the next write meets, and is replaced as a whole; the JSON codec is a parameter. The proofs on `remember` are in Saving, and those
--   that its document is parsed to the map in Reading, RoundTrip and Recall.
-- - Mission: flyto_robotics/mission.py. SensorGate has `evaluate_sensor_gate` with its proofs in
--   Readiness, Ranges has `sector_field` and `RangeField`, Controller the state, the transitions
--   and the decisions of people, Guard the obstacle guard, Motion, LineFollowing and Waiting the
--   handlers of the primitives, Tick `tick` and `result`. Frame, Settles, Steps, Safety and
--   Approval have the proofs: what a write leaves alone, how a handler ends, sequences of calls,
--   motion, and human gates.
-- - BridgeGuard: flyto_robotics/bridge_guard.py, with its supervisor and inbox in Supervisor, and the
--   proofs in Forwarding and Origin. Each method is one step, since a lock holds while it works on the
--   state; what it sends or calls is an effect that it returns.
-- - DependencyPolicy: flyto_robotics/dependency_policy.py, the assessment in Assessment, and the
--   proofs on assessments in Consistency, on parsed contracts in Validity and on their round trip in
--   RoundTrip.
-- - CmdVelPolicy: `resolve_cmd_vel_type` of flyto_robotics/cmd_vel_policy.py.
-- - Handoff: flyto_robotics/guarded_handoff.py. The session with its handlers; Session has `apply`,
--   Parsing the policy and the script, Gates, Handlers and Unlocking the proofs on the container,
--   Moves those on the machine of eight states, History those on the log, Scripts those on
--   `run_scripted_handoff`. A session's id is taken to be a safe identifier, as the parser of the
--   script has tested it.
-- - HumanApproval: flyto_robotics/human_approval.py, with the clock's reading as an argument, and the
--   proofs on the tests in Checks, on nonces in Nonces and on signing in Signing.
-- - SafetyProfile: flyto_robotics/safety_profile.py, and `_constrained_by_site` of
--   flyto_robotics/contracts.py in Site. Audit has the record of a change and the change with its two
--   writes, whose faults are arguments: the profile is written as a whole or not at all. The proofs
--   are in Limits, Jobs and Changes.
-- - RouteGraph: flyto_robotics/route_graph.py, which uses the dependency contracts. Evaluation has
--   `evaluate`, Parsing the parser and the file. The proofs are in Gathered on the evidence of an item,
--   in Usable and Filtering on what is excluded, in Ranking on the order, and in Shape and Validity on
--   what is parsed.
-- - PathClearance: `judge` of flyto_robotics/path_clearance.py, with `sweep_beams` of
--   flyto_robotics/inflation_escape.py. Returns states what admits a motion, Loops has the proofs on
--   the loops over the beams, Judging those on the verdict.
-- - Examples: a runtime on thousandths, tests, and each theorem at a concrete input.
--
-- A controller is driven by sequences of calls (`Call` in Mission/Steps): ticks with a pose, ranges
-- and a line scene, cancellations, failures, and decisions of people. A controller method that raises
-- keeps the state that it has reached. All loops are over lists, so nothing runs on fuel.
--
-- Not modelled: nodes, launch files, simulation and command lines, which do input and output only;
-- the image processing, the parsing of jobs from JSON, the rendering of evidence
-- and audits, and the other policies of the package.
pub mod Prelude
pub mod Python
pub mod Contracts
pub mod Capabilities
pub mod Workflow
pub mod LinePerception
pub mod SemanticMap
pub mod Mission
pub mod BridgeGuard
pub mod CmdVelPolicy
pub mod DependencyPolicy
pub mod Handoff
pub mod HumanApproval
pub mod PathClearance
pub mod RouteGraph
pub mod SafetyProfile
pub mod Examples
