-- ===== src/Lib.antt =====
-- The tool of the high-availability tests of the database cluster (ha-test/hatest): it reads the
-- state of a three-node Patroni cluster, injects failures, measures what happens, judges, and
-- brings the cluster back.
--
-- The parts, from the bottom up. The values that are read from the cluster (model.py) are built
-- by a cluster, real (cluster.py) or simulated (simulated.py). The measurements (measure.py) are
-- functions of the recorded values. The baseline check (baseline.py) compares a snapshot with
-- the configuration (config.py). A run (runner.py) checks the baseline, asks, takes the lock,
-- runs a scenario (scenarios.py), restores the cluster, and judges (report.py).
--
-- Which file models which part:
-- - Common and its children: shared helpers; Python dictionaries as association lists
--   (Common.Maps), sets of texts (Common.Sets), stable sorting (Common.Sort), integers
--   (Common.Int), texts (Common.Texts).
-- - Model: ha-test/hatest/model.py, every type, and the lag of a node (Model.Lag).
-- - Measure: ha-test/hatest/measure.py, every function, with a child for each measurement.
-- - Clock: FakeClock and fmt_bytes of ha-test/hatest/clock.py.
-- - Config: the types of ha-test/hatest/config.py, its checks (Config.Validity), and the reading
--   of its sources (Config.Load, Config.Sources); the case of letters and the reading of a
--   number are parameters.
-- - Display: the tables of ha-test/hatest/console.py and ha-test/hatest/status.py; the width of
--   a character and the display of a time are parameters.
-- - Baseline: ha-test/hatest/baseline.py, one function for each item of the checklist. A missing
--   key, which raises KeyError, is none.
-- - Cluster: the owner of the VIP by the AWS metadata and the boot_id in
--   ha-test/hatest/cluster.py, RemoteResult of ha-test/hatest/remote.py and parse_key_values of
--   ha-test/hatest/parse.py. Cluster.Methods and Cluster.Recorder have the other methods of
--   cluster.py, as operations of Cluster.Session over the commands sent so far; the nodes are a
--   parameter that answers each command. Cluster.Ssh is what ha-test/hatest/remote.py hands to
--   ssh and logs.
-- - Json: the values of json.loads. Parse: the other readers of ha-test/hatest/parse.py, those
--   of the watches in Parse.Watches; Parse.RoundTrip reads what Simulated.Texts writes.
-- - Commands: ha-test/hatest/commands.py. The children hold the scripts with their templates; a
--   ValueError is none. Commands.Filled takes a template as a list of texts and places.
--   shlex.quote, of the standard library, is quote.
-- - AppClient: AppClient of ha-test/hatest/appclient.py. AppClient.Session is its MCP session,
--   AppClient.Protocol the protocol as a state machine over the requests. The server and
--   json.loads are parameters.
-- - Grafana: GrafanaMarks of ha-test/hatest/grafana.py; the server is a parameter that answers
--   each request.
-- - Report: the types and the verdict of ha-test/hatest/report.py.
-- - Runner: ha-test/hatest/runner.py. Runner.Effects is the monad: an action has the calls made
--   so far and the local variables of TestRunner.run as its state, and returns or raises. The
--   cluster, the person at the terminal and the clock are an environment, a parameter, that
--   answers each call from the calls before it: it may return anything, raise, or interrupt.
--   Runner.Restore is restore_cluster.
-- - Scenarios: ha-test/hatest/scenarios.py, each scenario as an action of a run that ends with a
--   pure function from what it recorded to its outcome; of H-2 this function alone, in
--   Scenarios.ReadDistribution. The display of durations (fmt_seconds) is a parameter, since it
--   rounds binary floats.
-- - Simulated: ha-test/hatest/simulated.py. The functions that a script schedules are the
--   constructors of Change. Simulated.Script is SimScript, Simulated.Operations the methods of
--   SimulatedCluster, Simulated.Logs the logs that it makes up.
-- - Eval: scripts/eval. Eval.Limiter is RateLimiter and Eval.Measures the measures of
--   rerank_ab.py; Eval.Overlap, Eval.Quota and Eval.Questions are max_shared_ngram, the choice
--   of the chunks, and the client and build_one of build_qa_set.py. The readings of the clock
--   and the answers of the API are parameters; ratios are pairs of numbers, since the source
--   divides floats.
--
-- Times are milliseconds in the native numbers. Differences of times are integers, since clocks
-- of different nodes may disagree. Loops that wait run on fuel, one round more than the pauses
-- that fit into the limit; Runner.Terminates, Scenarios.Ends and Simulated.Logs.Loops show that
-- it is enough.
--
-- Not modelled: the lines of progress that are printed, the files that a run writes, SSH, HTTP
-- and AWS calls, the watches that run beside the tool, and the run of the scenario H-2, which
-- loads the search of the app. The Kotlin server, the web front end and the infrastructure files
-- of the repository are other programs.
pub mod Common
pub mod Model
pub mod Measure
pub mod Clock
pub mod Config
pub mod Baseline
pub mod Cluster
pub mod Json
pub mod Parse
pub mod Commands
pub mod AppClient
pub mod Grafana
pub mod Report
pub mod Display
pub mod Runner
pub mod Scenarios
pub mod Simulated
pub mod Eval
