-- ===== src/Lib.antt =====
-- Three programs that scale GitHub Actions runners on EC2, modelled from their Go sources.
--
-- ghaec2 listens to the message queue of a runner scale set. Its parts:
--   * Ghaec2/Types: the structs of the actions service (ghaec2/gha_actions_client.go) and how
--     encoding/json fills them, with the messages on jobs in Types/Jobs;
--   * Ghaec2/Config: Config, LoadConfig and Validate of ghaec2/main.go;
--   * Ghaec2/Client: the client's token and error path, with its start (Client/Setup and its children:
--     the requests, the checks and the registration), the scale sets (Client/ScaleSets),
--     the calls on messages and jobs (Client/Messages) and on sessions (Client/Sessions), from
--     ghaec2/gha_actions_client.go;
--   * Ghaec2/Tracker: the map of EC2 instances of ghaec2/message_queue_scaler.go. Its list of entries
--     implements a function from the keys (Tracker/Refines); the other children are lemmas on it;
--   * Ghaec2/Scaler: MessageQueueScaler of the same file: the session and the scaling decision,
--     parseMessage (Scaler/Parse), the way of a message (Scaler/Messages), the polling loop
--     (Scaler/Polling) and Run (Scaler/Start). The other children are its laws;
--   * Ghaec2/Process: main of ghaec2/main.go, from the configuration to the exit status.
--
-- github-runner-scaler is a function of AWS Lambda that a timer starts. Its parts:
--   * Lambda/Types and Lambda/Client: the GitHub Enterprise API of github-runner-scaler/ghe_client.go,
--     with the runs of all repositories (Client/Runs) and the filter by labels (Client/Filter);
--     Client/Pages, Client/Shared and Client/Matching are their laws;
--   * Lambda/Labels: the tests on labels of ghe_client.go and crd_logic.go;
--   * Lambda/Crd: github-runner-scaler/crd_logic.go, the demand counted job by job;
--   * Lambda/Pipeline: github-runner-scaler/pipeline_monitor.go, the fallback;
--   * Lambda/Config, Lambda/UserData (the scripts of an instance), Lambda/Aws, Lambda/Handler and
--     Lambda/Minimum: github-runner-scaler/main.go;
--   * Lambda/Demand: AnalyzeRunnerDemand of ghe_client.go, which no other code calls.
--
-- github-runner-scaler/ghalistener-ec2 listens to the message queue too: Listener/Types and
-- Listener/Client are its gha_actions_client.go, Listener/Config the configuration of its
-- main.go and Listener/Scaler its scaler.go, whose runners are stubs.
--
-- Prelude has the shared names, Go's int as integers that wrap at 64 bits, and functions on strings.
-- Json has JSON values and the decoding of a struct. Effect has the outside: every external call is
-- an event of a history, and a record `Env` of functions answers it from the history so far, so
-- that every sequence of answers is an `Env`. An action is a state-passing function that returns a
-- value, an error or a panic; the state after an error is kept, as in Go. The children of Effect are
-- rules on actions: what they call at most (Calls) or always (Exactly), what they return (Returns),
-- that they return no value (Fails, with the ways in which a process ends), what holds of a value and
-- the events up to it (Ends), and when two actions do the same (Same).
--
-- Parameters: the network's answers, url and JSON parsing, random numbers, the clock, the order in
-- which a loop over a Go map visits its keys, EC2 and DynamoDB. The polling loop runs on the list of
-- the rounds' ticks, one for each round until the context is done, so it needs no fuel. The loop over
-- the pages of repositories has ten rounds, after which the source stops it; Client/Pages shows that
-- more make no difference. The registration has six rounds, as the source gives up in the sixth. All
-- other loops are structural. The pointer that Lambda/Client/Runs gives to a run is an address, and the
-- loop's variable, to which it leads, is overwritten in each round.
--
-- Not modelled: logs, the locks (each operation takes the tracker's lock for its whole body), the
-- goroutine that waits for a signal (its effect is the end of the list of ticks), timeouts of the http
-- client, AWS itself, and main of github-runner-scaler/ghalistener-ec2/main.go: it does not compile,
-- and its package with it, since its local variable config hides the AWS package of that name, whose
-- functions it calls. The rest of that package is modelled as it is written.
pub mod Prelude
pub mod Json
pub mod Effect
pub mod Ghaec2
pub mod Lambda
pub mod Listener
pub mod Tests
