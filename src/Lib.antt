-- ===== src/Lib.antt =====
-- frugal-leader-election: the scripts that run the experiments and read their logs
--
-- The repository has a Raft implementation in C++, whose nodes and clients write logs, and Python
-- scripts under scripts/ that run the experiments and read those logs. This library models the
-- scripts that read logs, which decide whether the dumped Raft logs agree and compute the numbers
-- that the experiments report, the scripts that start, stop and measure the nodes, and the programs
-- that load and measure the network meanwhile. A script that reads logs is a loop over the lines of
-- a file, with a few variables as its state. Here the state is a record, a round of the loop is a
-- function `step` into `Result`, which is a value or the Python exception, and the script is
-- `for_each step`.
--
-- The parts:
--   Consistency   scripts/verify_consistency.py: parse_file reads a dump into a table from an index
--                 to term and command, and majority_consistent counts the opinions on each index.
--                 Consistency/Parse has the line that src/node.cpp dumps.
--   Window        scripts/remote_count_timeouts.py (Count) and scripts/remote_detect_stats.py
--                 (Detect), which share the time stamps and the search for the first and last one
--                 (Stamps). Dates are whole microseconds.
--   Throughput    scripts/remote_thp_summary.py, the answers per second in a client's log, and
--                 scripts/merge_thp_summaries.py (Merge), their sum over the clients.
--   Quorums       scripts/quorum_analysis.py: how often each node is a member of a quorum.
--   Queues        scripts/concurrent_q_analysis.py: the times in a queue by sender.
--   Views         scripts/analysis.py, parse_log_file: the views of a node by term and role.
--   Durations     scripts/parse_plot_log.py, parse_log_file, and scripts/extract_failure.py,
--                 plot_view_durations: the views by role and time. The loop body is the same text in
--                 both and is modelled once; the two read the time stamp in different ways.
--   Safety        scripts/safety_margin_analysis.py: the times from an election timeout to the next
--                 stale message.
--   RespTime      scripts/analyze_resp_time.py: the latencies and the sections of leadership.
--   Failures      scripts/extract_failure.py, extract_last_heartbeat_failure and
--                 plot_failure_occurrences: the counts of failures that lines report.
--   Leaders       scripts/election_analysis.py and scripts/rank_analysis.py: the ranks and leaders in
--                 the logs of a folder. The 1800 lines that both skip are a number `n` here.
--   Terms         scripts/length_analysis.py: the heartbeats of each leader in each term.
--   Summaries     scripts/sum_all_clients.py, scripts/count_leader.py, scripts/timeout_mean.py and
--                 scripts/detection_time_analysis.py: the values that they collect.
--   Tasks         scripts/tasks.py: the nodes and their start and stop (Servers), the download of logs
--                 (Logs), the clients (Clients), the scripts that count on the nodes (Counts) and the
--                 processes of this machine (Local).
--   Zookeeper     scripts/zookeeper_setup.py: the servers of an ensemble and their leader, the
--                 delays at the switches (Switches), the YCSB workload (Workload), the quorums in the
--                 leader's log (Quorums) and the experiments that are not called (Comprehensive).
--   Delays        scripts/delay_setup/delay_setup_asymmetric_topo.py: the delays at the nodes.
--   Ycsb          scripts/ycsb_analysis.py, scripts/ycsb_analysis_auto.py, scripts/ycsb_compare.py,
--                 scripts/ycsb_compare_both.py and scripts/ycsb_thread_analysis.py: the numbers of a
--                 result file (Profile, Results), the files in groups by name (Groups), and the
--                 nodes that the YAML file lists (Connections).
--   Echo          test/star_topology_load_test/: the datagrams (Packet), the sender and the receiver of
--                 one server (Session) and those of several servers with shared tables (Multi).
--   Background    scripts/background_tcp_simulation/: the scripts that start it (Deploy), the streams of
--                 iperf3 (Iperf) and the threads of a node over the list of connected sockets (Sim).
--   Tests         runs on small logs and in small worlds.
--
-- A task or an operation on the ensemble is a program over Remote: it makes calls (a command on a
-- host, a copy, a pause, a file of this machine), and a world, which is a parameter, says from the
-- calls made so far what a call prints or that it raises. The result is a value or an exception
-- together with all calls in order. `try` is `attempt`, which keeps the calls and drops the exception.
-- Threads that make calls on several machines are a step relation (Remote/Threads), in which any
-- thread may come next. So are the threads of Echo and of Background/Sim, whose steps are the accesses
-- to what they share, and what the network does is any step that it can do.
-- Zookeeper sends its delays through Delays, and Tasks runs on the nodes the scripts of Window and
-- Throughput.
--
-- Beneath them:
--   Base          Python's lists, dicts, counters, sorted sets, integers and exceptions.
--   Text, Regex   texts as lists of character codes, and regular expressions in the order in which
--                 Python's `re` tries its choices: greedy and lazy repetition, groups, anchors.
--                 `run` is structural in the pattern and the text and needs no fuel.
--   Time          datetime and timedelta in microseconds, with the range of years that Python allows.
--
-- Bounds: numbers are unbounded as they are in Python, and the packets of Echo have those below
-- 2 ^ 32. The loop of `designate_leader` may run
-- for ever, so it has fuel, one for each round, and says whether it ended by its own test. The fuel
-- is enough where the node leads before the first round or after one of them. Nothing else runs on
-- fuel.
--
-- Text is what `open` decodes; a character class such as `\d` is modelled for ASCII. Not modelled:
-- floats (a parameter, with `float` as a partial function), the arguments of the scripts, what they
-- print and plot, the pauses between packets, scripts/background_tcp_simulation/local_tcp_sim.py, which
-- has the threads of Background/Sim for five nodes in one process, the launcher of the echo test, the
-- C++ program, and loader.py, which loads a probe into the kernel. The order of `sorted` on names, the
-- clock, random numbers and the YAML library are parameters. A host stands
-- for Fabric's connection to it. Files and folders are parameters: the lines of a file, or none for
-- a missing one.
pub mod Base
pub mod Text
pub mod Regex
pub mod Time
pub mod Consistency
pub mod Window
pub mod Views
pub mod Durations
pub mod Safety
pub mod RespTime
pub mod Failures
pub mod Leaders
pub mod Throughput
pub mod Quorums
pub mod Queues
pub mod Terms
pub mod Summaries
pub mod Remote
pub mod Tasks
pub mod Zookeeper
pub mod Delays
pub mod Ycsb
pub mod Echo
pub mod Background
pub mod Tests
