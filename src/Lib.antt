-- ===== src/Lib.antt =====
-- The Opta gateway: an Arduino sketch that reads a water harvester's PLC over EtherNet/IP on one
-- thread, mirrors it to the Arduino cloud on another, and guards both with a watchdog feeder on a
-- third. The library models the parts that decide on their own: who is blamed and when the board
-- is reset, when the cloud library may run, what the threads hand to one another, how the chamber
-- doors are moved, how the PLC is spoken to, and how the gaps of an outage are filled.
--
-- The parts, and the files that model them (paths from the repository's root):
--   Watchdog       wd_feeder.h: `wdFeederLoop` is `feed`; the stamps `wdBeat*`, `wdWhere*` are
--                  `beat` and `go_to`. It reads the stamps that every other part leaves.
--   Probe          cloud_probe.h: `cloudProbeOnce` is `probe_once`, `cloudUpdateAllowed` is
--                  `update_allowed`. Its counters are evidence for the ladder.
--   Ladder         cloud_ladder.h: `cloudLadderTick` is `tick`; it returns the acts of a pass
--                  (drop the association, write the marker, reset the board) as a list.
--   Episode        episode_log.h: the flight recorder that the ladder fills (`episodeLogAdd` is
--                  `log_add`) and writes before a reset (`episodeLogPersist` is `persist`).
--   Rings          the overwriting ring under the recorder and the replay.
--   Shared         shared.h: `sharedPublish`, `sharedTake`, `sharedCtrlWrite`, `sharedCtrlRead`,
--                  `sharedCmdPost`, `sharedCmdTake` are `publish`, `take_snapshot`, `ctrl_write`,
--                  `ctrl_read`, `cmd_post`, `cmd_take`. Each is one step, so that an interleaving
--                  of the two threads is a list of these steps. The queue is a `rtos::Mail`, which
--                  is not in the repository: the list stands for its documented behaviour, a pool
--                  of sixteen slots handed on first in first out. `try_alloc` with `put`, and
--                  `try_get` with `free`, are one step each: a slot is not seen between the two.
--   Ctrl           cloud_ctrl.h: the callbacks between the dashboard and that queue. `ctrlGate`,
--                  `ctrlPost`, `ctrlBool`, `ctrlManual`, `ctrlClearFault`, `ctrlOnCloudSync`,
--                  `ctrlOnCloudDisconnect` are `ctrl_gate`, `ctrl_post`, `ctrl_bool`, `ctrl_manual`,
--                  `ctrl_clear_fault`, `on_sync`, `on_disconnect`; the two cycle times share
--                  `ctrl_minutes`.
--   Say            plc_thread.h: `clearSay` is `say`, the end of `clearVerifyTick` is `overlay`.
--   Laco           laco_doors.h: `lacoStart`, `lacoGate`, `lacoTick`, `lacoStep`, `lacoWriteSide`,
--                  `lacoPoll`, `lacoAbort` are `start`, `gate`, `tick`, `step`, `write_side`,
--                  `poll`, `abort`. It runs on the PLC thread, and speaks through Say.
--   Enip           EtherNetIP.cpp, EtherNetIP.h: the client of the PLC's protocol. Enip.Path is
--                  `buildPath`, Enip.Request the message builders (`buildCipRequest`,
--                  `wrapUnconnectedSend`), Enip.Read `readExact`, Enip.Session `begin`,
--                  `registerSession`, `end`, `sendRRData` and `parseCipReply`, Enip.Value and
--                  Enip.Calls the typed reads and writes, Enip.Packet the batched request of
--                  `readRealsMSP`. The transport is an argument: whether it connects, what it
--                  takes, the bytes that it brings.
--   Replay         influx_replay.h: the records of an outage. `replayCapture` is `capture`,
--                  Replay.Lines has `rpFmtFloat`, `rpLine` and `rpBuildBatch` as `fmt_float`,
--                  `add_num` and `build_batch`; Replay.Tick has `replayTick` as `tick`;
--                  Replay.Store has `replayPersist` and `replayLoad` as `persist` and `load`. The
--                  KVStore is a parameter, and Replay.Restore names what is asked of it.
--   Manual         plc_thread.h: the outputs of a drain by hand. `manS4` and `manS5` are `man_valve`,
--                  `manPump`, `manPumpWrite`, `manualTick`, `manDisarm` are `man_pump`,
--                  `man_pump_write`, `manual_tick`, `man_disarm`.
--   Commands       plc_thread.h: `applyCommand`, `clearFault` and `drainCommands` are
--                  `apply_command`, `clear_fault` and `drain_commands`. They call Manual, Laco and
--                  Water, on one state of the PLC thread.
--   Water          flow_meter.h (Water.FlowMeter: `flowTick` is `flow_tick`) and water_plc.h:
--                  `waterOnReset`, `hmiUpdateDue`, `tripHistoryPush`, `waterVolWrap`, `waterToPlc`
--                  are `water_on_reset`, `hmi_update_due`, `push_hist`, `water_vol_wrap`,
--                  `water_to_plc`, the last in stages in Water.Books. A pass is given what the PLC
--                  answers to each read, and which writes it takes by their place in the log.
--   Sweep          plc_tags.h, plc_thread.h: `pollSensorsInto` is `poll_sensors`, with the tables
--                  `sensor_tags`, `real_slots` and `dint_slots`.
--   FlowWatch      flow_watch.h: `flowWatchJudge` is `judge`, the switch of `flowWatchTick` is
--                  `advance`, its end `lay_over`, and the whole `flow_watch_tick`.
--   Base           numbers, Boolean tests, lists as arrays, 32-bit words, and the `float` that the
--                  model takes as a parameter.
--
-- The statics of a header are a record, and each function takes it and returns it. The clock is an
-- argument: one reading stands for the reads of `millis()` within a call. Milliseconds and counters
-- are natural numbers below 2 ^ 32 with their wrap-around written out (`sub32`, `add32`, `inc32`).
-- The answers of the network, the PLC, the resolver and the KVStore are arguments, without a law
-- assumed of them but those that a theorem names. Loops over texts and tags have fuel: the bytes of
-- the tag in `buildPath`, the number of tags in the sweeps, the number of records in the KVStore
-- loops, ten digits in the decimal print; each is enough, since a round of the loop takes at least
-- one of them. The loop of `waterVolWrap` has as many rounds as the volume has full turns, which are
-- enough as far as the `float` takes a turn off exactly, below 2 ^ 29 litres. Texts are within the
-- buffers that the source gives them, save those that the model clips as the source does.
--
-- Not modelled: the log lines and the pins; the sweeps of valves, state words and the heat pump, the
-- read-back of cleared faults and the reconnect of plc_thread.h; the TLS transport of the InfluxDB
-- push; the cloud mirror (cloud_side.h); the boot marker; the serial console and the WiFi portal,
-- which are input and output; the tables of config.h and thingProperties.h.
pub mod Base
pub mod Water
pub mod Watchdog
pub mod Probe
pub mod Shared
pub mod Say
pub mod Laco
pub mod Ladder
pub mod Rings
pub mod Episode
pub mod Ctrl
pub mod Enip
pub mod Manual
pub mod Commands
pub mod FlowWatch
pub mod Sweep
pub mod Replay
