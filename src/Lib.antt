-- ===== src/Lib.antt =====
-- ClearStream: the path of a call's audio, from the packet that comes in to the one that goes out, and
-- the record that is billed for it.
--
-- The program. A session (pkg/rtp/session.go) takes RTP packets in, reads their header, follows the
-- SSRC of the call leg, hands telephone events to the DTMF detector (pkg/rtp/dtmf.go) and audio to the
-- jitter buffer (pkg/rtp/jitter.go), which puts packets in order and conceals lost ones. What the buffer
-- plays is decoded, cleaned by the pipeline (pkg/audio/pipeline.go) and its suppressor, encoded and
-- forwarded to the primary destination and to the forks. The pipeline cuts its input into frames and
-- takes each through its stages; voice activity (pkg/audio/vad.go) tells which frames the suppressor
-- gets, the tracker (pkg/audio/turnend.go) when a speaker has finished, the diarizer
-- (pkg/audio/diarize.go) who speaks. Beside it a queue of bot audio (pkg/rtp/playback.go) is sent on a
-- clock of its own, and RTCP reports (pkg/rtp/rtcp.go) are read. Suppressors are shared through a pool
-- (pkg/model/pool.go), an agent stream has a table of states (pkg/agentstream/state.go) and a server that runs a pipeline for
-- each call (pkg/agentstream/server.go), calls are
-- metered and recorded in a write-ahead log (pkg/billing), and transcripts are compared to measure the
-- cleaning (pkg/eval/transcript.go).
--
-- The files. Prelude and its children hold what all share: tests on native numbers, lists, machine
-- words, integers, the operations of a float64, runs of Boolean decisions, and checks of tables. Names
-- follow the source's, in snake case; a method takes its receiver's state as an argument and returns the
-- new state first.
--   * Jitter: JitterBuffer of jitter.go, with push, pop and reset for Push, Pop and Reset. Below it
--     Plc has GeneratePLC, OnGoodPacket and detectPitch; Sequence, Window, Insert, Store, Push and
--     Order are about the order of the buffer, Bounds about its invariant, Pop and Playout about what
--     it plays, HalfCircle about a packet half the circle away,
--     Plc/Pitch, Plc/Frames and Plc/Conceal about concealment.
--   * Header: parseRTPHeader and buildRTPPacket of session.go. G711: its companding functions.
--   * Session: handlePacket of session.go. Session/Data has its types, codecs and destinations,
--     Session/Pcm the conversion of samples and bytes; Legs, Forward, Losses and Safety are about a new call
--     leg, what is sent, the count of losses (with Losses/Answers, whether the pipeline answers a
--     concealment frame), and the end of each step.
--   * Dtmf, Rtcp: ParseDTMFPayload, and the parsers of RTCP reports.
--   * Playback: PlaybackQueue, one tick of startPlaybackLoop, and InjectBotAudioAtRate from 8 kHz
--     samples on; Fifo, Ticks and Inject are about each.
--   * Pipeline: ProcessFrames of pipeline.go, a frame being a chain of steps that end at the first error
--     (Steps). Frames cuts the input, Calls has Flush, Process48k, Reset and setters, Tuning NewPipeline and
--     the other setters; Chunks, with Writing and Output, is about input in pieces, Invariant with
--     Counters about the counters and the lack of panics, Tail about the end of a stream.
--   * Vad, with Adaptive: VAD and AdaptiveVAD of vad.go; Hangover and Adaptive/Calibration are about them.
--     TurnEnd: turnEndTracker, which has such a detector of its own; Frames and Detection are about its events.
--   * Gain, with Gain/Limiter: AGC of agc.go and PeakLimiter of limiter.go; Clips is about clipped samples.
--   * Diarizer: EnergyDiarizer of diarize.go; Segments and Timeline are about its segments, Totals about
--     Stats.
--   * SuppressorPool: the pool, where the channel is a list and a wait is a result; Clients
--     interleaves the calls of its clients; Fill, Bounds and Shutdown are about its loop, its size, and its end.
--   * StreamState: the states and validTransitions; Names is about the printed names, Paths about the
--     ways through the table.
--   * AgentServer: the AgentStream server of pkg/agentstream/server.go, whose calls have such a pipeline.
--     Events has the events and parameters, Start makes the pipeline, Serve takes a connection's messages;
--     Validity, Serving and Stopped are about the handlers, a whole connection, and media after a stop.
--   * Billing: the call record of cdr.go, ratecard.go and the meter of meter.go; Units is about billed
--     units, Feature is feature.go. Billing/Wal is wal.go, with readWALFile's lines in Lines; Directory,
--     Written, Append, Stored, Rotation, Recovery and Loss are about the files and what is kept in them.
--   * Transcript: lcsMatcher and the scores of transcript.go; Longest is about it.
--   * Examples: concrete inputs for all of these.
--
-- Parts of the model. A mutex makes each method one step, and a sequence of calls is a list of them;
-- where the source
-- holds no lock over a call of the pool (Acquire, Release, Close), its halves are definitions of their
-- own. Fixed-width
-- numbers are native numbers with their wrap-around written out (u8 to u64, sub16), int16 samples and
-- other signed numbers are integers. float64 is a parameter, the record Float: no law of it is assumed
-- but in the theorem on the fade, which asks that the product of an int16 and 0.85 is cut to
-- no more than that, and in the one on billed
-- units, which asks that the quotient is rounded up exactly. To the session the pipeline, FFmpeg, the
-- callbacks and the network are the parameter Outside; to the pipeline its signal-processing stages, the clocks
-- and the writer are the parameter Stages, with a state of their own, also the gain control and limiter
-- that Gain models by themselves; to the pool the suppressors are the
-- parameter Backend. The log's directory is a list of files, and the system calls, JSON, the printed
-- time and OnFlush are its parameter Outside: any call may fail. So are the server's JSON, base64,
-- suppressors and connection. The time of a call is an argument. All loops are recursions on a list or
-- a count; the fuel of bit_length is 12, enough for the 12 bits that the encoder clips to.
--
-- Not modelled: the pools of slices (a payload is its list of bytes), sockets, goroutines, telemetry and
-- logs; RTCP's fraction lost is kept as its byte, before the division; resampling, as the other
-- signal processing (echo cancellation, noise reduction), which is arithmetic on float64;
-- a failed write, which ends the sending loop; the pipeline's average latency. The file, HTTP, WebSocket
-- and SIP front ends and the rest of the evaluation tools are other parts of the repository.
mod Prelude
pub mod Jitter
pub mod Dtmf
pub mod Rtcp
pub mod Header
pub mod G711
pub mod Playback
pub mod StreamState
pub mod SuppressorPool
pub mod Session
pub mod Billing
pub mod Vad
pub mod TurnEnd
pub mod Diarizer
pub mod Pipeline
pub mod Gain
pub mod AgentServer
pub mod Transcript
mod Examples
