-- ===== src/Lib.antt =====
-- Verification of gortsplib, a Go library for RTSP clients and servers.
--
-- The program. A server keeps a session for each RTSP dialogue (server_session.go). A session moves
-- between the states Initial, PrePlay, Play, PreRecord and Record by requests, and sends what it
-- has to send through a writer whose queue is a ring buffer (pkg/ringbuffer). The RTP packets that
-- come in over UDP pass through a reorderer (internal/rtpreorderer), those that come in over TCP
-- through a loss detector (internal/rtplossdetector); an RTCP receiver (internal/rtcpreceiver)
-- counts them for its reports. A stream (server_stream.go) sends the packets of a program to the
-- sessions that read it, and an RTCP sender (internal/rtcpsender) counts them. A client (client.go)
-- moves between the same states, by requests that it sends. The packets of a video are made and
-- read by the encoder and the decoder of its format (pkg/format/rtph264), and their timestamps by
-- those of pkg/rtptime. Requests, responses and the interleaved frames of packets share a connection
-- (pkg/conn), which reads and writes them with pkg/base.
--
-- The files. A component is a file, with what is proved of it in the files of its folder, and its
-- runs on concrete inputs in the module Runs there.
--   Common        numbers, words of w bits, bytes, lists and tests that all files use
--   Rtp           an RTP packet of github.com/pion/rtp, as data
--   LossDetector  internal/rtplossdetector/lossdetector.go: Process
--   Reorderer     internal/rtpreorderer/reorderer.go: Initialize and Process, each loop a function
--   RingBuffer    pkg/ringbuffer/ringbuffer.go: New, Close, Reset, Push, Pull; Queue is the FIFO
--                 queue that it refines
--   Receiver      internal/rtcpreceiver/rtcpreceiver.go: ProcessPacketRTP, ProcessSenderReport and
--                 report, with the computations on times and floats as parameters;
--                 Ntp has PacketNTP and Stats
--   Frame         pkg/base/interleaved_frame.go: the frames of packets inside an RTSP connection
--   H264          pkg/format/rtph264: Encoder for encoder.go, Decoder for decoder.go, a function for
--                 each method and each case of its switches
--   Session       server_session.go: Session has the state, Requests the requests with their parsed
--                 headers, Channels the interleaved channels, Setup, Methods and Handle the cases of
--                 handleRequestInner, Loop the cases of runInner; callbacks of Methods is from
--                 server_session_media.go
--   RtpTime       pkg/rtptime: the encoder of timestamps and the decoders GlobalDecoder2, GlobalDecoder
--   Sender        internal/rtcpsender/rtcpsender.go: ProcessPacketRTP, report and Stats
--   Stream        server_stream.go, server_stream_media.go, server_stream_format.go: Readers has what
--                 changes the readers, Writes the packets to them, Steps the calls as steps
--   Lpcm          pkg/format/rtplpcm: the encoder and the decoder of uncompressed audio
--   Mpeg4Video    pkg/format/rtpmpeg4video: Encode and Decode
--   Message       pkg/base and pkg/conn: Header, Body, Request, Response for the files of these names,
--                 Status for the messages of the status codes, Conn for conn.go; Reader is utils.go,
--                 Writer a buffer that is written, Decimal what is used of strconv
--   Client        client.go: Exchange has do and doOptions, Describe, Setup and Methods the requests,
--                 Routines what starts and stops with them, Loop the cases of runInner
--
-- How state is modelled. A struct is a record, and a method a function from the record to the new
-- record and its results. A panic (an index out of range, a nil pointer) is none, as is a loop
-- that does not end in its rounds. A uint16, uint32 or uint64 keeps its wrap-around. A mutex makes
-- a method one step. The map of a header is the list of its entries in the order of their keys.
-- What the code reads from elsewhere is an argument: random bytes, the limits and the Annex-B
-- reader of github.com/bluenviron/mediacommon, the text of URLs, what the handlers of a server return.
--
-- Rounds of loops. The reorderer's unbounded loop has as many rounds as its buffer has entries.
-- A round of the STAP-A loop takes two bytes at least, so the length of the payload and one more
-- are enough. A media uses two even channel pairs at most, so twice the medias and one more rounds
-- find a free pair. That these are enough is part of what is proved. Nothing in the client bounds
-- the redirects that it follows, so `bound` does; where it is reached, the result says so.
--
-- What is not modelled. Sockets, goroutines and timers, beyond the events of a session and of a
-- client. The text of error messages. The reading of URLs, of the values of headers and of session
-- descriptions: a session gets them read.
-- In a session, the reading and writing of packets, the statistics, and the closing of its
-- connections. In the client, the packets of its medias. The other formats, authentication.
pub mod Common
pub mod Rtp
pub mod LossDetector
pub mod Reorderer
pub mod RingBuffer
pub mod H264
pub mod Session
pub mod Receiver
pub mod Frame
pub mod Client
pub mod RtpTime
pub mod Sender
pub mod Stream
pub mod Lpcm
pub mod Mpeg4Video
pub mod Message
