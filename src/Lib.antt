-- ===== src/Lib.antt =====
-- Sanzu is a remote desktop: a server captures a screen and its sound and sends them encoded to a
-- client, which shows them and sends back the input of its user. Both talk through a tunnel of
-- framed protobuf messages (sanzu-common), directly or through a broker and a proxy.
--
-- The parts and their files:
-- - Prelude: lists, Boolean tests and machine integers that the parts share; Prelude.Bytes states
--   what is used of the byteorder crate. Outcome: `Result` of anyhow, with its chain of contexts
--   from the outermost, and panics; `Io S A` is a function with a state that it may change.
-- - Messages: the messages of sanzu-common/proto/tunnel.proto3, those of the server and those of
--   the client.
-- - Proto: sanzu-common/src/proto.rs. Stream is the connection: what the peer sent, what was
--   written to it, and how many more writes it takes. Tunnel has `Tunnel::send` and `recv`, with
--   the codec of prost as a parameter (a record of functions, faithful on the message at hand);
--   Events has the relay of errors and the macros that send and receive one kind of message.
-- - Principal: sanzu-common/src/utils.rs.
-- - Sound: sanzu/src/sound.rs. Capture has the queue that the sound source fills, Encoding the
--   encoding of what is read from it, Playback the queue of the decoder and the device.
-- - Server: sanzu/src/server_x11.rs. Areas has the windows that the server reports and their
--   operations, Poll has `poll_events`. A HashMap is an association list in the order of its
--   traversal. An X request is a function of the state of the X server at the moment of the call.
--   Input has `handle_client_event`, with what is asked of the X server as a list of fake inputs;
--   Image has `generate_encoded_img`.
-- - Client: sanzu/src/client_x11.rs. The root of it has the key table and what changes it, Poll has
--   `poll_events`; Poll.Pressed says which keys a server believes down after some messages. Frame has
--   `put_frame`, on as many rounds as the image has lines, which is enough where a band has a line.
-- - Clipboard: `listen_clipboard` of sanzu/src/utils_x11.rs.
-- - Xwd: `get_xwd_data` of sanzu/src/utils.rs.
-- - Proxy: `run_server` of sanzu/src/proxy.rs. The root of it has the filters of one turn of the loop,
--   with the encoders as parameters; it uses Xwd for images and Sound.Encoding for sound. Handshake
--   has what precedes the loop, over the two connections (`connect`), Turn a whole turn
--   (`relay_turn`).
-- - Session: sanzu/src/server.rs and sanzu/src/client.rs. The root of it has the exchange of versions
--   and the reports of errors, Server what precedes the loop of `run_server` (`accept`), Client what
--   precedes the loop of `do_run` (`join`), Serving a turn of the server (`serve_turn`), Viewing a
--   turn of the client (`view_turn`), with its state in Viewer. The graphics server, the encoder and the sound of the server
--   are a record of functions (Graphics, Duties), and so are the window, the decoder and the user
--   of the client (Window, Viewer, ClientInterface).
-- - Auth: the authentication. Certificate has `get_subj_alt_names` of
--   sanzu-common/src/tls_helper.rs and what `auth_client` makes of it, Pam has
--   sanzu-common/src/auth_pam.rs, where a conversation of PAM is a tree of what it asks, and
--   Kerberos the Unix half of sanzu-common/src/auth_kerberos.rs, for the server and the client.
-- - Broker: sanzu-broker/src/main.rs. The root of it has the authentication and the arguments of the
--   callbacks, Forward the loop that carries the bytes of the two connections.
-- - WinKeys: the tables of sanzu/src/utils_win.rs.
-- - Osd: sanzu/src/osd.rs, the drawing on the pixels of an image.
-- - Buffer: a slice that is read and written by index. Its Plane has buffers that are written row by
--   row, its Rows several such buffers in one state, its Groups buffers whose bytes are written in
--   groups, its Pixels images of four bytes for each pixel, its Interleave two buffers in one.
-- - Yuv: the portable conversions of sanzu/src/yuv_rgb_rs.rs. The root of it has their factors and
--   what they compute of a pixel, Planar the conversions to and from three planes of one size
--   (`yuv444`), Blocks those with one chroma for a block (`yuv420` and `nv12`), which are instances of
--   one loop.
-- - Raw: the encoder and the decoder that pass raw images on, of sanzu/src/video_encoder.rs and
--   sanzu/src/video_decoder.rs.
-- - Tests: the theorems at concrete inputs, with instances of the parameters.
--
-- How the parts meet: what Client.Poll sends, Proxy filters by `relay_client` and Server.Input
-- handles; the theorems of the three on the keys that are down are stated with the same function
-- `pressed`. What Server.Poll and Server.Image send, Proxy filters by `relay_server`. Proto carries
-- both ways. Session.Agree joins the streams of a server and a client up to their loops,
-- Session.Turns for a turn of each; Proxy.Connected and Proxy.Told put the proxy between them, with
-- the same frames. Session and Broker share the exchange of versions, and Broker takes its users
-- from Auth.
--
-- Numbers are natural numbers; where the source computes on a machine integer that can wrap, the
-- wrap-around is written out, as in a build without overflow checks; the index of a byte in a buffer
-- does not wrap. The `f32` of the colour factors are exact fractions. A sound sample is a number without further meaning. Loops are
-- structural: over the list that is drained, or on fuel. The fuel of `first_free` is one more than
-- the areas, which is enough since the keys below it cannot all be taken; the fuel of the encoder's
-- loop is the length of the sound, which each round shortens. The login of the client and the rounds
-- of Kerberos take a message of the peer in each round, which shortens what is left to read: one more
-- round than there are bytes to read is enough. Events, and what calls of the X server
-- come to, are given to a poll as a list; a poll that fails loses its messages.
--
-- Not modelled: the calls of X11, Windows, FFmpeg, opus, cpal, GSSAPI, PAM and rustls, the sockets,
-- the threads and their timing, the reading of files and of the command line, and log output. What
-- the modelled code takes from them is a parameter or an argument. Of the sessions, the features
-- `notify` and `printfile` are left out, which are off unless asked for. Of the colour conversion,
-- the variants with SSSE3 intrinsics and those with rayon are not modelled, nor are the encoders and
-- decoders of FFmpeg and the graphics of Windows (sanzu/src/server_windows.rs, client_wind3d.rs).
pub mod Prelude
pub mod Outcome
pub mod Messages
pub mod Proto
pub mod Principal
pub mod Sound
pub mod Server
pub mod Client
pub mod Clipboard
pub mod Xwd
pub mod Buffer
pub mod Yuv
pub mod Raw
pub mod Osd
pub mod Proxy
pub mod Auth
pub mod WinKeys
pub mod Session
pub mod Broker
pub mod Tests
