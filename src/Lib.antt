-- ===== src/Lib.antt =====
-- A model of avacadovnc, a VNC (RFB) client and server library in Go.
--
-- Parts and files:
--   Common, Wire, Outcome: shared names and lemmas, the bytes of encoding/binary, and what a call can
--   end in (a value, an error value or a panic).
--   Pixel: `PixelFormat` (encoding_types.go); Pixel.Pool has `Marshal` with the buffers of `bPool`, as addresses.
--   Canvas: `VncCanvas` (canvas.go). A canvas is its size, a function from positions to colours, and
--   the cursor. A method holds the mutex for its whole body, so it is one step.
--   Conn, Conn.Access: `ClientConn` (client.go) and `ServerConn` (server.go) as one record with a role,
--   and the methods that read and set its fields. A method is an action on the record: it takes the
--   connection and gives an outcome and the connection, also where it fails.
--   Decode: `Encoding.Read` of encoding_raw.go, encoding_copyrect.go, encoding_desktopname.go,
--   encoding_desktopsize.go, encoding_pointer_pos.go, encoding_atenhermon.go (Plain); encoding_rre.go
--   and encoding_corre.go (Rre); encoding_hextile.go (Hextile); encoding_zlib.go (Inflate);
--   encoding_zrle.go (Zrle); encoding_tight.go and encoding_tightpng.go (Tight); encoding_cursor.go and
--   encoding_xcursor.go (Cursors); and the header and the choice of the decoder (Dispatch). Hextile.Tiles and
--   FileReader.Jobs say what a rectangle asks for, without its bytes.
--   Convert: `ReadPixel` and `PixelToRGBA` (encoding_util.go).
--   Message: the messages of encoding_types.go and messages_aten.go, and the loop
--   `handleIncomingMessages` of client.go, which takes its rounds as fuel.
--   Message.Outgoing: `handleOutgoingMessages` of client.go, on the messages that it takes.
--   Lifecycle: the goroutines of a client connection (client.go) as steps in any order: the loops go
--   from place to place and end for the reasons that their code has, and `is_own` tells the steps of a goroutine
--   itself from those that need the server, the network or the application. `Close` goes from its test of
--   `closed` over the quit channel and the network connection to the wait group, and the deferred calls
--   follow.
--   Serving: server.go, `Start` and `Stop` as steps in any order, and `handleConnection`, which runs the
--   handlers of Handshake, as a function.
--   Security: security_none.go, security_vnc.go, security_aten.go, security_vencryptplain.go and
--   security_tight.go. Handshake: handlers.go and `Connect` of client.go.
--   Fbs: fbs-connection.go and fbs-reader.go, a recorded session as the bytes of a file.
--   Images: `Image` (image.go) and `RGBImage` (rgb-image.go) as a place in an array of bytes that images
--   share. Ppm: encoders/image-enc.go, which writes them as PPM files.
--   Video: the encoders of encoders/ that give the frames to an ffmpeg process, by their codec.
--   Logger: logger/logger.go. Keys: keys.go, `IntToKeys` and the blocks of constants, and
--   buttons.go.
--   Mock: mock_conn.go. FileReader: example/file-reader/main.go, the mock connection that it makes over a
--   recording and its own reader of updates. ClientApp: example/client/main.go, the loop over the messages
--   and the frames that it saves. Proxy: `handleProxyConnection` of example/proxy/main.go, two connections and
--   the goroutines between them, as steps in any order, those of the peers and the network told apart.
--   Tests: the theorems at concrete inputs.
--
-- Interaction: a handler of the handshake and a message of the loop act on a connection; an update
-- finds a decoder among the connection's encodings; a decoder reads from the connection, draws on its
-- canvas, and leaves the state of the encoding in the connection's list. The server runs the handlers of
-- the handshake on a connection of its own, the loop of outgoing messages flushes what the handshake
-- left in the buffer, and a video is the PPM files of its images one after the other. The reader of a
-- recording is the reader of a mock connection, and the updates of FileReader run the decoders on a
-- connection with a canvas.
--
-- Conventions. A byte is a number below 256, a uint16 or uint32 keeps its wrap-around, and an int32
-- encoding type is the uint32 with the same bits. The peer's bytes are a list that ends in EOF.
-- bufio.Writer is two lists, what is pending and what was sent; what is written between two flushes fits
-- into its buffer here, and a flush fails if the link is down. `BPP` of a format counts bits; the decoders take
-- as many bytes for a pixel, and so do the definitions. An error keeps its text, without the arguments of
-- its format, and the error that it wraps. The log lines of the methods, time and deadlines are left out.
--
-- The decoders of the Go library are parameters: `Codecs` for compress/zlib, image/jpeg and image/png,
-- `encrypt` for crypto/des, `blend` for the arithmetic of draw.Over,
-- and `nan` for the conversion of a NaN to a byte. Nothing is assumed of them. Ppm and Video take the
-- writer, the decimal digits of fmt and the conversion of other colours; Video also takes which files
-- there are, the pipe and the end of the process. A theorem that needs it says of the writer that it is
-- one stream of bytes (`IsStream`), or that it takes all bytes. Keys takes what `%d` of fmt gives,
-- Pixel.Pool which buffer sync.Pool takes, ClientApp which files can be made and written, Images the colours
-- of a source and their conversion, and Mock what its reader and its writer do.
--
-- Fuel: the loops of Hextile take 4096 rounds for each direction, and those of ZRLE 4098; a round
-- advances by 16, or by the width of the last tile. The row loop of a ZRLE tile takes one round more
-- than its width. A loop that uses up its rounds ends in the fault `out_of_fuel`, which no Go code
-- raises. `rectangle_write` takes the room on the stack, since the method calls itself.
--
-- Not modelled: the dialer of `Connect` and of the proxy, the read deadline, the flush of a full
-- buffer of bufio; a client of the server that is silent, and handlers that are not of this library; the
-- color models of the images; the processes of ffmpeg;
-- the flags and the signals of the example programs, and the example server, which only calls
-- `NewServer` and `Start`.
pub mod Common
pub mod Wire
pub mod Outcome
pub mod Pixel
pub mod Canvas
pub mod Conn
pub mod Convert
pub mod Decode
pub mod Message
pub mod Security
pub mod Handshake
pub mod Fbs
pub mod Lifecycle
pub mod Proxy
pub mod Images
pub mod Serving
pub mod Ppm
pub mod Video
pub mod ClientApp
pub mod Mock
pub mod FileReader
pub mod Logger
pub mod Keys
mod Tests
