-- ===== src/Lib.antt =====
-- The FTP server library: a model of the server that runs one FTP session per connection, over
-- parameters for the drivers and for the network.
--
-- The state of one connection is `Client` (clientHandler, client_handler.go); a method of
-- clientHandler is a function of the monad `M` (Session/Monad): it passes on the client, the world
-- outside the server and a log of what was written, and returns or panics. The world `W` is a
-- parameter. Drivers (driver.go) and the packages net and math/rand are records of functions
-- over it, in `Env`: what they do is not modelled, only what the server does with their answers.
-- Sockets, files and drivers go by numbers. A text is a list of bytes.
--
-- Which file models which part:
--   Prelude, Text       shared names; the string functions of the standard library
--   Paths               absPath, getRelativePath (handle_dirs.go), with path.Clean, Join and Split
--   Codes, Errors       consts.go, errors.go
--   Reply               writeMessage, getMessageLines, multilineAnswer (client_handler.go)
--   Session             the state and the monad; Session/Context and Session/Tame: what drivers may
--                       change; Session/Leaves: what a method leaves of the client
--   Transfer            TransferOpen, TransferClose, closeTransfer, ABOR, the two transfer handlers
--   Dirs                handle_dirs.go
--   Files               handle_files.go; Files/Copy: io.Copy as it calls it
--   Auth                handle_auth.go
--   Data                PASV and EPSV (transfer_pasv.go), PORT and EPRT (transfer_active.go)
--   Misc                handle_misc.go
--   Ascii               asciiconverter.go
--   Server              server.go; parseLine, handleCommand, executeCommandFn, readCommand,
--                       HandleCommands and end of client_handler.go; Server/Frame: what each
--                       command leaves of the client; Server/Answer: how often each replies
--   Tests               the theorems at concrete inputs
--
-- The command loop (Server) calls the handlers of the other parts by the table `commands_map`;
-- those share the client, and reach the transfer connection only through Transfer, as the source
-- does. Commands run one after the other: a transfer command, which the source runs in a goroutine,
-- runs to its end. Transfer/Replies is about the other orders: there each step is a critical
-- section under transferMu.
--
-- Loops: the reads of a connection and the results of Accept are lists, and the loops recur on
-- them. findListenerWithinPortRange recurs on its number of attempts, at most 1000. The loop of
-- getRelativePath has fuel, one round for each element of the working directory and one more; its
-- theorem says that it finds a result with it. Ascii/Ends bounds the reads of the ASCII converter
-- by the bytes of its input, and io.Copy has that many reads of it. What the Reads of a file or a
-- connection give until an error ends them is a list, of which the driver or the network is asked
-- once, before the first write. Numbers of int64 are integers; only the differences of offsets are not
-- bounded. The client counter wraps around at 2 ^ 32.
--
-- Not modelled: panics of the drivers and what they do with a ClientContext after their call has
-- returned, ports below 0 in a range, a source that never ends, the sums of the hash functions, the
-- system calls of control_*.go, the TLS handshake, deadlines, logging and the errors of writes to
-- the control connection, which the source only logs. Bytes from 128 on stand for themselves in
-- ToUpper and in quoted texts.
pub mod Prelude
pub mod Codes
pub mod Text
pub mod Paths
pub mod Errors
pub mod Reply
pub mod Session
pub mod Transfer
pub mod Dirs
pub mod Files
pub mod Auth
pub mod Data
pub mod Misc
pub mod Server
pub mod Ascii
pub mod Tests
