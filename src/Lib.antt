-- ===== src/Lib.antt =====
-- gogame is the server side of a game: a gate that clients connect to (gamegate), a router that
-- connects gates with game and team servers (router), and the packages both stand on (base, protocol,
-- common, errcode).
--
-- How the parts meet: a connection (base/network/tcpconnection.go) reads frames off its socket with a
-- codec (base/network/session/codec.go) and hands each to a session proxy, which drops the session
-- when it passes its limit and otherwise hands the bytes to a listener of the router. The listener
-- unpacks the head of a server message (protocol/packet.go) and runs its handler in the event loop,
-- so that handlers run one at a time; the handler looks up the registry it needs and sends packed
-- messages into sessions, whose connections queue them for a goroutine that writes.
--
-- The gate keeps a map from accounts to clients. A client's message goes through `HookClientMessage`,
-- in which a login looks up the token and the server of its account in Redis and puts the client into
-- the map, and is then forwarded to a game, team or instant-message server by the range of its id. The
-- connections to routers and instant-message servers are clients of base/network/tcpclient.go; what
-- arrives there goes to the clients of the map, to other instant-message servers, or into the lists of
-- servers, from which a login takes the server that it is sent to.
--
-- The files:
--   Packet     the byte cursor `Packet` of protocol/packet.go. Writes and Reads have its operations;
--              Cursor, Fields, Floats and Bounds have proofs.
--   Message    client and server messages of protocol/packet.go: Marshal, UnMarshal, PackSSMessage
--              and UnpackSSMessage. Marshal, Head and Length have proofs.
--   Framing    `SessionCodec` of base/network/session/codec.go, and the read loop of `serve` in
--              base/network/tcpconnection.go. Stream has proofs.
--   Connection the send side of base/network/tcpconnection.go: Send, Shutdown and backgroundWrite.
--              Order and Drain have proofs.
--   TcpServer  base/network/tcpserver.go. Tracked and Closed have proofs.
--   TcpClient  base/network/tcpclient.go. Served and Kept have proofs.
--   Session    base/network/session/session.go and proxy.go. Limit and Verify have proofs.
--   Router     router/server.go and client.go; Router/Sync has the messages with the lists of servers,
--              Router/Internal and Router/Portal are internal.go and portal.go. The other children
--              have proofs.
--   EventLoop  base/eventloop/eventloop.go; Timers is timer.go, and Tickers ticker.go. Order
--              has proofs.
--   Processor  protocol/protobuf.go. Inverse has proofs.
--   HashRing   base/util/hashring.go. Update has the operations that change a ring, and
--              GetNodes. The other children have proofs.
--   Gate       gamegate/client.go: clients and what is sent to them; Gate/Login has `handlerLoginMsg`
--              and `HookClientMessage`, Gate/Forward `Receive` and the forwards, Gate/Routers and
--              Gate/RouterLink are gamegate/router.go, and Gate/Ims, Gate/ImServers, Gate/Dispatch
--              and Gate/ImLoop gamegate/imclient.go. History has what happens from outside. Kept,
--              Joined, LoggedIn, Stranded, Reported, Synced, Chosen, Relayed and Unclaimed have
--              proofs.
--   RedisMutex base/dao/redis/redismutex.go. Total, Moves, Safety and Broken have proofs.
--   Redis      base/dao/redis/rediskey.go and the queries of redis.go. Keys has proofs.
--   Logger     base/logger/logger.go: levels, the count of errors and the rotation of files. Rotated has
--              proofs.
--   ErrCode    errcode/errorcode.go.
--   Service    base/service/service.go. Steps and Ordered have proofs.
--   Generator  protocol/cmd/main.go, which gives messages their ids and writes the registration. Program
--              reads the generated file as Go does, independently of the generator. Missing, Entries,
--              Written, Loaded, Reload, Again, Compiled, Listed, Registered and Runs have proofs.
--   CsvTable   base/csvtable/table.go: the values of fields. Rows has Load, setRowValue and Unmarshal.
--              Typed, Columns, Unmarshal, Loaded and Printed have proofs.
--   CsvParse   common/csvparse/types.go: the conversions and the setting of elements. Lines has loadCSV.go
--              up to LoadCSVArr, and Maps LoadCSVMap. Printed, Restored and Filled have proofs.
--   Text       what the code uses of strings, strconv and bufio; Literals reads numbers with
--              prefixes. Digits, Numbers, Joined and Trimmed have lemmas, and Keyed has maps with strings as keys.
--   Consts     the constants of common/consts.go.
--   Common     the shared names and lemmas: Boolean tests, lists over native numbers, fields of bit
--              patterns, and association lists for Go's maps.
--
-- Conventions: a byte is a number below 256 and a slice of bytes is a list; a machine word is its bit
-- pattern, and a conversion to a w-bit word is `% 2 ^ w`. Counters of statistics and times are not
-- bounded. A Go error is a value of a data type or `none`; a panic is an outcome of its own where the
-- code can reach one. Critical sections under a mutex are atomic steps, and the schedule is a list of
-- steps. A Go map is an association list whose order stands for the order of iteration, which Go
-- leaves open. Pointers that several owners hold are references into a store.
--
-- The gate's clients and routers are references into the stores of a `Gate`. A message that the gate
-- marshals with protobuf, what Redis answers, the random number and a client's address are fields of
-- `Gate.Notices`, `Gate.Login.Env` and `Gate.Ims.Site`. Of the Redis lock, the counter is an integer
-- without a bound, and a step is one command of one client, with its outcome.
--
-- Fuel: `read_loop` stands for a loop without a bound. Every frame takes at least the four bytes of its
-- header from the stream, so fuel above the length of the stream is enough. The binary search of the
-- hash ring halves its range, so the number of keys is enough.
--
-- Not modelled: in gamegate the start of the process and the goroutine of a router; package
-- protobuf and its generated messages (in the router, `protocol.Marshal` is a field of `Router.Sync.Env`; for the
-- registry of messages, the library and reflection are `Processor.Proto`); MD5 (a field of
-- `HashRing.Env`); sockets themselves (the bytes a reader delivers and the outcome of each
-- write are given), and a panic of a handler, which `serve` recovers; the removal of expired logs, configuration files, and the Redis client, of which `Redis` has
-- the answers. Of the generator, the Go parser gives the declarations of a file; a
-- comment of several lines and lines of 4096 bytes or more are outside its round trip. Of the tables,
-- the csv reader gives the records, and ParseFloat and the narrowing of floats are `CsvTable.Floats`. Of
-- csvparse, floats, encoding/json and the methods of types are `CsvParse.Env`.
pub mod Common
pub mod Connection
pub mod Consts
pub mod CsvParse
pub mod CsvTable
pub mod ErrCode
pub mod EventLoop
pub mod Framing
pub mod Gate
pub mod Generator
pub mod HashRing
pub mod Logger
pub mod Message
pub mod Packet
pub mod Processor
pub mod Redis
pub mod RedisMutex
pub mod Router
pub mod Service
pub mod Session
pub mod TcpClient
pub mod TcpServer
pub mod Text
