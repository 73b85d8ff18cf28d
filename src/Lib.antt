-- ===== src/Lib.antt =====
-- Verification of the WalletConnect clients of the Cronos play SDK for C++: the Rust crate
-- wallet-connect, which lets a game pair with a wallet and ask it to sign. The crate has two clients.
--
-- WalletConnect 1.0 (wallet-connect/src/client.rs, client/, crypto/, protocol/, uri.rs). A connector
-- opens a websocket to a bridge; a reader and a writer task serve it; requests wait for their answers on
-- one-shot channels that a shared map finds by the request's id.
--   V1/Protocol    protocol/{topic,message,rpc}.rs: the payloads
--   V1/Crypto      crypto/{aead,key}.rs: seal, open_sealed (`open`), Key
--   V1/Uri         uri.rs: Uri::parse and the accessors
--   V1/Session     client/session.rs: SessionInfo, Session::{apply, update, event_*}
--   V1/Context     client/core.rs: Context and SharedContext, with the channels and the queue
--   V1/Socket      client/socket.rs: json_rpc_request, send_socket_msg, MessageHandler::handle
--   V1/Handshake   client/socket.rs: create_session, subscribe
--   V1/Tasks       client/socket.rs: the reader and the writer of Socket::connect
--   V1/Connector   client/{core,options}.rs: new, restore, ensure_session, request
--   V1/Tasks/Updates  the session that the reader leaves, against the updates in its frames
--   V1/Interleaving  the tasks as a step relation: each step is one access to the shared state; below it
--                  Guarantees, Requests, Owned, Accesses, Answers and Slots have what is proved
--
-- WalletConnect 2.0 (wallet-connect/src/v2/). A connector publishes encrypted envelopes through a relay;
-- a handler gets the messages of the relay and changes the session under a lock.
--   V2/Protocol, V2/Tag, V2/Method, V2/Accounts   v2/protocol.rs
--   V2/Crypto      v2/crypto.rs: derive_symkey_topic, encrypt_and_encode, decode_decrypt
--   V2/Session     v2/session.rs
--   V2/Context, V2/Handlers, V2/Dispatch   v2/core.rs: Context, its handlers, MessageHandler
--   V2/Dispatch/{Authority,History,Takeover}   what one message, and a list of them, does to a session
--   V2/Tasks       the same as the task of each message, in its single accesses to the shared state
--   V2/Interleaving   all tasks of the client as a step relation over a pool of tasks; below it Channels,
--                  Sessions, Handled, Race, Owned, Sources, Kept, Answers and Requests have what is proved
--   V2/Connector   v2/core.rs: Connector and its task loop
--   V2/Client      v2/client.rs: Client
--
-- Both clients are wrapped for a program: V1/Client (client.rs) and V2/Client sign and send what a game asks
-- for through one middleware, Middleware (WCMiddleware of client.rs and v2/client.rs), which tells the wallet
-- of a transaction by an object of texts and reads the signature from the answer. V1/Client/Dispatch has the
-- task that hands the session's events to the program.
--
-- The bindings for C++ (extra-cpp-bindings/src/) use the client of version 1 and three services.
--   Bindings/Callbacks     walletconnect.rs: a session's state and events, as C++ is told of them
--   Bindings/Client        walletconnect.rs: the client that C++ holds
--   Bindings/Client/Signing  walletconnect.rs: transactions that are signed and sent
--   Bindings/Transactions  walletconnect.rs: the EIP-155 request of a transaction
--   Bindings/Registry      wallectconnectregistry.rs: lookups and filters of the registry of wallets
--   Bindings/Registry/Cache  the same and lib.rs: fetching the registry and its file
--   Bindings/Pay           pay.rs, lib.rs: payments
--   Bindings/Explorer, Bindings/History   lib.rs: token transfers of BlockScout, histories of Cronoscan
--   Bindings/Qrcode        lib.rs: generate_qrcode
--
-- Common parts: Hex (hex.rs and serialization.rs), Rust/Effect (results with panics, and code that
-- changes a state), Rust/Decimal (printing and parsing of u64), Rust/Split (str::split and splitn),
-- Prelude (library names, Boolean tests, lists, texts and association lists). The modules named Tests hold
-- concrete crates and clients, and a run of each result at one of them.
--
-- How the code is read. A text is the list of its code points, a URL or a JSON value is its text, a DashMap
-- is an association list that holds each key once. The clients' state is a record World: the Context of
-- the code, the one-shot channels, the queue of the task that writes, and the callback channels. An
-- operation is a function from a World to a World and a Result, whose constructors are ok, err and panic (an
-- `unwrap` or `expect` that fails). Errors carry what the code decides on, not their texts. A handler
-- runs as a whole; other tasks between two of its accesses are modelled by the two step relations, in
-- which an access under one lock is one step. What other tasks do while a request waits is an argument Await, an
-- arbitrary change of the World together with the end of the wait. Random numbers, nonces and time are
-- arguments. u64 arithmetic stays within the type where it occurs: an id is reduced modulo 2^53 - 2.
-- Every loop of the code runs over a list and is structural recursion. Only the printing of a `u64` has fuel,
-- twenty, the most digits that one has; a longer number does not occur.
--
-- Parameters, with what the code relies on as named laws: the crates aes, cbc, hmac and sha2 (V1 Ciphers,
-- IsSound), chacha20poly1305, base64, x25519-dalek and hkdf (V2 Ciphers, IsSound), hex (Hex, IsLossless),
-- url and uuid (Urls, IsLawful, SetsScheme), serde_json on each type (Serde, Codec), and the printing and
-- parsing of addresses and numbers by ethers (Addresses, IsLossless, Parsers).
--
-- The resolution of a receiver's name, which sends requests of its own, is an argument that changes the state.
--
-- The crate ethers is a parameter in four views: its addresses and numbers, the accessors of a typed transaction
-- (Ethers), its setters (Transactions, IsLawful), and the client of the explorer (Etherscan). So are the HTTP
-- requests of the services with their answers read as JSON, the encoder of QR codes, and the contracts of
-- the wallet core (Contracts).
--
-- Not modelled: the websocket itself and its browser variant, the printing of QR codes on a terminal, the copy
-- of a transaction receipt for C++, the runtimes that the bindings start, and the wallet core, a submodule.
-- The channel to the task loop of version 2 holds ten messages. That a send waits for room, under the lock of
-- the session where an answer is sent, is not modelled: a send stands for the moment at which there is
-- room, so that nothing is said of how long a task takes or whether it ends if the relay stops answering.
pub mod Prelude
pub mod Rust
pub mod Hex
pub mod V1
pub mod V2
pub mod Bindings
pub mod Middleware
pub mod Tests
