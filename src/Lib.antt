-- ===== src/Lib.antt =====
-- The core of the battle server of PhK-BattleServer, modelled from its C++ sources.
--
-- The program takes sealed packets from players over UDP, keeps a fair order of them, runs the
-- rules of a match in ticks and leaves an auditable log. The parts that are modelled, and where:
--
-- * Protocol (src/protocol.cpp, include/phk/battle/protocol.hpp and version.hpp): the packet types;
--   Protocol/Nonce for `DevAeadNonceHex`, Protocol/Json for the JSON scanner, Protocol/ModeAction
--   for `ValidatePlaintextModeActionPayload`, Protocol/Dispatch for `BattleDispatcher`, whose three
--   maps are a record that each call takes and returns. Protocol/Replay and Protocol/Traffic hold
--   the step relation over packets, Protocol/Sealed what concerns sealed packets.
-- * Sha256 and LobbyRng (src/lobby_rng.cpp): SHA-256, `ShortHashHex`, `LobbyDeterministicUnit` and
--   `HmacSha256Hex`, executable. The unit is kept as its numerator over 10000.
-- * Coop (src/coop_boss.cpp, include/phk/battle/coop_boss.hpp): the mode with a shared boss. Setup
--   has the constructor, the players, the inputs and the queue of events; Mechanics the schedule of
--   shield, cannon and spiral, which asks LobbyRng; Spawn the bullets; Tick the tick. Accounts and
--   Invariant carry the proofs, Runs, Replay and Progress the calls of the runtime in any order;
--   Snapshot has what the clients see, the state hash and the seats.
-- * ChainLog (src/chain_log.cpp, include/phk/battle/chain_log.hpp): the hash chain of accepted
--   operations, over `ShortHashHex`.
-- * CardHand (src/card_hand.cpp, include/phk/battle/card_hand.hpp): the hand of cards.
-- * Kcp (src/kcp_endpoint.cpp, include/phk/battle/kcp_endpoint.hpp): the adapter that binds
--   sessions to addresses, over an interface `Backend` of the battle server and the endpoint.
-- * Aead (src/aead.cpp, include/phk/battle/aead.hpp): `ParseEnvelope` and `ParseHeader` as one loop
--   over the fields; Aead/Encoding, Aead/Rounds and Aead/RoundTrip the wire format they read,
--   Aead/Termination the rounds; Aead/Open has `OpenEnvelope` and what it calls, with the decryption, over the nonce
--   of Protocol/Nonce.
-- * Ticket (src/ticket.cpp, include/phk/battle/ticket.hpp): the records and the canonical text;
--   Ticket/Digits and Ticket/Decimal for `ParseDecimalInt64Text`, Ticket/Checks for
--   `TicketVerifier::Verify` as the list of its checks, Ticket/Verification and Ticket/Verified
--   what a verified ticket is.
-- * Handshake (src/handshake.cpp, include/phk/battle/handshake.hpp): `HandshakeManager::Accept` and
--   the development material it derives, from a verified ticket.
-- * Dem (src/dem.cpp, include/phk/battle/dem.hpp): replay files. Dem has the records and the body,
--   Dem/Json `DemJsonParser`, with a printer of documents in Dem/Json/Printing that it is compared
--   with; Dem/Header the header, Dem/Container `WriteDemDocument` and
--   `ParseDemDocument` over the chain of ChainLog, Dem/Recorder `DemRecorder`.
-- * Simulation (src/simulation.cpp, include/phk/battle/simulation.hpp): the players of a match and
--   their inputs. Simulation/Validation has `ValidateInput`, Simulation/Acceptance `AcceptInput` and
--   Simulation/Players `AddPlayer` and `SetPlayerConnected`, over the log of ChainLog; Admissible,
--   Inputs, Buffer, Roster and Invariant carry the proofs, Runs the calls in any order.
--
-- Base holds what they share: lists, byte strings, ordered maps for `std::map`, integers.
-- Strings of the program are lists of bytes, except reasons and response kinds of the dispatcher.
--
-- Bounds. Tick and sequence numbers are numbers without a width, but for the chain log, whose
-- numbers wrap at 2 ^ 64; the hashes wrap at 2 ^ 32 and 2 ^ 64 as the code does; positions are
-- integers without a width. The printer of decimals has one unit of fuel for each digit and more;
-- the scanner of JSON walks the text it is given, and the padding of SHA-256 has fuel for a whole
-- block, which is proved to be enough. The parsers of envelopes and of replay bodies have a round
-- for each byte, and the material of the handshake one for each digit, which is proved to be enough
-- too. The JSON parser of replay headers has fuel of twice the length of the text and one more: each
-- value, member or element costs two units at most, and takes a byte at least.
--
-- Parameters. `double` and <cmath> are the records `Libm`, `Amounts` and `EnergyText`, of which
-- nothing is assumed; the weapon tables and the versions of the build are arguments. The calls of
-- OpenSSL are the record `Evp`, and zlib's two calls the record `Zlib`; of both, one theorem assumes
-- what their manuals say. Where a parser fails, what it had written to its output is not kept: its
-- callers do not read it.
--
-- Not modelled: the rest of src/simulation.cpp (the tick, the actions of a mode, cards, the damage
-- of the boss and the snapshots), the boss race, the server and the life of a match, MD5, base64,
-- files and uploads of replays, results, the KCP sessions over the vendored ikcp, and the danmaku
-- patterns.
pub mod Base
pub mod Protocol
pub mod Sha256
pub mod LobbyRng
pub mod Coop
pub mod ChainLog
pub mod CardHand
pub mod Kcp
pub mod Aead
pub mod Ticket
pub mod Handshake
pub mod Dem
pub mod Simulation
