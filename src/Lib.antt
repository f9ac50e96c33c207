-- ===== src/Lib.antt =====
-- Verification of ZeroKnowledgeNetwork/opt: the directory authority of the mix network, the HTTP proxy
-- that wallets use over it, and the program that writes the configurations.
--
-- The authority (pki/server) collects the descriptors of the mix network's nodes, votes on a document
-- per epoch through an appchain, and serves the documents to clients. A worker runs one round after
-- the other (`fsm`), the rounds start fetches of documents in the background, and peers open
-- connections whose commands change or read the shared state. The steps that change the state hold its
-- lock: a round as a whole, the end of a fetch, each handler of an upload. The checks before a handler
-- only read what no step changes, so that a run is a sequence of steps (Authority/Run). It starts from
-- the peer tables of its configuration and the database of an earlier run.
--
-- walletshield packs an HTTP request of a wallet into a message of the mix network; the plugin on a
-- service node sends the request to a configured target and packs the body of the response. genconfig
-- writes the configuration of a node with its own authority, or that of a client.
--
-- The files and the code:
--   Authority/Types       the records exchanged, and the calls into katzenpost and hpqc as `Katzenpost`
--   Authority/State       the `state` struct and the configuration (pki/server/state.go)
--   Authority/Schedule    the deadlines (state.go, aux.go)
--   Authority/Topology    generateTopology, generateRandomTopology, generateFixedTopology,
--                         sortNodesByPublicKey, verifyTopology (state.go)
--   Authority/Upload      onVoteUpload, onCertUpload, onRevealUpload, onSigUpload (state.go)
--   Authority/Descriptor  isDescriptorAuthorized, onDescriptorUpload and those of replicas (state.go)
--   Authority/Consensus   documentForEpoch, pruneDocuments (state.go), the part of
--                         zkpki_backgroundFetchConsensus that stores a document (aux.go), and
--                         onGetConsensus (wire_handler.go)
--   Authority/Wire        wireAuthenticator, onConn and the handlers of each role (wire_handler.go)
--   Authority/Document    getDocument, hasEnoughDescriptors (state.go), lambdaG (aux.go)
--   Authority/Chain       the requests to the appchain (state_chain_comm.go), over a `ChainBridge`
--   Authority/Fsm         fsm, zkpki_getVote and the other parts of a round (aux.go), getVote
--   Authority/Run         the runs of the whole authority, and what holds in all of them
--   Authority/Tally       tallyVotes (state.go) and computeLambdaG (server.go)
--   Authority/Commits     verifyCommits (state.go)
--   Authority/Agreement   computeSharedRandom, getCertificate, getMyConsensus, doCommit, reveal,
--                         getThresholdConsensus, persistDocument (state.go)
--   Authority/Restore     restorePersistence (state.go)
--   Authority/Startup     newState (state.go), zkpki_newState (aux.go), and in Startup/Keys the keys
--                         of New (server.go)
--   Proxy                 the compression (common/compression.go) and what both sides exchange
--   Proxy/Plugin          the plugin (server_plugins/cbor_plugins/http_proxy)
--   Proxy/Wallet          sendRequest and Handler (apps/walletshield/main.go)
--   Proxy/Relay           the two together, against a reverse proxy
--   Genconfig/Network     genconfig/config/network.go
--   Genconfig/Identifier  identifierIsValid
--   Genconfig/Types       the configurations that are written (genconfig/genconfig.go)
--   Genconfig/Disk        the files and the keys: saveCfg, cfgIdKey, cfgLinkKey
--   Genconfig/Plugins, Genconfig/Nodes  genNodeConfig, genVotingAuthoritiesCfg
--   Genconfig/Input, Genconfig/Run      Genconfig itself, genClientCfg, genClient2Cfg
--   Genconfig/OnDisk, Pinned, Agrees, Elsewhere, Saved, Written  what a run leaves in the files
--   Base                  lists, maps, outcomes, permutations, and texts as lists of bytes
--   Tests                 concrete runs
--
-- How the code is read. A Go map is an association list with the key's 32 bytes as a number; an error
-- is an `Outcome` or an `Option`; a panic is the outcome `panics`; what a handler answers is the code
-- of its status. uint64 arithmetic wraps (`add64`, `sub64`). A duration is a natural number of
-- nanoseconds, a sleep an integer. Every loop is a recursion on the list, on the number of layers or
-- on the number of descriptors that it goes through. Only the decimal digits of a number (`itoa`) are
-- computed on fuel, which is the number itself and so never less than the number of its digits.
-- The files of a genconfig run are the list of its writes, of which the last to a file counts, and a
-- directory exists where a file in it can be created.
--
-- The code of other packages is a parameter: the records `Katzenpost`, `Encodings`, `SharedRandom`,
-- `Consensual`, `Restoring` and `Scheme` for katzenpost, hpqc and the encoders, `ChainBridge` for the
-- appchain, `Web` for HTTP, flate and CBOR, `Thin` for the client of the mix network, and `Tools` for
-- the schemes, the encoder and the file system of genconfig. Where it matters, hypotheses say that
-- `Perm(n)` is a permutation of 0, ..., n - 1 (`ShufflesIndices`), that a command to the appchain only
-- reads (`ReadsOnly`), or that what an encoder writes is read back. The clock, the jitter and the
-- duration of a round's work are inputs.
--
-- Not modelled: the sessions and sockets that carry the commands, what the authority sends to others,
-- logging, directories, listeners and the shutdown of the server (server.go), which are input and
-- output; the reading of the PEM files of a configured topology, whose key hashes are given; a log line
-- of verifyCommits, which slices two commits whose signatures have been verified, and which are so
-- longer than the slice; SendTestProbes of walletshield, which prints statistics in floating point;
-- the command lines of the programs.
pub mod Base
pub mod Authority
pub mod Proxy
pub mod Genconfig
pub mod Tests
