-- ===== src/Lib.antt =====
-- crosshub relays cross-chain transactions between an Ethereum-like chain and a Hyperledger Fabric
-- channel. A user precommits a contract on one side; a courier reads it from the blocks of that
-- chain, signs it and sends it to the other side, waits for the receipt there and commits it on the
-- first side. Hubs exchange what they relay over a peer-to-peer network.
--
-- Parts and files:
--
-- Chaincode (fabric/chaincode/chaincode_example02/go): the ledger program. Stub has the shim,
-- strconv and the encoders it calls, as parameters with the shim's documented laws; Transfer has
-- invoke, delete, query and Init; Commit has precommit and the regular and outside commit; Entry is
-- the dispatch of Invoke. A method is a step on the stub's state that returns a value, returns an
-- error or panics.
--
-- Contract (fabric/courier/contractlib/type.go, and its copy beside the chaincode): Status is
-- CStatus with its text form; Defs has the two contract structs and the IContract methods; Json has
-- UnmarshalJSON and RebuildIContract over a parameter for encoding/json.
--
-- Courier (fabric/courier): Tx is CrossTx with its UnmarshalJSON (tx.go); Store is the database of
-- the courier (database.go) over a parameter for storm, where a write transaction is a state of its
-- own; Query has its paged query; Laws states what storm documents; Receipts has UpdateCrossTx of
-- the transaction manager (txmanager.go), and Relay toCrossHubTx with the loop of ProcessCrossTxs
-- that signs and sends. Queue is the priority queue, a parameter with laws, and the loop that
-- empties it; Kinds is how AddCrossTxs splits its transactions; Manager is TxManager with reload,
-- AddCrossTxs and a round of each of its goroutines; Receive has receive and the two processOutChain
-- methods. Step, Loop, Advance, Replays and Accounted hold the lemmas on the loops; Rounds, Sending,
-- Queueing and Marking what the rounds do to the queues and the database. Sync is the block sync:
-- Filter has GetPrepareCrossTxs (filter.go), Blocks NewBlockSync and syncBlock, whose loop is a step
-- relation, and Parse processPreTxs (syncer.go); Entry, Chosen and Faults have the lemmas on the
-- filter, Order, Passed and Restart those on the loop. The closures of a loop share one loop
-- variable, as in Go 1.14, the version that go.mod names.
--
-- IndexDb (database): Indexed is CrossTransactionIndexed and its conversions (ctx_list.go); Reads
-- has the reading methods of IndexDB (indexdb.go) and Writes the writing ones, over parameters for
-- storm and the ARC cache; Query has the paged query and the config keys. Coherence, Upkeep, Turns
-- and History hold the lemmas on what the cache holds, Paging those on the pages, Rollback those on
-- a failed write.
--
-- Api (api/api_backend.go, crossapi.go): Content has QueryByPage, and CtxContentByPage with its RPC
-- objects, over the paged queries of two index databases; Slices what its pages are.
--
-- Repo (repo): Addresses and Network have loadNetworkConfig (network.go), over a parameter for
-- multiaddresses; Files has Load (repo.go) with loadCerts (cert.go) and loadPrivKey (key.go), over
-- parameters for the file system, for keys and for the decoders of the two TOML files. Order is the
-- order of peer IDs; Sorted and Members hold the lemmas on the sort of the nodes, Numbers and Others
-- those on their numbers, Loading what a loaded configuration comes from, and Agreement, Local and
-- Again what is shown of it.
--
-- Commands (cmd/crosshub/cert.go, with GenerateCert of cert/cert.go): Keys has what is documented of
-- x509, pem and ecdsa, Certs the commands ca, csr, issue, parse, priv and verify, each a function of
-- the contents of the files it reads; Chain has what the files hold, and Accepted the way from ca to
-- the check of Swarm.
--
-- Viewer (chainview/chainview.go): Logs has EventLog and the Hub, the fields of Viewer that it
-- changes; Window has GetEvents with its arithmetic on uint64, Messages the messages of other hubs
-- in loop and createTransaction, Anchors GetAnchors. The stores are an interface, CtxStore, which
-- Stores fills with the index database; the node and the ABI are parameters. Scanning, Relaying and
-- AnchorWords hold the lemmas on repeated polls, on the way of an event between two hubs, and on the
-- answers of the contract.
--
-- Transaction (core): Ctx is CrossTransaction with the EIP155 signer (cross_transaction.go and
-- cross_transaction_signing.go), Rtx is ReceptTransaction with its signer (recept_transaction.go and
-- recept_transaction_signing.go); Statuses is CtxStatus with its text (cross_status.go); Crypto has
-- the hash, the encodings and the public key recovery, as a parameter. A Go string is its bytes.
--
-- Wire (hubnet/rlpx.go, message.go, handle.go): frames with a three-byte size, WriteMsg and ReadMsg
-- on a stream, and the loop that reads messages from a stream. Stream has the two ends of a stream
-- and RLP as parameters.
--
-- Swarm (swarm, cert/cert.go, and the sending side of hubnet): Certs has ParseCert, VerifySign and
-- verifyCerts over a parameter for crypto/x509; Peers the streams of the stream manager with
-- AsyncSend, Send, Broadcast and Disconnect (stream_manager.go, p2p.go) over a parameter for the
-- libp2p host; Messages handleMessage and verifyCert (handle.go, swarm.go); Service the attempts and
-- broadcasts of Start and the methods of Swarm, as steps of a running swarm; Boot New, from a node
-- that Repo loads. The time of the checks is one value for a run. Chain, Trust and Presented have
-- the lemmas on how a peer becomes connected.
--
-- Prelude: numbers, lists, texts and integers under shared names, the outcome of a Go function (Run)
-- and steps on a state (Action).
--
-- Bounds and fuel: a uint32 or int is a native number with the wrap-around written out, a uint8
-- status and the bytes of a list too; big.Int is an integer. Two loops run on fuel. The reading loop
-- of a stream takes one unit for each message and one for the end; the loop that empties a queue
-- takes the size of the queue, and ends with an empty queue. Polls of the viewer are counted; one
-- for each 100 blocks is enough. All other loops are structural.
--
-- Not modelled: goroutines and channels (a method is one step, its goroutine bodies are the steps
-- they run), logging except where it can panic, nil entries in lists of pointers but for the batches
-- of the block sync, and the parts that only call a library: the Fabric SDK client, the command line
-- tools but for the certificate commands. The templates that init.go of repo writes, the paths of a
-- node and the failures of the file system under a certificate command are not part of these files.
pub mod Prelude
pub mod Repo
pub mod Commands
pub mod Api
pub mod Wire
pub mod Swarm
pub mod Viewer
pub mod Transaction
pub mod Contract
pub mod Chaincode
pub mod Courier
pub mod IndexDb
