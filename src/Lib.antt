-- ===== src/Lib.antt =====
-- The client node of a distributed block store: a kernel module that turns the requests of the block
-- layer into requests for metadata to namenodes and for user data to datanodes, each kept on several
-- replicas. Paths below are from BlockDeviceDriver2.
--
-- An I/O request (io_manager) is split into segments. A segment acquires metadata from a namenode
-- (discoNN_client), hands each metadata item (metadata_manager) to a payload request (payload_manager),
-- which sends one datanode request (discoDN_client) per replica; the answers are counted in the item,
-- which decides when the write or read is committed to the user and to the metadata server.
-- Connections (connection_manager) carry the requests. The states of the state machines and the
-- metadata items are guarded by locks, so a call of a state machine, or of a function of a metadata
-- item, is one step, and the events of all threads form one sequence. The results that a segment and an
-- I/O request gather for the user are not guarded: the histories of a whole request take answers that
-- are handled one after another, and IoManager/Unlocked takes one such update apart.
--
-- Files:
--   Base       names of the libraries, Boolean tests, lists measured by native numbers, the bits of
--              a byte and the bitwise or
--   Trace      histories of a state machine: run (the state after a list of events), actions (what it
--              answered), and what can be counted in them
--   Metadata   metadata_manager/metadata_manager.c: MdItem is metaD_item_t; chk_ci_user_criteria,
--              chk_ci_mds_criteria, write_ack_commit_result, timeout_commit_result,
--              check_ci_user_status and w_retry_reset_dn_loc are the functions of those names; a
--              counter of type int8_t is its bit pattern, and wraps;
--              Triple is compose_triple and decompose_triple of common/common_util.c, Merge the
--              triplets that metadata_cache.c makes, merges and splits
--   Payload    payload_manager: ReqFsm is payload_request_fsm.c, Request the answers
--              (PLReq_writeDN_endfn) and timeouts (PLReq_TO_handler_gut) of a request that writes; the
--              calls of other components are listed as effects
--   DataNode   discoDN_client: ReqFsm is discoC_DNUDReq_fsm.c; Bytes is a buffer of bytes with
--              numbers in network order, Protocol and Acks the packets of discoC_DN_protocol.c and
--              fingerprint.c, with what the simulated datanode takes from a packet, whose arrays it
--              copies as bytes and without a check of their length, and what it answers
--   NameNode   discoNN_client/discoC_NNMDReq_fsm.c, both halves
--   IoManager  io_manager: ReqFsm is discoC_IOReq_fsm.c, SegFsm is discoC_ioSegReq_fsm.c; Overlap and
--              Pool are ioreq_ovlp.c with its callers in discoC_IORequest.c; Align and Split are the
--              masks and the splitting of a request in discoC_IORequest.c, with
--              query_volume_MDCache of metadata_manager/metadata_cache.c; Answers is what segments
--              and requests do with the answers of payload requests
--              (discoC_ioSegReq_udata_cbfn.c, ioSReq_commit_user, ioReq_commit_user,
--              ioReq_IODone_endfn and ioReq_MDReport_endfn), PartialWrite the read before a partial
--              write, History the answers of a whole request, in any order but one after another,
--              Unlocked an answer whose update of the result is not one step
--   Cache      common/cache.c: Pool has the operations on a volume's pool of cached items (cache_find,
--              cache_put, cache_update, cache_invalidate_volLB, __kick_meta_cache); RadixTree is what
--              they rely on of the radix tree; Lru is what a pool promises, a list of the entries
--              used most recently first, and Refine, Room and Find compare the pool with it; Sizes is
--              the table of pools and update_cache_pool_size, Manager the kicks of a whole pool, the
--              creation and the release of pools, and Metadata is _update_mdcache of
--              metadata_manager/metadata_cache.c, compared with the list of entries in Composition,
--              with its failure in DoubleFree
--   Volume     Ovw is the map of written blocks of discoNN_client/discoC_NNC_ovw.c
--   Connection connection_manager/conn_state_fsm.c
--
-- In a state machine, an event that the source leaves to `break` or `default` keeps the state and
-- answers NoAction. The values START, END and UNKNOWN of the enums are kept where the source declares
-- them; UNKNOWN is a second name of END.
--
-- Not modelled: the copied libraries (the radix tree is a parameter with the laws of a map that is
-- scanned in order, the digests are parameters), sockets, threads, work queues, memory pools, the
-- clock (its values are arguments), the printing functions, the code under DISCO_ERC_SUPPORT and
-- DISCO_PREALLOC_SUPPORT, which discoC_sys_def.h switches off, version 2 of the protocol of
-- datanodes, the device interface, the simulators (but for the packets of the simulated datanode)
-- and the tests.
-- Fuel: a loop over blocks, sectors or triplets is given as many rounds as there are of them, and a
-- round passes at least one; the loop that removes all pools is given one round for each volume.
pub mod Base
pub mod Cache
pub mod Trace
pub mod Metadata
pub mod Payload
pub mod DataNode
pub mod NameNode
pub mod IoManager
pub mod Connection
pub mod Volume
