-- ===== src/Lib.antt =====
-- uwb-core: the network management of the UWB core libraries.
--
-- A node of the network asks the PAN master for an address and a slot (lib/uwb_pan, with the frames of
-- lib/pan_utils). The master (lib/panmaster) keeps an index of the nodes in memory and their records
-- in flash. The clock of the network is spread by packets of a
-- master that relays repeat (lib/uwb_ccp). The slots of a superframe are timed by lib/tdma, and the services of a device are found
-- through the list that hw/drivers/uwb/src/uwb.c keeps.
--
-- Files, each with the modules of its folder below it:
--   PanUtils             request and response of lib/pan_utils/include/pan_utils/pan_utils.h
--   Panmaster/Types      structures of lib/panmaster/include/panmaster/panmaster.h
--   Panmaster/Address    first_free_short_addr, short_addr_is_free of lib/panmaster/src/panmaster.c
--   Panmaster/Slot       slot_lease_expired, first_free_slot_id
--   Panmaster/Index      panmaster_idx_find_node and the buffers of nodes to save
--   Panmaster/Request    panrequest_cb
--   Panmaster/Store      the storage as a log, and panmaster_find_node_general
--   Panmaster/Nodes      update, add, delete, add_version, postprocess, save, highest address
--   Panmaster/Flash      loads, index and sort of lib/panmaster/src/panmaster_fcb.c
--   Panmaster/Compress   panm_fcb_compress and panm_fcb_save; Panmaster/Compress/Stored the storage on them
--   Pan/Frame            union pan_frame_t and its bytes
--   Pan/Instance         struct uwb_pan_instance, init, start and the callbacks' registration
--   Pan/Receive          the callbacks of lib/uwb_pan/src/uwb_pan.c; Pan/Receive/Outcome their branches
--   Pan/Transmit         uwb_pan_listen, uwb_pan_blink, uwb_pan_reset
--   Pan/Slots            uwb_pan_slot_timer_cb
--   Pan/Steps            the interleaving of callbacks and tasks as a step relation
--   Pan/Join             a whole exchange between a node and the master
--   Nrng                 structures of lib/nrng/include/nrng/nrng.h
--   Nrng/Request         nrng_request of lib/nrng/src/nrng.c
--   Nrng/Receive         the callbacks of lib/twr_ss_nrng/src/twr_ss_nrng.c
--   Nrng/Ranges          nrng_get_ranges, nrng_get_uids
--   Tdma                 lib/tdma/src/tdma.c
--   Mac                  hw/drivers/uwb/src/uwb.c
--   Ccp                  structures of lib/uwb_ccp/include/uwb_ccp/uwb_ccp.h
--   Ccp/Receive          rx_complete_cb of lib/uwb_ccp/src/uwb_ccp.c, with the relay
--   Ccp/Send             ccp_send, tx_complete_cb, uwb_ccp_start
--   Ccp/Failures         error_cb, rx_timeout_cb, reset_cb, issue_superframe, uwb_ccp_stop
--   Ccp/Timer            the timer events and ccp_listen
--   RngSlots             lib/uwb_rng/src/slots.c: the slots of a ranging request
--   Transport            structures of lib/uwb_transport/include/uwb_transport/uwb_transport.h
--   Transport/Callbacks  the callbacks of lib/uwb_transport/src/uwb_transport.c
--   Transport/Extensions the list of extensions and uwb_transport_process_rx_queue
--   Transport/Listen     uwb_transport_listen and the semaphores
--   Transport/Enqueue    uwb_transport_enqueue_tx
--   Transport/Write      uwb_transport_write_tx, uwb_transport_start_tx
--   Transport/Sender     uwb_transport_dequeue_tx; Transport/Sender/Arq a stop-and-wait sender
--   Transport/Transfer   a packet from one node's queue to another node's extension
--   Common               numbers of C, arrays as lists, tests
--
-- State is passed explicitly. An array of C is a list of its length, so the settings for its size
-- (PANMASTER_MAXNUM_NODES, PANMASTER_NODES_TO_SAVE, TDMA_NSLOTS, nframes) are the lengths of lists, and
-- a write outside an array is none of an Option, and so is the assignment of a slot of lib/tdma that the
-- timer queue or the event queue still leads to. Integers are natural numbers with the wrap-around of
-- their width written out, where a value is stored or computed. What a clock, a mutex or the driver
-- answers is an argument. What the code asks of the driver is a list of commands in its order. The
-- flash log, the flash circular buffer and the conversions of the clock are parameters, with the laws
-- that the code relies on.
--
-- Loops over an array are recursion on it. The search for a slot has as much fuel as its 16-bit
-- counter has values below 0xffff, where the loop of the source ends too. The search for an address
-- makes one round for each entry of the index, the sort one for each entry of its table, and a save
-- ten, all as in the source.
--
-- In lib/uwb_ccp a received packet is its fields, not its bytes; the compensation of the clock filter and
-- the conversions between the radio's time and the operating system's are functions that are parameters,
-- and the settings of its syscfg.yml are a record. UWB_CCP_TEST_CASCADE_RPTS is 0, as by default.
--
-- In lib/uwb_transport a buffer chain is the bytes that it carries, and whether the buffer pool obliges
-- is an argument; a packet in the queue has the six bytes that uwb_transport_enqueue_tx appends, without
-- which the source stops at an assertion. The copy of the payload has the packet's length as fuel, since
-- each turn copies a byte at least. The loop that sends takes a turn for each attempt that it is given,
-- with the interrupts that follow the start of the transmission; that they suffice is a theorem. The
-- durations of frames come from the driver and are parameters. The copy of the operating system's
-- buffers and semaphores in porting is not modelled; a semaphore is its count.
--
-- A blocking operation of lib/uwb_pan is three steps: up to its wait, the pend that ends the wait, and
-- the release after it; callbacks run between them, and in Pan/Steps also between a failed start and the
-- release that follows it. In lib/uwb_transport the pend and the release at the end of a listen are one
-- step. The request callback gets one buffer for request and response,
-- as the caller passes it. Memory allocation is taken to succeed.
--
-- In lib/nrng an index into the ring of frames is always a remainder by its size, so the ring is a
-- function of the index. A mask of slots has 32 bits; its digits are taken one after the other, and 32
-- is enough fuel for the loops over them. The build has cells and no wireless clocks; the durations and
-- the conversions between units are parameters.
--
-- Not modelled: floating-point numbers, and with them the times of flight, clock filters and the start
-- times of slots for the radio; statistics, logs, command lines and export; the start-up of packages;
-- the copies of other projects' libraries (JSON, software floating point); boards, sensors and
-- applications; the other libraries of the core.
pub mod Ccp
pub mod Common
pub mod Mac
pub mod Pan
pub mod PanUtils
pub mod Panmaster
pub mod RngSlots
pub mod Nrng
pub mod Tdma
pub mod Transport
