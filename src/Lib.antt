-- ===== src/Lib.antt =====
-- Verification library of navigation_server, a router of NMEA 2000 and NMEA 0183 messages.
--
-- The program reads frames from a CAN bus and from other couplers, makes messages of them and
-- publishes these to clients; in the other direction it sends messages to the bus. The library
-- covers the way of a message between the CAN bus and the application, and on to the clients:
--
-- - Base: shared types and lemmas. A Python exception is a value of `Exception`, a call that may
--   raise gives a `Result`, a dictionary is an association list, a `bytearray` is a list of bytes.
-- - Pgn: navigation_server/nmea2000_datamodel/nmea2k_pgn_definition.py, the class methods of
--   `PGNDef` on PGN numbers (`find_range`, `pgn_pdu1_adjust`, `fast_packet_check` and others).
-- - Message: navigation_server/router_core/nmea2000_msg.py, `NMEA2000Msg`: the constructor, its
--   marks, the protobuf form.
-- - FastPacket: navigation_server/nmea2000/nmea2k_fast_packet.py. Packet is `FastPacket`, Handler
--   and Split are the two sides of `FastPacketHandler`.
-- - IsoTransport: navigation_server/nmea2000/nmea2k_iso_transport.py. Transfer is
--   `IsoTransportTransaction`, Handler is `IsoTransportHandler`.
-- - CanInterface: navigation_server/can_interface/nmea2k_can_interface.py, `SocketCANInterface`: it
--   uses all of the above. Interface has its state and queues, Receive is `process_receive_msg`, Send
--   is `send` and `send_broadcast_with_iso_tp`, Writer is `SocketCANWriter.nrun` in steps between
--   which other threads may put frames.
-- - Name: navigation_server/nmea2000_datamodel/nmea2k_name.py, `NMEA2000Name` and
--   `NMEA2000MutableName`, the ISO name of an application on the bus.
-- - AddressPool: navigation_server/can_interface/nmea2k_application.py, `NMEA2000ApplicationPool`,
--   which gives an application its address and its name.
-- - Application: the same file, `NMEA2000Application`: the address claim, the heartbeat and the
--   requests. Steps is everything that can happen to it, as a relation.
-- - Devices: navigation_server/nmea2000/nmea2k_device.py and
--   navigation_server/nmea2000/nmea2k_controller.py, `NMEA2000Device` and `NMEA2KController`. Access has
--   its clients and its thread, View the abstract table that it keeps.
-- - ActiveController: navigation_server/can_interface/nmea2k_active_controller.py,
--   `N2KReadSubscriber` and the dispatch of `NMEA2KActiveController`.
-- - Nmea0183: navigation_server/router_core/nmea0183_msg.py and
--   navigation_server/router_common/generic_msg.py, `NMEA0183Msg` and `NMEA0183Sentences`.
-- - Couplers: navigation_server/couplers/shipmodul_if.py and
--   navigation_server/couplers/ydn2k_coupler.py, the text forms of NMEA 2000 frames.
-- - Framing: navigation_server/router_core/IPCoupler.py, `IPAsynchReader`, which cuts the buffers of a
--   connection into frames. The length of a buffer is fuel enough, as each round takes a byte.
-- - CouplerThread: navigation_server/router_core/coupler.py, `Coupler`, with `open` and `close` of
--   navigation_server/router_core/IPCoupler.py. Loop has the rounds of `nrun`, Reading is `read`,
--   Publishing is `publish`, which uses Publisher, and Sending is `send_msg_gen`.
-- - VeDirect: navigation_server/couplers/vedirect_coupler.py, `Vedirect`, the blocks of a VE.Direct
--   device and the commands to it.
-- - Pdgy: the text form `!PDGY` of messages, `asPDGY` and `fromPGDY` in
--   navigation_server/router_core/nmea2000_msg.py and `send_n2k_msg` of `iKonvert`.
-- - Ikonvert: navigation_server/couplers/ikonvert.py, the lines of the gateway (`iKonvertMsg`), and
--   in Connection the handlers of `iKonvert`, the reading thread, and `open` in steps between which
--   that may run.
-- - Coders: navigation_server/nmea2000_datamodel/nmea2k_encode_decode.py, `ValueCoderUnsigned`, the
--   integers in a payload.
-- - Filters: navigation_server/router_core/filters.py,
--   navigation_server/nmea2000/nmea2k_filters.py and
--   navigation_server/nmea0183/nmea0183_filters.py, the decision of a `FilterSet`.
-- - Publisher: navigation_server/router_core/publisher.py, the queue of `Publisher`, which asks the
--   filters before it takes a message.
--
-- An object is a record, a method that changes it gives the new record with its result. A generator
-- is the list of what it yields with how it ends. Times are arguments, in milliseconds. The
-- generator of the fast packets runs on fuel, one more than the payload has bytes, which is more
-- than its rounds, and the printing of a number on the number itself; the other loops are structural.
-- A lock that is taken twice is an outcome of its own. A timer is armed in a table, and runs out in a
-- step of its own.
--
-- Not modelled: threads but for the steps named above, sockets and the python-can
-- library, the trace and the log, the PGN definitions of the XML files (a parameter where they decide), the generated classes and
-- the services around the core.
pub mod Base
pub mod Pgn
pub mod Message
pub mod FastPacket
pub mod IsoTransport
pub mod CanInterface
pub mod Name
pub mod AddressPool
pub mod Publisher
pub mod Coders
pub mod Filters
pub mod Application
pub mod Devices
pub mod ActiveController
pub mod Nmea0183
pub mod Couplers
pub mod Framing
pub mod VeDirect
pub mod CouplerThread
pub mod Pdgy
pub mod Ikonvert
