-- ===== src/Lib.antt =====
-- USB over a network. A sender captures the transfers of a USB mass storage device and sends them to a
-- receiver, which replays them on a virtual device of the host's USB/IP driver.
--
-- The sender (sender/main.cpp) lists its storage devices (sender/usb/mass_storage_device.cpp, over
-- libusb), queues captured URBs (sender/capture/urb_capture.cpp), turns each into a USB/IP packet inside
-- a framed message (common/protocol, common/network/message_handler.cpp) and writes it to a socket
-- (common/network/tcp_socket.cpp). The receiver's socket hands the bytes to a message handler, whose
-- messages go to the client (receiver/usbip/usbip_client.cpp); the receiver (receiver/main.cpp) passes
-- devices and URBs on to virtual devices (receiver/virtual_device/virtual_usb_device.cpp), which share
-- the ports of one manager. sender/usb/usb_device_manager.cpp finds the devices for the sender, and
-- sender/reverse_client.cpp is a client by which the sender would call the receiver; no program uses it.
--
-- The modules, each with its theorems in child modules:
--   Prelude    Boolean tests, lists over the native numbers, partial automata, and the library's
--              names, passed on.
--   Words      bytes, memory images of integers on a little-endian host, htonl and its relatives.
--   Usb        common/protocol/usb_types.h: UsbUrb, UsbSetupPacket, UsbDeviceDescriptor, UsbDevice;
--              Enums has the enumerations, Structs the other descriptors.
--   Logger     common/utils/logger.cpp: Log, with Filter.
--   Usbip      common/protocol/usbip_protocol.cpp: SerializeDeviceList, SerializeCmdSubmit,
--              SerializeRetSubmit, ParseHeader, ParseCmdSubmit, ParseRetSubmit, HostToNetwork,
--              NetworkToHost. RoundTrip has their inverses.
--   Search     std::search over bytes.
--   Message    common/network/message_handler.cpp: SerializeMessage, ProcessReceivedData (one `round`
--              is one pass of its loop), ProcessCompleteMessage, ValidateMessage and the constructors
--              of messages. Frame, Stream, Total, Sound and Resync have the theorems.
--   Capture    sender/capture/urb_capture.cpp: the queue and the statistics of UrbCapture; Processor is
--              UrbProcessor, Thread the steps of the worker thread and its callers, Delivery
--              their invariants. Wakeup has the waits and notifications of ProcessingThread and
--              StopCapture, access by access, with Ordered, Kept, Leaves and Lost.
--   Client     receiver/usbip/usbip_client.cpp: the handlers of incoming messages. Urb is
--              HandleUrbSubmit, DeviceList is HandleDeviceListResponse; Transport and Misread follow a
--              URB from UrbProcessor to HandleUrbSubmit. Connection has Connect, Disconnect, the
--              requests and the heartbeat; Run puts them in sequences, Coherent and Lost are about
--              these. Stopping has several calls of StopHeartbeat at once, with Once and Twice.
--   Socket     common/network/tcp_socket.cpp: Connect, Listen, Send, Close and the loops of its threads;
--              Attempt has the cases of Connect, Address the two addresses.
--   Sender     sender/main.cpp: OnUrbCaptured, OnNetworkMessage and the answers to requests. Pipeline
--              and Requests join it with Message and Client. Control has Start, Stop, the scan and the
--              hotplug handler; Main has main, its loop and the signal handler, with Exit and
--              Signalled.
--     Device   sender/usb/usb_device_manager.cpp: the class UsbDevice. Session is the protocol of
--              libusb's handles and Life the operations over it; Naming is about GetPath and GetBusId.
--     Manager  the same file: the class UsbDeviceManager, with Hotplug and Search.
--     Reverse  sender/reverse_client.cpp; Run has sequences of its operations, Lost, Spent and Reported
--              are about these.
--   Text       decimal numbers and texts as character codes; Decimal reads the numbers back.
--   Buffer     common/utils/buffer.cpp: Append, Prepend, Extract, SubBuffer, Find and ToHexString.
--   Ports      receiver/virtual_device/virtual_usb_device.cpp: UsbipManager's port table.
--   Virtual    the same file: CreateDevice, AttachDevice, DetachDevice, DestroyDevice; Urb has ProcessUrb
--              and what it calls; Manager has CreateVirtualDevice, RemoveVirtualDevice and Cleanup;
--              Consistent and Lifecycle follow a device beside the port table; Shell has the shell
--              commands and the files.
--   Receiver   receiver/main.cpp: ImportDeviceInternal, OnDeviceListReceived and OnUrbReceived, with the
--              client's ImportDevice; Program has Start, a round of Run, and Stop; Options has the
--              command line; Main has main and the signal handler, with Signals and
--              Signalled; Respond has the way of an answer to the connection, with Ignored. Import,
--              Holdings, Stop and Restored have the other theorems.
--   Storage    sender/usb/mass_storage_device.cpp: Initialize, Cleanup, StartCapture, StopCapture and the
--              URB builders; FindEndpoints and Capacity have FindEndpoints and GetCapacity, Requests the
--              rest.
--   Checks     inputs on which the theorems are tried out.
--
-- State is passed explicitly: an operation takes the object's record and returns its result and the
-- record after it. Calls of the operating system, of libusb and of the shell are arguments: the answers
-- they give, in the order in which the code asks for them. Callbacks are events or results. The number
-- of the next message (a static of the message handler) is an argument and a result. What an
-- uninitialised field holds is an argument. An integer of w bits is a natural number, with `% 2 ^ w`
-- where the code can leave the range; an int32_t is its bit pattern. A mutex that is not recursive is a
-- flag, and an operation that locks it again gives `deadlock`.
--
-- Fuel: the receive loop runs on one more than the length of the buffer, since every round that goes on
-- drops a byte at least, and the walk over a configuration descriptor on one more than its length, since
-- every descriptor has a length of 1 at least. The loops of the socket run on the list of the system
-- calls' answers. The waits of 50 and 30 rounds for a connection are those of the sources.
--
-- Not modelled: the texts that are only printed, the usage and the statistics among them; declared
-- functions of the storage device and of the socket that have no body; the tests. A round of the
-- heartbeat thread or of the reconnect thread is one step, with the receive thread's end at the points
-- where the waits look; the other interleavings of the socket's threads with its calls are left out.
-- The joins in the socket's Close are taken to return, which needs that a blocked recv or accept comes
-- back when the descriptor is closed. A Send runs from its guard to its end without another thread's
-- steps between. Capture.Wakeup follows one StartCapture and one StopCapture. A signal comes between the ticks of the
-- two programs' main, and its handler runs to the end before main goes on.
pub mod Prelude
pub mod Words
pub mod Usb
pub mod Logger
pub mod Usbip
pub mod Search
pub mod Message
pub mod Capture
pub mod Client
pub mod Socket
pub mod Sender
pub mod Text
pub mod Buffer
pub mod Ports
pub mod Virtual
pub mod Storage
pub mod Receiver
pub mod Checks
