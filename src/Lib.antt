-- ===== src/Lib.antt =====
-- The drivers and the command line tools of the White Rabbit starting kit, in
-- wr-starting-kit/spec-sw: a card with a five-channel digital I/O mezzanine and a network interface.
--
-- Parts and files:
--   Base    the shared names, lists and bits, and programs: a C function is a function from a state to
--           an outcome, which is `done`, `fault` (undefined behaviour: an access out of bounds, a
--           shift too wide, a division by zero) or `waiting` (a call that has not returned).
--           Base/Triples has the specifications of such programs.
--   Mmio    registers, the record of accesses to the card, and machine words as their bit patterns.
--   Dio     kernel/wr-nic-dio.c with kernel/wr-dio.h: Device is the state, Ring the buffer of time stamps,
--           Pulse is wrn_dio_cmd_pulse with __wrn_new_pulse and wrn_trig_next_pulse, Stamp is
--           wrn_dio_cmd_stamp, Inout is wrn_dio_cmd_inout, Irq is wrn_dio_interrupt, Ioctl is
--           wrn_mezzanine_ioctl with wrn_mezzanine_init and wrn_mezzanine_exit. Invariant has what all of
--           them keep, and Ioctl/Reach has the states that any sequence of calls reaches.
--   Nic     kernel/wr_nic: Transmit is wrn_start_xmit, Receive is wrn_rx_interrupt, Interrupt is
--           wrn_interrupt with wrn_tx_interrupt, Stamps is timestamp.c without its ioctl, Endpoint
--           is endpoint.c, Probe is device.c, Netdev has the calls of the net device in nic-core.c and
--           its ioctl, which goes on to Dio, and State has the structures of wr-nic.h with pps.c and nic-mem.h.
--   DioCmd  tools/wr-dio-cmd.c, which sends `struct wr_dio_cmd` to wrn_mezzanine_ioctl.
--   Spec    the drivers of the card itself: I2c and Eeprom are kernel/spec-i2c.c, with the bus as it is seen from
--           outside in I2c/Wire; Loader is kernel/loader-ll.c with spec_load_fpga of
--           kernel/spec-pci.c and spec_load_bitstream of tools/speclib.c.
--   Board   the interrupts of the card: wrn_handler of kernel/wr-nic-eth.c with the handlers of Nic and Dio; Started has
--           the probing of Nic with an interrupt after it.
--   Carrier the card on the PCI bus: kernel/spec.h and the interrupts of kernel/spec-fmc.c; Device is the making
--           and the end of its FMC device, Gpio its pins, Operations what else it offers to a driver, and Pci is
--           spec_probe and spec_remove of kernel/spec-pci.c with the loader of Spec.
--   Core    the driver for the mezzanine: wrn_eth_init and wrn_eth_exit of kernel/wr-nic-eth.c on Carrier, Nic/Probe
--           and Board; Fmc is kernel/wr-nic-core.c with kernel/wr-nic-gpio.c.
--   Speclib tools/speclib.c, the access of the tools to the card, with the program of its processor; File
--           has the reading of files.
--   Ruler   tools/wr-dio-ruler.c, which waits for an event of the driver and then fires pulses by it and by
--           frames: Actions has its arguments, Tool the rest. Agent is tools/wr-dio-agent.c, which
--           gives the command of each frame to the driver of Dio.
--   Pps     tools/wr-dio-pps.c: a pulse per second, with the driver that starts it.
--   Front   tools/specmem.c, spec-cl.c, spec-fwloader.c and spec-vuart.c: front ends of Speclib and Spec.
--   StampFrame  tools/stamp-frame.c: two machines that exchange stamped frames, and the report of
--           the times.
--
-- The card answers a read by a function of the accesses before it, so that every sequence of values is
-- covered. What is outside the repository is an argument: the kernel's time functions, its allocator
-- and user copies, clock readings, firmware files, the network, and the C library's sscanf.
--
-- Bounds: loops over channels and descriptors have the number of rounds that the code has. The loops
-- that the card or the kernel ends (the FIFOs of Irq and of Loader, the descriptors of Receive, the
-- calls of the stamp commands, the waits for the EEPROM and the UART, the loops of the ruler and of the
-- terminal) have fuel, and are `waiting` when it is used up. Eight rounds are enough for wrn_tx_interrupt. The sleep of
-- wrn_dio_cmd_stamp takes a list of wake-ups with what interrupts did.
--
-- Not modelled: trace output, the texts of messages, delays, the registration of drivers with the kernel, the
-- opening of sockets, timers, ethtool and its fields, the tree of SDB, the settings of terminals,
-- the copies of the Etherbone and fmc-bus libraries, and generated headers.
pub mod Base
pub mod Mmio
pub mod Dio
pub mod Nic
pub mod DioCmd
pub mod Spec
pub mod Ruler
pub mod Board
pub mod Speclib
pub mod StampFrame
pub mod Pps
pub mod Carrier
pub mod Core
pub mod Front
