-- ===== src/Lib.antt =====
-- Fomos, an experimental operating system in Rust whose apps are functions that the kernel calls
-- over and over. What is modelled:
--
-- * Globals (bootloader/kernel/src/globals.rs): the input state. Globals/Keys has `KeyState`,
--   Globals/Valid what `Input::handle_incoming_state` does, Globals/History the ring of events that
--   the drivers write and the apps read (the loop over new inputs of app_console/src/main.rs).
-- * Drivers/VirtioInput (bootloader/kernel/src/drivers/virtio_input.rs): what the events of a
--   keyboard or a mouse do to that state.
-- * Virtio (bootloader/kernel/src/virtio.rs): the virtqueues between a driver and a device. A queue
--   is one record, its shared areas as lists; Virtio/Descs follows the free descriptors through all
--   calls, Virtio/Ring and Virtio/Used the used ring and the loops over `next_used`, Virtio/Request
--   the available ring and `add_request`. `set_writable_available` is what the input driver does
--   with a descriptor that it has read. Virtio/Caps is the loop of `Virtio::init` over the
--   capabilities, on a configuration space that the reads leave as it is; Virtio/Init what follows
--   it, from the status of the device (Init/Status) to its queues (Init/Queues), over the interface
--   Init/Device of the registers.
-- * Drivers/VirtioGpu (bootloader/kernel/src/drivers/virtio_gpu.rs): a request and its answer, the
--   slots of those who wait for one, and the loop over the used ring that wakes them.
--   Drivers/VirtioGpu/Commands has the structs of the commands and their bytes, with the numbers
--   in Enums and Enums3d; Commands/Layout reads them by the layouts of the virtio specification.
--   Drivers/VirtioGpu/Sent follows a command from the driver through the queue to the device.
--   Drivers/VirtioGpu/Buffer3d is the buffer of 3d commands, which Buffer3d/Padding fills up and
--   Buffer3d/Frames takes apart again. Drivers/VirtioGpu/Drive has the requests of `drive` in
--   their order, and Drive/Device what the specification asks of them.
-- * Framebuffer (bootloader/kernel/src/framebuffer.rs): `FB` with its first pixels (Framebuffer/
--   Pixels), and Framebuffer/Writer for `FrameBufferWriter`, over the font of the crate
--   noto_sans_mono_bitmap: Writer/Drawing has the pixels of a character, Writer/Text the texts.
-- * Interrupts (bootloader/kernel/src/interrupts.rs): the clock with the wakers of those who wait for
--   its next tick, and in Interrupts/Sleep `a_sleep`.
-- * Task (bootloader/kernel/src/task): the executor. Task/Executor has its operations over the
--   interfaces Task/ArrayQueue (of the crate crossbeam_queue) and Task/Map (of BTreeMap), with the
--   poll of a future as a parameter; Task/Executor/Ready and Task/Executor/Yield are about them.
-- * Memory (bootloader/kernel/src/memory.rs): the frame allocator, in Memory/Frames against the list
--   of the usable frames. Memory/Paging has the functions of main.rs and allocator.rs that map pages
--   onto its frames, over an interface `Mapper` for the page table of the crate x86_64.
-- * Pci (bootloader/kernel/src/pci.rs): the configuration space over the interface Pci/Ports of the
--   two ports. Pci/Registers has the addresses, Pci/Parts the half words and bytes of a word,
--   Pci/Words the reads and writes, Pci/Bars `get_bar`, and Pci/Scan `Pcis::new`.
-- * IoApic (bootloader/kernel/src/ioapic.rs): the redirection entries of the I/O APIC over the volatile
--   accesses to its registers, and the handler of interrupts.rs that rewrites one.
-- * Console/Keymap (app_console/src/st.rs): the table of the keyboard layouts, row for row,
--   `getxmap` and `Key::char`.
-- * Console (app_console/src/main.rs): the console. Console/Shell has the lines, the commands and the
--   REPL over Console/Script, the interface of the crate fomoscript; Console/Inputs the loop over
--   new inputs, Console/Window the window that the mouse moves, and Console/Frame one call of
--   `_start`. The modules below them are about what these do.
-- * Apps (bootloader/kernel/src/app.rs and the end of `kernel_main` in main.rs): `Context`,
--   `App::call` and the loop that calls each app once a frame, with Apps/Stores about the stores and
--   Apps/Events about the events between the frames. Apps/Image has `App::new`, over what the crate
--   xmas_elf reads from the file. The function at an address of an image is a parameter.
--
-- Common has the names that the modules share: tests and conditionals, lists under native numbers,
-- the bit operations (Common/Bits), the fields of a word (Common/Fields) and those of a struct in
-- bytes (Common/Bytes).
--
-- The parts meet at the input: the device fills the used ring (Virtio), the driver empties it and
-- hands each event to `Input` (Drivers), the app reads the events from the ring of `Input` (Globals)
-- and turns keys into characters and lines into commands (Console). The drivers are tasks of the
-- executor (Task), and what they wait for wakes them.
--
-- Numbers are natural numbers with the wrap-around of their type written out; `none` is a panic, or
-- an access outside an area that the source reaches by a raw pointer. Loops without a bound in the
-- source run on fuel. Of a loop over `next_used` one more than the number of pending entries is
-- enough, of `run_ready_tasks` one more than the tasks that are queued or can still be woken; the
-- evaluation of a script (`eval_all`) has one more than the expressions that remain. The loop over the
-- apps runs for as many frames as lists of events are given, one for each, and the sleep of a task for
-- as many rounds of the executor. The scan of the capabilities ends within the length of their list,
-- and the padding of the buffer of 3d commands within its 512 words. A device is not
-- modelled but by what the virtio specification lets it do to a ring (`DeviceUses`), says of its
-- registers (`CommonCfg`), and asks of a request (`accept`).
--
-- Not modelled: the doorbell write of `Virtio::kick`, the answers of the GPU, which are only printed,
-- the endless loop of the executor, the local APIC, `FB::flush` and `FB::share`, the logger, and what
-- the apps draw, but for the indices of pixels. The atomic cell `GLOBAL`, serial output, descriptor
-- tables and boot images are set-up of hardware or calls of libraries.
pub mod Common
pub mod Globals
pub mod Drivers
pub mod Framebuffer
pub mod Virtio
pub mod Memory
pub mod Console
pub mod Task
pub mod Apps
pub mod Interrupts
pub mod IoApic
pub mod Pci
