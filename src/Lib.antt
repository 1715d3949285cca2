-- ===== src/Lib.antt =====
-- The firmware of the nRF9151 device: its settings, its framebuffer and the storage of what it is
-- sent, as models of the C code under zephyr-app/src with their theorems.
--
-- The parts and how they interact. config_store.c keeps sixteen settings in RAM and writes each
-- change through Zephyr's settings subsystem. nodem_config.c keeps the shape of the framebuffer
-- as one text in that store, parses it and maps the drivers' pixels onto the framebuffer;
-- display_task.c keeps its panel the same way, and hub75_task.c shifts a frame to a chain of LED
-- panels. nodem_task.c collects the commands of two transports and hands them to the Rust
-- library, which draws into the framebuffer. pkg_store.c and ota_store.c take the uploads that
-- arrive this way, modem_task.c brings up the connection to the cloud, registers the device and
-- keeps the websocket that is one of the transports, and heartbeat_task.c confirms a new image
-- once the device has run for a while.
--
-- * Base (lists over the native numbers, integers, error numbers) and Text (the C library's
--   string functions, `strtol` and the printing of numbers) are shared. A C string is the list of
--   its bytes without the NUL.
-- * ConfigStore is zephyr-app/src/config_store.c: the table is a list of `Entry` with what
--   `find_entry` does to it in Table, and `Store` pairs it with the state of the settings
--   subsystem, whose calls are the record `Settings`. `config_get_str`, `config_set_str`,
--   `config_get_i32`, `config_set_i32`, `config_list`, `settings_set` and `config_store_init`
--   bear the code's names. Lookup and Find relate the search to a lookup by type and key,
--   Invariant is about the table between calls, RoundTrip about reading what was written, Boot
--   about what a reset leaves, Listing about `config_list`. The mutex is held through each
--   function, so each is one step; the address of an entry is its index.
-- * NodemConfig is nodem_config.c and nodem_config.h: the records `Mapping` and `Config`, the
--   parser (an advancing `const char *` is an optional rest, `none` for NULL) and the printer.
--   Parse is about what is accepted, Fields, Entries and Format about fields and the printed
--   text, RoundTrip about the two together, Stored about `nodem_config_get` and
--   `nodem_config_set` on a `ConfigStore.Store`, Axis about `nodem_map_axis`. The loop over the
--   devices runs on fuel, the length of the text, of which each round takes at least one byte
--   (Fuel).
-- * Oled is the configuration of the panel in display_task.c: `OledConfig` with its parser and
--   printer, Panel is about the two and what they accept, Stored about `display_oled_set` and
--   `oled_config_read`, Window about the part of the display RAM that `display_task` works out
--   for the frame, as a function of the configuration, and Pixels about the bit offsets that
--   `frame_prepare` keeps, of which it has the entry for each column and row. The rest of
--   display_task.c is not modelled.
-- * Hub75 is the LED matrix of hub75_task.c. Colors, Syntax and Parser are the parser of its
--   configuration, `MatrixConfig`, Stored the printer and the setting in the config store;
--   `derive` is what `hub75_start` computes from it into the driver's globals, the record
--   `Driver`, and Alloc the buffers it lays out in the arena, as offsets. A buffer is a function
--   of the index, of any content at the start. Chain has the table of the chain's positions and
--   the place of a row, Frame the writing of a pixel and the loops over all of them, for any
--   colours. Render has the output enable timing and the steps of a shift, Interrupt the
--   interrupt, over what each one meets: the frame by then, and the two events of the PWMs that
--   it checks; Interrupt.Sync has what the two pairs of step buffers hold, Interrupt.Latches the
--   row that is latched, Interrupt.Overruns the late interrupts. Colors.Bounds has the ranges of
--   the colours. Chain.Places and Chain.Rows show that no two pixels share a place, Frame.Draw what
--   a drawn frame holds, Alloc.Layout that the buffers fit, Derived that an accepted
--   configuration has what these need (a panel has less than 256 blocks of rows, about which see
--   Wrap), Shown puts them together. Words that are joined by `|` with one side empty are sums.
--   Nodem is `frame_draw_nodem`, over what each row finds under the lock, with Nodem.Pixels about
--   a configuration that stays and Nodem.Changed about one that changes. Task is the loop of the
--   thread, of which `Panel` has the variables about whether the panel runs; each pass is a
--   function of what it meets. Task.Drawing has the variables about what is drawn, and the whole
--   pass. Task.Off has the phases of the panel, Task.Restarts and Task.Stopped are about a panel
--   that keeps failing. Paint has the colours: Paint.Spread is about the bit planes of one,
--   Paint.Effects has `paint_of`, `paint_row` and `effect_at`, of which Nodem takes the two
--   colours as any functions of the pixel. The pins, the PWMs and the set-up of the driver chips
--   are not modelled.
-- * PkgStore is pkg_store.c over a record `FlashArea` of the flash driver's calls, OtaStore is
--   ota_store.c over a record `FlashImg` of the image writer's, each on a device of any type.
--   `size_t` has 32 bits, and the wrap-around of the sum in `align_up` is written out.
-- * Heartbeat is heartbeat_task.c, whose loop is a function of what each pass sees.
-- * Modem is modem_task.c. `Modem` is the thread's state, with the descriptors that it has opened
--   and not closed as a list beside `g_tls_fd` and `g_ws_sock`. Connect, Register and Websocket
--   have the steps as functions of what the modem, the sockets and the server answer, which are
--   records of results; Task puts them together as `modem_task`, whose turns are the rounds of
--   its three nested loops (the steps, the wait for a reason to connect, the supervised
--   websocket). What other threads do to the settings and the rings is taken at the start of a
--   turn. Descriptors, its Rounds and its Turns are about the sockets, Credentials and Reply
--   about the registration, Ping about the ping interval, Sim about the end of the wait for the
--   SIM. Status has the status texts, Status.Radio the answers about the network and
--   Status.Overlay the pass that shows two lines on the display. `sscanf` and `strstr` are in
--   Text.Search and Register.
-- * NodemTask is the two command transports of nodem_task.c over any `Processor`, which stands
--   for the Rust library's `nodem_process_command`. Its render loop is not modelled.
-- * Uart is uart_task.c: the interrupt, over the bytes that arrive in each round of its loop, and
--   the receive ring, which is the list of its bytes.
-- * Examples runs the models and the theorems on concrete inputs.
--
-- Not modelled: the code of the Rust library in nodem-ffi and of Zephyr, which are arguments; log
-- messages, sleeps and the mutexes, which only order whole calls.
pub mod Base
pub mod Text
pub mod ConfigStore
pub mod Examples
pub mod Heartbeat
pub mod Hub75
pub mod Modem
pub mod NodemConfig
pub mod NodemTask
pub mod Oled
pub mod OtaStore
pub mod PkgStore
pub mod Uart
