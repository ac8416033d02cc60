-- ===== src/Lib.antt =====
-- tinyalsa: PCM streams and mixer controls of ALSA sound cards, a library in C.
--
-- The library has two halves. src/pcm.c is the stream: `struct pcm` holds a configuration, the
-- counters and pages it shares with the driver, and a table of operations, which src/pcm_hw.c fills
-- with calls of the kernel and src/pcm_plugin.c with calls of a loaded plugin. src/mixer.c is the
-- mixer: `struct mixer` holds two groups of controls, one of the hardware (src/mixer_hw.c) and one
-- of a plugin (src/mixer_plugin.c), each with its own table of operations. Programs call the
-- functions of include/tinyalsa/pcm.h and include/tinyalsa/mixer.h.
--
-- Files and what they model:
-- - Base: the shared helpers: native numbers, Boolean tests, lists (Base/Lists), signed integers
--   (Base/Int), and the wrap-around of C's unsigned types (Base/Word).
-- - Alsa: numbers of the kernel's interface that the library uses, which are in no file of the
--   repository: formats, hardware parameters, error numbers, flags of the synchronisation, types
--   of controls.
-- - Pcm/Format: `enum pcm_format`, `pcm_format_to_alsa`, `pcm_format_to_bits`.
-- - Pcm/Flags: the flags and states of include/tinyalsa/pcm.h.
-- - Pcm/Params: `struct snd_pcm_hw_params` as three masks and twelve intervals, the `param_*`
--   helpers, and `pcm_params_get_mask`, `_get_min`, `_get_max`, `_format_test`. Proofs in
--   Params/Masks, Params/Formats and Params/Intervals.
-- - Pcm/Handle: `struct pcm` and its getters, `oops`, conversion of frames and bytes, and the
--   operations of the driver (`PcmOps`). Proofs in Handle/Frames.
-- - Pcm/Control: `pcm_sync_ptr`, `pcm_state`, `pcm_prepare`, `pcm_start`, `pcm_drain`, `pcm_stop`,
--   `pcm_link`, `pcm_unlink`, `pcm_get_delay`.
-- - Pcm/Config: `pcm_set_config`. Proofs in Config/Requested and Config/Kept.
-- - Pcm/Open: `pcm_open`, `pcm_close`, `pcm_hw_mmap_status`, `pcm_hw_munmap_status`, with what a stream
--   holds. Proofs in Open/Untouched, Open/Pages and Open/Released.
-- - Pcm/Ring: the pointers into the ring buffer, `pcm_mmap_begin`, `pcm_mmap_commit`,
--   `pcm_areas_copy`, `pcm_mmap_avail`. Proofs in Ring/Pointers.
-- - Pcm/Times: `pcm_get_htimestamp` and `pcm_mmap_get_hw_ptr`. Proofs in Times/Stable.
-- - Pcm/Transfer: `pcm_wait`, `pcm_mmap_transfer_areas`, `pcm_mmap_transfer`, `pcm_rw_transfer`,
--   `pcm_generic_transfer` and the reads and writes on top of it. Transfer/Playing says what is
--   asked of a driver; the other children are proofs.
-- - Plugin/State: the state of a plugin and `pcm_plug_ioctl` with the handlers that change it.
--   Proofs in State/Moves and State/Order.
-- - Plugin/Info: `pcm_plug_info`.
-- - Plugin/Refine: `pcm_plug_get_params` and `pcm_plug_hw_params_refine`. Proofs in
--   Refine/Intersection.
-- - Plugin/Open: `pcm_plug_open`, `pcm_plug_close`, `pcm_plug_mmap`, `pcm_plug_poll`. Proofs in
--   Open/Loaded.
-- - Plugin/Select: `pcm_plug_interval_select` and `pcm_plug_hw_params_set`. Proofs in Select/Points.
-- - Mixer/Controls: `struct mixer`, its groups and controls, `add_controls`. Proofs in
--   Controls/Growth.
-- - Mixer/Lookup: `mixer_add_new_ctls`, the counts of controls and every `mixer_get_ctl*`. Proofs
--   in Lookup/Numbered, Lookup/Named and Lookup/OnDevice.
-- - Mixer/Info: what a control says of itself, and its range in percent.
-- - Mixer/Value: `mixer_ctl_get_value`, `_set_value`, `_get_percent`, `_set_percent`, `_get_array`,
--   `_set_array`. Proofs in Value/RoundTrip, Value/Percent and Value/Arrays.
-- - Mixer/Enums: the names of an enumerated control and `mixer_ctl_set_enum_by_string`. Proofs in
--   Enums/Named.
-- - Mixer/Events: `mixer_subscribe_events`, `mixer_wait_event`, `mixer_read_event`. Proofs in
--   Events/Pending and Events/Reading.
-- - Mixer/Open: `mixer_open`, `mixer_close`, `mixer_grp_open`, with the groups that are freed and what is
--   held. Proofs in Open/Owned.
-- - Mixer/Plug: src/mixer_plugin.c: the controls of a plugin; Plug/Values: their values; Plug/Events: the
--   count of events and the semaphore; Plug/Requests: what a mixer asks of a plugin, as the operations
--   of its group, and `mixer_plugin_open`. Proofs in Plug/Queue, Plug/Reachable, Plug/Listed and
--   Plug/Loaded.
-- - Tools/Wave: the chunks of a WAVE file in utils/tinyplay.c; Tools/Play: its options, what a file is
--   opened as and `play_sample`; Tools/Capture: utils/tinycap.c. Proofs in Wave/Ends, Tools/Playing,
--   Tools/Header, Tools/Counted and Tools/RoundTrip. Tools/Mix: how tinymix parses and sets values. Proofs in
--   Tools/Mix/Numbers and Tools/Mix/Setting.
-- - Hardware: the files that src/pcm_hw.c (Hardware/Stream) and src/mixer_hw.c (Hardware/Control) open.
-- - Card: src/snd_card_plugin.c: the nodes of the definition of a card. Proofs in Card/Nodes.
-- The modules named Tests below Pcm, Plugin, Mixer, Hardware, Card and Tools apply the theorems to small devices. (The
-- module Base/Tests has the Boolean tests.)
--
-- How state is modelled. A stream is its handle and its device; each function takes a stream and
-- returns its result beside the stream it leaves. The device has `errno`, the shared pages and
-- buffers, and a state of the driver's own, of any type; the driver's operations are parameters.
-- The mixer's operations and a plugin's are parameters in the same way. Where memory is asked for,
-- a Boolean says whether there is any. What the driver changes between two calls is counted as
-- changed by the later call. A pointer that may be NULL is an `Option`.
--
-- Numbers. `unsigned int` has 32 bits and `unsigned long` 64, as on 64-bit Linux, and arithmetic on
-- them wraps; an `int` result is wrapped to 32 signed bits. The transfer of areas and the repeated
-- attempts of `pcm_generic_transfer` recurse on fuel: a round of the first moves at least one
-- frame, so that as much fuel as frames and one more is enough; the second can go on as long as the
-- driver reports overruns, and its theorem names the number of them. `mixer_wait_event` recurses on the
-- results of `poll`, and is still waiting when they end; `pcm_get_htimestamp` reads until a reading
-- repeats, and its theorem names the number of readings. The chunks of a WAVE file and the playing of its
-- samples recurse on fuel: each round takes bytes of the file, so that as many rounds as bytes and one
-- more are enough.
--
-- What is held (memory, mappings, descriptors, libraries) is a record of Booleans beside the result; a
-- pointer to memory that was freed is a value of its own, and a function that uses it, or waits for ever,
-- has no result.
--
-- Not modelled: `pcm_open_by_name`; `pcm_params_to_string`; the memory of the names that a closed mixer
-- frees; the examples and tests;
-- utils/tinypcminfo.c and utils/tinywavinfo.c, and what utils/tinymix.c prints of the library's results; of
-- tinyplay and tinycap, the standard streams as files; utils/optparse.h, a copy of another library. The text of error messages is a name for the message and the error number.
--
pub mod Base
pub mod Alsa
pub mod Pcm
pub mod Plugin
pub mod Mixer
pub mod Hardware
pub mod Card
pub mod Tools
