-- ===== src/Sniff/Silence.antt =====
-- src/transport/sniff_io.rs with src/bus_timing.rs: the silence that a `SniffIo` keeps on the bus.
